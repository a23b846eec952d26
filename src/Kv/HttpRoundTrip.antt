-- ===== src/Kv/HttpRoundTrip.antt =====
-- A client of client/http.go that talks to the server of internal/httpserver/http.go on which
-- internal/service/httpservice.go has put the store.
use nekoq_bootstrap.Base.{
  IfOk, IfOk-bind, IfOk-ok, Outcome, Text, [], and_then, ap, codes, err, false, nat_key, ok, panic,
  refl, some, text_key, text_same, ◌++◌, ◌==◌, ◌∙◌, ◌∷◌, ◌≡◌,
}
use nekoq_bootstrap.Base.Maps.{is_empty, lookup}
use nekoq_bootstrap.Kv.Http.{
  HttpResponse, client_path, get_answered, http_get, http_put, kv_get, kv_put, put_answered, render,
  trim_space,
}
use nekoq_bootstrap.Kv.HttpServer.{
  HttpHandler, HttpServer, HttpServiceContainer, RouteHandle, Router, add, get_handler, new_handle,
  put_handler, setup_kv_storage,
}
use nekoq_bootstrap.Kv.Resp.{KvStorage}

-- httprouter hands a path that is a prefix and a parameter to the handler that was set last for the
-- method and the pattern, and other methods as before. `IsParam` says which texts a parameter can be.
pub record Routing {S R : Type 0} (router : Router S R) (IsParam : Text → Type 0) : Type 0 where
  pub reaches :
      (method prefix key : Text) (h : RouteHandle S) (r r' : R) (body : Outcome Text) (s : S)
      → router.handle_route method (prefix ++ codes ":key") h r ≡ ok r'
      → IsParam key
      → router.serve_http r' method (prefix ++ key) body s ≡ h ((codes "key", key) ∷ []) body s
  pub others :
      (method method' path path' : Text) (h : RouteHandle S) (r r' : R) (body : Outcome Text)
      (s : S)
      → router.handle_route method path h r ≡ ok r'
      → (method == method') ≡ false
      → router.serve_http r' method' path' body s ≡ router.serve_http r method' path' body s

module _ {S R : Type 0} (router : Router S R) (IsParam : Text → Type 0)
    (laws : Routing router IsParam) (kv : KvStorage S) where
  -- The routes of the store are on the server.
  abbrev pub HasStore : R → Type 0
  HasStore r =
      (r0 : R) × (r1 : R) × (router.handle_route (codes "GET") (codes "/services/kvstore/:key")
          (new_handle (get_handler router kv)) r0
        ≡ ok r1)
      × (router.handle_route (codes "PUT") (codes "/services/kvstore/:key")
            (new_handle (put_handler router kv)) r1
          ≡ ok r)

  IfOk-self {ℓ} : {A : Type ℓ} (o : Outcome A) → IfOk (λ a. o ≡ ok a) o
  IfOk-self (ok a) = refl
  IfOk-self (err e) = tt
  IfOk-self panic = tt

  add-IfOk :
      (method path : Text) (handler : HttpHandler S) (h : HttpServer R)
      → IfOk
          (λ h'. router.handle_route method path (new_handle handler) h.router ≡ ok h'.router)
          (add router method path handler h)
  unfolding add
  add-IfOk method path handler h =
      let o = router.handle_route method path (new_handle handler) h.router in
      IfOk-bind (λ r. o ≡ ok r) _ o _ (IfOk-self o) (λ r e. e)

  setup_kv_storage-HasStore :
      (c : HttpServiceContainer S R)
      → IfOk (λ c'. HasStore c'.http.router) (setup_kv_storage router kv c)
  unfolding setup_kv_storage
  setup_kv_storage-HasStore c =
      IfOk-bind _ (λ c'. HasStore c'.http.router)
        (add router (codes "GET") (codes "/services/kvstore/:key") (get_handler router kv) c.http) _
        (add-IfOk (codes "GET") (codes "/services/kvstore/:key") (get_handler router kv) c.http)
        (λ h e.
          IfOk-bind _ (λ c'. HasStore c'.http.router)
            (add router (codes "PUT") (codes "/services/kvstore/:key") (put_handler router kv) h) _
            (add-IfOk (codes "PUT") (codes "/services/kvstore/:key") (put_handler router kv) h)
            (λ h' e'. (c.http.router, h.router, e, e')))

  -- The exchanges of a client with the server in a state.
  abbrev pub put_to : R → S → Text → Text → Outcome HttpResponse
  put_to r s path val = (router.serve_http r (codes "PUT") path (ok val) s).1

  abbrev pub get_from : R → S → Text → Outcome HttpResponse
  get_from r s path = (router.serve_http r (codes "GET") path (ok []) s).1

  served_put :
      (r : R) (key val : Text) (s : S)
      → HasStore r
      → IsParam key
      → router.serve_http r (codes "PUT") (client_path key) (ok val) s
        ≡ new_handle (put_handler router kv) ((codes "key", key) ∷ []) (ok val) s
  served_put r key val s (r0, r1, get_set, put_set) param =
      laws.reaches (codes "PUT") (codes "/services/kvstore/") key _ r1 r (ok val) s put_set param

  served_get :
      (r : R) (key : Text) (s : S)
      → HasStore r
      → IsParam key
      → router.serve_http r (codes "GET") (client_path key) (ok []) s
        ≡ new_handle (get_handler router kv) ((codes "key", key) ∷ []) (ok []) s
  unfolding text_same
  served_get r key s (r0, r1, get_set, put_set) param =
      laws.others (codes "PUT") (codes "GET") (codes "/services/kvstore/:key") (client_path key) _
        r1 r (ok []) s put_set refl
      ∙ laws.reaches (codes "GET") (codes "/services/kvstore/") key _ r0 r1 (ok []) s get_set param

  put_done :
      (key val : Text) (s s' : S)
      → is_empty key ≡ false
      → trim_space key ≡ key
      → kv.put key val s ≡ (s', ok tt)
      → new_handle (put_handler router kv) ((codes "key", key) ∷ []) (ok val) s
        ≡ (s', ok (record { status = 200; body = [] }))
  unfolding new_handle http_put render lookup text_same
  put_done key val s s' some_key trimmed put = rw trimmed (rw some_key (rw put refl))

  get_done :
      (key val : Text) (s : S)
      → is_empty key ≡ false
      → trim_space key ≡ key
      → kv.get s key ≡ ok (some val)
      → new_handle (get_handler router kv) ((codes "key", key) ∷ []) (ok []) s
        ≡ (s, ok (record { status = 200; body = val }))
  unfolding new_handle http_get render lookup text_same
  get_done key val s some_key trimmed got = rw trimmed (rw some_key (rw got refl))

  -- Once the store is put on the server, and where the store takes a value under a key that is not
  -- blank, has no blanks at its ends and can be a parameter, and then has the value under the key, a
  -- client that puts the value is told of its success, the server is left in the state in which the put
  -- of the store leaves it, and the client gets the value from there.
  pub kv_put-kv_get :
      (c c' : HttpServiceContainer S R) (key val : Text) (s s' : S)
      → setup_kv_storage router kv c ≡ ok c'
      → is_empty key ≡ false
      → trim_space key ≡ key
      → IsParam key
      → kv.put key val s ≡ (s', ok tt)
      → kv.get s' key ≡ ok (some val)
      → (kv_put (put_to c'.http.router s) key val ≡ ok tt)
        × ((router.serve_http c'.http.router (codes "PUT") (client_path key) (ok val) s).0 ≡ s')
        × (kv_get (get_from c'.http.router s') key ≡ ok (some val))
  unfolding kv_put kv_get
  kv_put-kv_get c c' key val s s' set some_key trimmed param put got =
      let has = IfOk-ok _ c' (setup_kv_storage router kv c) (setup_kv_storage-HasStore c) set in
      let asked = served_put c'.http.router key val s has param in
      let asked' = served_get c'.http.router key s' has param in
      let putting = asked ∙ put_done key val s s' some_key trimmed put in
      let getting = asked' ∙ get_done key val s' some_key trimmed got in
      (
        rw trimmed (
            rw some_key (ap (λ (x : S × Outcome HttpResponse). and_then x.1 put_answered) putting)),
        ap (λ (x : S × Outcome HttpResponse). x.0) putting,
        rw trimmed (
            rw some_key (ap (λ (x : S × Outcome HttpResponse). and_then x.1 get_answered) getting)),
      )
