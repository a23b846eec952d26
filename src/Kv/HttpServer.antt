-- ===== src/Kv/HttpServer.antt =====
-- The HTTP server of internal/httpserver/http.go, and the container of internal/service/httpservice.go
-- that puts the store on it. `Router` is github.com/julienschmidt/httprouter over handlers on a state
-- `S`; net/http says what listening and shutting down come to.
use nekoq_bootstrap.Base.{
  Bool, List, Option, Outcome, Text, [], and_then, codes, false, nat_key, none, ok, panic, some,
  text_key, true, ◌∷◌,
}
use nekoq_bootstrap.Base.Io.{Io, continue}
use nekoq_bootstrap.Base.Maps.{Map, lookup}
use nekoq_bootstrap.Kv.Http.{HttpResponse, HttpResult, http_get, http_put, render}
use nekoq_bootstrap.Kv.Resp.{KvStorage}

-- iface.HttpHandler, from the parameters of the route and what reading the body comes to
abbrev pub HttpHandler : Type 0 → Type 0
HttpHandler S = Map Text Text → Outcome Text → Io S HttpResult

-- httprouter.Handle
abbrev pub RouteHandle : Type 0 → Type 0
RouteHandle S = Map Text Text → Outcome Text → Io S HttpResponse

pub record Router (S R : Type 0) : Type 0 where
  pub new_router : R
  -- Handle panics at a route that conflicts with one that is there.
  pub handle_route : Text → Text → RouteHandle S → R → Outcome R
  -- ServeHTTP, at a method and a path
  pub serve_http : R → Text → Text → Outcome Text → Io S HttpResponse

-- httprouter.Params.ByName
abbrev pub by_name : Text → Map Text Text → Text
by_name name params = elim (lookup name params) [ none ↦ [] | some v ↦ v ]

unfoldable pub new_handle : {S : Type 0} → HttpHandler S → RouteHandle S
new_handle h params body s = let (s', o) = h params body s in (s', render o)

-- `server` is the field of that name: nil, or whether it still serves.
pub record HttpServer (R : Type 0) : Type 0 where
  pub router : R
  pub listen_addr : Text
  pub server : Option Bool

pub record HttpServiceContainer (S R : Type 0) : Type 0 where
  pub http : HttpServer R
  pub kvstor : Option (KvStorage S)

module _ {S R : Type 0} (router : Router S R) where
  unfoldable pub new_http_server : Text → HttpServer R
  new_http_server addr = record { router = router.new_router; listen_addr = addr; server = none }

  unfoldable pub add : Text → Text → HttpHandler S → HttpServer R → Outcome (HttpServer R)
  add method path handler h =
      and_then (router.handle_route method path (new_handle handler) h.router)
        (λ r. ok (record h { router = r }))

  -- Startup, with what listening at the address comes to
  unfoldable pub startup : (Text → Outcome (Unit {0})) → Io (HttpServer R) (Unit {0})
  startup listen h =
      continue (listen h.listen_addr) (λ _ h'. (record h' { server = some true }, ok tt)) h

  -- Stop, with what shutting down comes to; of a server that was not started it panics.
  unfoldable pub stop : Outcome (Unit {0}) → Io (HttpServer R) (Unit {0})
  stop shutdown h = elim h.server [
    | none ↦ (h, panic)
    | some _ ↦ (record h { server = some false }, shutdown)
  ]

  unfoldable pub new_http_service_container : HttpServer R → HttpServiceContainer S R
  new_http_service_container h = record { http = h; kvstor = none }

  abbrev pub get_handler : KvStorage S → HttpHandler S
  get_handler kv params body s = (s, http_get kv (by_name (codes "key") params) s)

  abbrev pub put_handler : KvStorage S → HttpHandler S
  put_handler kv params body s = http_put kv (by_name (codes "key") params) body s

  unfoldable pub setup_kv_storage :
      KvStorage S → HttpServiceContainer S R → Outcome (HttpServiceContainer S R)
  setup_kv_storage kv c =
      and_then (add (codes "GET") (codes "/services/kvstore/:key") (get_handler kv) c.http) (λ h.
        and_then (add (codes "PUT") (codes "/services/kvstore/:key") (put_handler kv) h)
          (λ h'. ok (record { http = h'; kvstor = some kv })))

-- HttpServiceClient, with the endpoints that it is made of
pub record HttpServiceClient : Type 0 where
  pub endpoints : List Text

unfoldable pub new_http_service_client : Text → HttpServiceClient
new_http_service_client endpoint = record { endpoints = endpoint ∷ [] }

unfoldable pub pick_endpoint : HttpServiceClient → Outcome Text
pick_endpoint h = elim h.endpoints [ [] ↦ panic | endpoint ∷ rest ↦ ok endpoint ]
