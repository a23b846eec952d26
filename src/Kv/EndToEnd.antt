-- ===== src/Kv/EndToEnd.antt =====
-- A client of client/http.go that talks to the handlers of internal/service/httpservice.go.
use nekoq_bootstrap.Base.{
  Option, Outcome, Text, and_then, codes, err, external, false, none, ok, panic, refl, some, ◌≡◌,
}
use nekoq_bootstrap.Base.Maps.{is_empty}
use nekoq_bootstrap.Kv.Http.{
  HttpResponse, client_path, get_answered, http_get, http_got, http_logged, http_put, kv_get,
  kv_put, put_answered, render, trim_space,
}
use nekoq_bootstrap.Kv.Resp.{KvStorage}

http_got-answered :
    (o : Outcome (Option Text))
    → and_then (render (http_got o)) get_answered
      ≡ elim o [ ok v ↦ ok v | err e ↦ err (external (codes "get kv failed")) | panic ↦ panic ]
unfolding render
http_got-answered (ok none) = refl
http_got-answered (ok (some v)) = refl
http_got-answered (err e) = refl
http_got-answered panic = refl

http_logged-answered :
    (o : Outcome (Unit {0}))
    → and_then (render (http_logged o)) put_answered
      ≡ elim o [ ok _ ↦ ok tt | err e ↦ ok tt | panic ↦ panic ]
unfolding render
http_logged-answered (ok v) = refl
http_logged-answered (err e) = refl
http_logged-answered panic = refl

module _ {S : Type 0} (kv : KvStorage S) (param_of : Text → Text) where
  -- The exchanges with a server in a state; `param_of` is the parameter of the route (httprouter).
  abbrev pub put_over_http : S → Text → Text → Outcome HttpResponse
  put_over_http s path val = render (http_put kv (param_of path) (ok val) s).1

  abbrev pub get_over_http : S → Text → Outcome HttpResponse
  get_over_http s path = render (http_get kv (param_of path) s)

  -- For a key that is not blank, where the route hands the path's key to the handler, the client
  -- gets what the store has under the key without its blanks, an error of its own for an error of
  -- the store, and no answer if the store panics.
  pub kv_get-http_get :
      (s : S) (key : Text)
      → is_empty (trim_space key) ≡ false
      → trim_space (param_of (client_path (trim_space key))) ≡ trim_space key
      → kv_get (get_over_http s) key ≡ elim (kv.get s (trim_space key)) [
        | ok v ↦ ok v
        | err e ↦ err (external (codes "get kv failed"))
        | panic ↦ panic
      ]
  unfolding kv_get http_get render
  kv_get-http_get s key h route =
      rw h (rw route (rw h (http_got-answered (kv.get s (trim_space key)))))

  -- For a key that is not blank, where the route hands the path's key to the handler, the client is
  -- told that its value was put, whether the store took it or gave an error.
  pub kv_put-http_put :
      (s : S) (key val : Text)
      → is_empty (trim_space key) ≡ false
      → trim_space (param_of (client_path (trim_space key))) ≡ trim_space key
      → kv_put (put_over_http s) key val
        ≡ elim (kv.put (trim_space key) val s).1 [ ok _ ↦ ok tt | err e ↦ ok tt | panic ↦ panic ]
  unfolding kv_put http_put render
  kv_put-http_put s key val h route =
      rw h (rw route (rw h (http_logged-answered (kv.put (trim_space key) val s).1)))
