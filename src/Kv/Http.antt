-- ===== src/Kv/Http.antt =====
-- The HTTP side of the store: internal/iface/http.go, `newHandle` of internal/httpserver/http.go, the
-- handlers of internal/service/httpservice.go, and client/http.go. Keys are ASCII.
use nekoq_bootstrap.Base.{
  Bool, Option, Outcome, Text, [], and_then, codes, err, external, if◌then◌else◌, leb, nat_same,
  none, ok, panic, some, ℕ, ◌&&◌, ◌++◌, ◌||◌, ◌∷◌,
}
use nekoq_bootstrap.Base.Io.{Io, continue}
use nekoq_bootstrap.Base.Maps.{is_empty}
use nekoq_bootstrap.Ha.Net.{raw}
use nekoq_bootstrap.Kv.Resp.{KvStorage}

-- iface.HttpResult, as what it renders: StatusOnlyResult, RawResult, and JsonResult with what
-- encoding/json makes of its object
pub data HttpResult : Type 0 where
  status_only_result : ℕ → HttpResult
  raw_result : Text → HttpResult
  json_result : ℕ → Outcome Text → HttpResult

pub record HttpResponse : Type 0 where
  pub status : ℕ
  pub body : Text

-- newHandle: rendering to a connection that takes the writes. A result that fails before it writes
-- leaves an empty answer with the status 200 of net/http.
unfoldable pub render : Outcome HttpResult → Outcome HttpResponse
render (ok (status_only_result status)) = ok (record { status = status; body = [] })
render (ok (raw_result raw)) = ok (record { status = 200; body = raw })
render (ok (json_result status (ok dat))) = ok (record { status = status; body = dat })
render (ok (json_result status (err e))) = ok (record { status = 200; body = [] })
render (ok (json_result status panic)) = panic
render (err e) = ok (record { status = 500; body = [] })
render panic = panic

-- unicode.IsSpace of an ASCII character
abbrev pub is_space : ℕ → Bool
is_space c = nat_same c 32 || (leb 9 c && leb c 13)

unfoldable pub trim_left : Text → Text
trim_left [] = []
trim_left (c ∷ s) = let rest = trim_left s in if is_space c then rest else c ∷ s

unfoldable pub trim_right : Text → Text
trim_right [] = []
trim_right (c ∷ s) = let rest = trim_right s in if is_empty rest && is_space c then [] else c ∷ rest

-- strings.TrimSpace
unfoldable pub trim_space : Text → Text
unfolding trim_left trim_right
trim_space s = trim_right (trim_left s)

abbrev pub http_got : Outcome (Option Text) → Outcome HttpResult
http_got (ok none) = ok (status_only_result 404)
http_got (ok (some val)) = ok (raw_result val)
http_got (err e) = err e
http_got panic = panic

-- An error of the store is logged.
abbrev pub http_logged : Outcome (Unit {0}) → Outcome HttpResult
http_logged (ok _) = ok (status_only_result 200)
http_logged (err e) = ok (status_only_result 200)
http_logged panic = panic

module _ {S : Type 0} (kv : KvStorage S) where
  -- GET /services/kvstore/:key
  unfoldable pub http_get : Text → S → Outcome HttpResult
  http_get param s =
      let key = trim_space param in
      if is_empty key then ok (status_only_result 400) else http_got (kv.get s key)

  -- PUT /services/kvstore/:key, with what reading the body comes to
  unfoldable pub http_put : Text → Outcome Text → Io S HttpResult
  http_put param body s =
      let key = trim_space param in
      if is_empty key
      then (s, ok (status_only_result 400))
      else continue body (λ dat s'. let (s'', o) = kv.put key dat s' in (s'', http_logged o)) s

-- HttpServiceClient, over the exchange of a request for a response: `send path` of a GET and
-- `send path val` of a PUT.
abbrev pub client_path : Text → Text
client_path key = codes "/services/kvstore/" ++ key

abbrev pub put_answered : HttpResponse → Outcome (Unit {0})
put_answered r = if nat_same r.status 200 then ok tt else err (external (codes "put kv failed"))

unfoldable pub kv_put : (Text → Text → Outcome HttpResponse) → Text → Text → Outcome (Unit {0})
kv_put send key val =
    let key' = trim_space key in
    if is_empty key'
    then err (external (codes "key is empty"))
    else and_then (send (client_path key') val) put_answered

abbrev pub get_answered : HttpResponse → Outcome (Option Text)
get_answered r =
    if nat_same r.status 404
    then ok none
    else if nat_same r.status 200
    then ok (some r.body)
    else err (external (codes "get kv failed"))

unfoldable pub kv_get : (Text → Outcome HttpResponse) → Text → Outcome (Option Text)
kv_get send key =
    let key' = trim_space key in
    if is_empty key'
    then err (external (codes "key is empty"))
    else and_then (send (client_path key')) get_answered
