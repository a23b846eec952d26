-- ===== src/Dns/Http.antt =====
-- internal/dnscore/service.httpdns.go: the name server behind HTTP. `Packing` is Unpack and Pack of
-- github.com/miekg/dns, and `date` the time of the reply as net/http writes it. A handler that returns
-- without a status has answered 200.
use nekoq_bootstrap.Base.{
  Bool, List, Option, Outcome, Text, [], codes, err, external, false, if◌then◌else◌, nat_key,
  nat_same, none, not, ok, panic, some, text_key, true, ℕ, ◌++◌, ◌==◌, ◌∷◌,
}
use nekoq_bootstrap.Base.Maps.{Map, insert, is_empty}
use nekoq_bootstrap.Dns.Base64.{decode_string}
use nekoq_bootstrap.Dns.Message.{DnsLib, Msg}
use nekoq_bootstrap.Dns.Server.{DnsEndpoint, process_dns_msg}

pub record Packing (Ip : Type 0) : Type 0 where
  pub unpack : Text → Outcome (Msg Ip)
  pub pack : Msg Ip → Outcome Text

-- What the handler reads of an http.Request; `form_dns` is the form value `dns`.
pub record HttpRequest : Type 0 where
  pub method : Text
  pub content_type : Text
  pub accept : Text
  pub form_dns : Text
  pub body : Outcome Text

pub record HttpResponse : Type 0 where
  pub code : ℕ
  pub headers : Map Text Text
  pub content : Text

abbrev pub user_agent : Text
user_agent = codes "DNS-over-HTTPS/1.0 NekoQ-Bootstrap"

abbrev pub dns_message : Text
dns_message = codes "application/dns-message"

-- The headers of every reply.
abbrev pub common_headers : Map Text Text
common_headers =
    (codes "Access-Control-Allow-Headers", codes "Content-Type")
    ∷ (codes "Access-Control-Allow-Methods", codes "GET, HEAD, OPTIONS, POST")
    ∷ (codes "Access-Control-Allow-Origin", codes "*")
    ∷ (codes "Access-Control-Max-Age", codes "3600")
    ∷ (codes "Server", user_agent)
    ∷ (codes "X-Powered-By", user_agent)
    ∷ []

abbrev pub replied_with : ℕ → Map Text Text → Text → HttpResponse
replied_with code headers content = record { code = code; headers = headers; content = content }

-- A status without a body.
abbrev pub refused : ℕ → HttpResponse
refused code = replied_with code common_headers []

-- strings.SplitN(s, ";", 2)[0]
unfoldable pub before_semicolon : Text → Text
before_semicolon [] = []
before_semicolon (c ∷ s) = let rest = before_semicolon s in if nat_same c b';' then [] else c ∷ rest

-- strings.Split(s, ","), with the part that is being read.
unfoldable pub split_commas : Text → Text → List Text
split_commas part [] = part ∷ []
split_commas part (c ∷ s) =
    let whole = part ∷ split_commas [] s in
    let longer = split_commas (part ++ c ∷ []) s in if nat_same c b',' then whole else longer

unfoldable pub any_dns_message : List Text → Bool
any_dns_message [] = false
any_dns_message (candidate ∷ rest) =
    let later = any_dns_message rest in
    if before_semicolon candidate == dns_message then true else later

-- The empty text stands for no type, on which the handler panics.
unfoldable pub response_type : Text → Text → Text
response_type accept content_type =
    if any_dns_message (split_commas [] accept)
    then dns_message
    else if content_type == dns_message
    then dns_message
    else []

-- The bytes of the request; an error is answered with 400.
unfoldable pub request_bytes : HttpRequest → Outcome Text
request_bytes r =
    if r.method == codes "GET"
    then (elim (decode_string r.form_dns) [
      | none ↦ err (external (codes "illegal base64 data"))
      | some bytes ↦ ok bytes
    ])
    else if r.method == codes "POST"
    then r.body
    else panic

abbrev pub reply_headers : Text → Map Text Text
reply_headers date = insert (codes "Vary") (codes "Accept") (
    insert (codes "Last-Modified") date
      (insert (codes "Date") date (insert (codes "Content-Type") dns_message common_headers)))

module _ {Ip : Type 0} (lib : DnsLib Ip) (packing : Packing Ip) where
  -- A reply of the endpoint as a response; after a panic the handler returns with what was set before.
  abbrev pub rendered : Text → Outcome (Option (Msg Ip)) → HttpResponse
  rendered date (ok none) = replied_with 404 (reply_headers date) []
  rendered date (ok (some reply)) = elim (packing.pack reply) [
    | ok bytes ↦ replied_with 200 (reply_headers date) bytes
    | err e ↦ replied_with 500 (reply_headers date) []
    | panic ↦ replied_with 200 (reply_headers date) []
  ]
  rendered date (err e) = refused 200
  rendered date panic = refused 200

  unfoldable pub answer_message :
      DnsEndpoint Ip → ℕ → Text → Outcome (Msg Ip) → DnsEndpoint Ip × HttpResponse
  answer_message d now date (ok msg) =
      let (d', o) = process_dns_msg lib d msg now in (d', rendered date o)
  answer_message d now date (err e) = (d, refused 400)
  answer_message d now date panic = (d, refused 200)

  unfoldable pub answer_bytes :
      DnsEndpoint Ip → ℕ → Text → Outcome Text → DnsEndpoint Ip × HttpResponse
  answer_bytes d now date (ok bytes) =
      if is_empty bytes then (d, refused 400) else answer_message d now date (packing.unpack bytes)
  answer_bytes d now date (err e) = (d, refused 400)
  answer_bytes d now date panic = (d, refused 200)

  -- dnsQuery, which recovers from a panic.
  unfoldable pub dns_query : DnsEndpoint Ip → HttpRequest → ℕ → Text → DnsEndpoint Ip × HttpResponse
  dns_query d r now date =
      if r.method == codes "OPTIONS"
      then (d, replied_with 200 (insert (codes "Content-Length") (codes "0") common_headers) [])
      else if not (r.content_type == dns_message)
      then (d, refused 415)
      else if is_empty (response_type r.accept r.content_type)
      then (d, refused 200)
      else answer_bytes d now date (request_bytes r)
