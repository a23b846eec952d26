-- ===== src/Dns/HttpServing.antt =====
-- The name server behind HTTP answers as the name server does (internal/dnscore/service.httpdns.go and
-- internal/dnscore/service.standard.go).
use nekoq_bootstrap.Base.{
  ==_refl, Bool-cases, Option, Outcome, Text, [], ap, arith, codes, err, false, inl, inr, nat_key,
  none, ok, panic, refl, some, text_key, text_same, true, ℕ, ◌==◌, ◌∙◌, ◌≡◌,
}
use nekoq_bootstrap.Base.Maps.{is_empty}
use nekoq_bootstrap.Dns.Base64.{decode_string}
use nekoq_bootstrap.Dns.Base64RoundTrip.{AllBytes, decode_string-encode64, encode64}
use nekoq_bootstrap.Dns.Http.{
  HttpRequest, HttpResponse, Packing, answer_bytes, answer_message, any_dns_message, dns_message,
  dns_query, rendered, request_bytes, response_type, split_commas,
}
use nekoq_bootstrap.Dns.Message.{DnsLib, Msg}
use nekoq_bootstrap.Dns.Server.{DnsEndpoint, process_dns_msg, serve_dns, written}

-- A request that carries these bytes: in its query, or as its body.
pub data Carries (bytes : Text) (r : HttpRequest) : Type 0 where
  by_get : r.method ≡ codes "GET" → r.form_dns ≡ encode64 bytes → AllBytes bytes → Carries bytes r
  by_post : r.method ≡ codes "POST" → r.body ≡ ok bytes → Carries bytes r

is_get : (m : Text) → m ≡ codes "GET" → (m == codes "GET") ≡ true
unfolding text_same
is_get m e = ap (λ x. x == codes "GET") e

is_post :
    (m : Text) → m ≡ codes "POST" → ((m == codes "GET") ≡ false) × ((m == codes "POST") ≡ true)
unfolding text_same
is_post m e = (ap (λ x. x == codes "GET") e, ap (λ x. x == codes "POST") e)

request_bytes-Carries :
    (bytes : Text) (r : HttpRequest) → Carries bytes r → request_bytes r ≡ ok bytes
unfolding request_bytes
request_bytes-Carries bytes r (by_get m f h) =
    let decoded = ap decode_string f ∙ decode_string-encode64 bytes h in
    rw (is_get r.method m) (rw decoded refl)
request_bytes-Carries bytes r (by_post m b) =
    let (not_get, post) = is_post r.method m in rw not_get (rw post b)

not_options :
    (bytes : Text) (r : HttpRequest) → Carries bytes r → (r.method == codes "OPTIONS") ≡ false
unfolding text_same
not_options bytes r (by_get m f h) = ap (λ x. x == codes "OPTIONS") m
not_options bytes r (by_post m b) = ap (λ x. x == codes "OPTIONS") m

response_type-same :
    (accept content_type : Text)
    → (content_type == dns_message) ≡ true
    → is_empty (response_type accept content_type) ≡ false
unfolding response_type
response_type-same accept content_type e =
    elim (Bool-cases (any_dns_message (split_commas [] accept))) [
      | inl x ↦ rw x refl
      | inr x ↦ rw x (rw e refl)
    ]

module _ {Ip : Type 0} (lib : DnsLib Ip) (packing : Packing Ip) where
  -- What the two servers write for a reply of the endpoint.
  abbrev pub packed : Option (Msg Ip) → Text
  packed none = []
  packed (some reply) = elim (packing.pack reply) [ ok bytes ↦ bytes | _ ↦ [] ]

  abbrev pub code_of : Outcome (Option (Msg Ip)) → ℕ
  code_of (ok none) = 404
  code_of (ok (some reply)) = elim (packing.pack reply) [ err e ↦ 500 | _ ↦ 200 ]
  code_of (err e) = 200
  code_of panic = 200

  rendered-content :
      (date : Text) (o : Outcome (Option (Msg Ip)))
      → ((rendered lib packing date o).content ≡ packed (written lib o))
        × ((rendered lib packing date o).code ≡ code_of o)
  rendered-content date (ok none) = (refl, refl)
  rendered-content date (ok (some reply)) = ground arith
  rendered-content date (err e) = (refl, refl)
  rendered-content date panic = (refl, refl)

  dns_query-Carries :
      (d : DnsEndpoint Ip) (r : HttpRequest) (bytes : Text) (msg : Msg Ip) (now : ℕ) (date : Text)
      → Carries bytes r
      → r.content_type ≡ dns_message
      → is_empty bytes ≡ false
      → packing.unpack bytes ≡ ok msg
      → dns_query lib packing d r now date ≡ (
        (process_dns_msg lib d msg now).0,
        rendered lib packing date (process_dns_msg lib d msg now).1,
      )
  unfolding dns_query answer_bytes answer_message
  dns_query-Carries d r bytes msg now date c t e u =
      let same : (r.content_type == dns_message) ≡ true =
        ap (λ x. x == dns_message) t ∙ ==_refl dns_message in
      rw (not_options bytes r c) (
        rw same (
          rw (response_type-same r.accept r.content_type same)
            (rw (request_bytes-Carries bytes r c) (rw e (rw u refl)))))

  -- A request that carries the bytes of a message, which are not empty and unpack without an error, by
  -- GET in base64url or by POST as its body, with the content type of DNS messages, changes the server
  -- as the message does that comes over DNS, and its body is that reply packed, empty where there is
  -- none or it cannot be packed. The status is 404 where the server makes no reply, 500 for a reply that
  -- cannot be packed, and 200 otherwise: for a reply, and without one after a panic or an error of a
  -- handler.
  pub dns_query-serve_dns :
      (d : DnsEndpoint Ip) (r : HttpRequest) (bytes : Text) (msg : Msg Ip) (now : ℕ) (date : Text)
      → Carries bytes r
      → r.content_type ≡ dns_message
      → is_empty bytes ≡ false
      → packing.unpack bytes ≡ ok msg
      → ((dns_query lib packing d r now date).0 ≡ (serve_dns lib d msg now).0)
        × ((dns_query lib packing d r now date).1.content ≡ packed (serve_dns lib d msg now).1)
        × ((dns_query lib packing d r now date).1.code ≡ code_of (process_dns_msg lib d msg now).1)
  unfolding serve_dns
  dns_query-serve_dns d r bytes msg now date c t e u =
      let whole = dns_query-Carries d r bytes msg now date c t e u in
      let (body, code) = rendered-content date (process_dns_msg lib d msg now).1 in
      (
        ap (λ (x : DnsEndpoint Ip × HttpResponse). x.0) whole,
        ap (λ (x : DnsEndpoint Ip × HttpResponse). x.1.content) whole ∙ body,
        ap (λ (x : DnsEndpoint Ip × HttpResponse). x.1.code) whole ∙ code,
      )
