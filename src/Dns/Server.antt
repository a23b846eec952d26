-- ===== src/Dns/Server.antt =====
-- internal/dnscore/service.standard.go: a request through the cache and the handlers.
use nekoq_bootstrap.Base.{
  Bool, List, Option, Outcome, Text, [], do_not_respond, err, false, if◌then◌else◌, nat_same, none,
  not, ok, panic, some, ℕ, ◌&&◌, ◌∷◌,
}
use nekoq_bootstrap.Base.Maps.{is_empty}
use nekoq_bootstrap.Dns.Cache.{Cache, cache_get, cache_put}
use nekoq_bootstrap.Dns.Handlers.{handle_a, handle_aaaa, handle_ptr, handle_srv, handle_txt}
use nekoq_bootstrap.Dns.Message.{
  DnsLib, Msg, Question, opcode_query, type_a, type_aaaa, type_ptr, type_srv, type_txt,
}
use nekoq_bootstrap.Dns.Upstream.{
  EnclosureDomain, UpstreamDns, new_upstream_dns, not_found_upstream,
}
use nekoq_bootstrap.MemStore.Model.{Resolver}

pub record DnsEndpoint (Ip : Type 0) : Type 0 where
  pub storage : Resolver
  pub parent : Option UpstreamDns
  pub cache : Cache Ip

module _ {Ip : Type 0} (lib : DnsLib Ip) where
  -- NewDnsEndpoint: the upstream is there if a server is configured.
  unfoldable pub new_dns_endpoint : Resolver → List Text → List EnclosureDomain → DnsEndpoint Ip
  new_dns_endpoint storage upstreams suffixes = record {
    storage = storage;
    parent = if is_empty upstreams then none else some (new_upstream_dns lib suffixes);
    cache = [];
  }

  -- HandlerMapping
  unfoldable pub handler_of :
      ℕ → Option (Option UpstreamDns → Resolver → Msg Ip → Question → Outcome (Msg Ip))
  handler_of qtype =
      if nat_same qtype type_a
      then some (handle_a lib)
      else if nat_same qtype type_txt
      then some (handle_txt lib)
      else if nat_same qtype type_srv
      then some (handle_srv lib)
      else if nat_same qtype type_ptr
      then some (handle_ptr lib)
      else if nat_same qtype type_aaaa
      then some (handle_aaaa lib)
      else none

  -- What becomes of a handler's answer: no reply, a panic, or a reply that may be cached.
  abbrev pub handled :
      DnsEndpoint Ip → Question → ℕ → Outcome (Msg Ip) → DnsEndpoint Ip × Outcome (Option (Msg Ip))
  handled d q now (ok res) = (record d { cache = cache_put lib d.cache q res now }, ok (some res))
  handled d q now (err do_not_respond) = (d, ok none)
  handled d q now (err e) = (d, panic)
  handled d q now panic = (d, panic)

  -- The pipeline behind the cache.
  unfoldable pub resolve_question :
      DnsEndpoint Ip → Msg Ip → Question → ℕ → DnsEndpoint Ip × Outcome (Option (Msg Ip))
  resolve_question d r q now = elim (handler_of q.qtype) [
    | none ↦ (d, ok (some (not_found_upstream lib false r q)))
    | some handler ↦ handled d q now (handler d.parent d.storage r q)
  ]

  unfoldable pub answer_question :
      DnsEndpoint Ip → Msg Ip → Question → ℕ → DnsEndpoint Ip × Outcome (Option (Msg Ip))
  answer_question d r q now = elim (cache_get lib d.cache r q now) [
    | some res ↦ (d, ok (some res))
    | none ↦ resolve_question d r q now
  ]

  abbrev pub has_many : List Question → Bool
  has_many [] = false
  has_many (q ∷ qs) = not (is_empty qs)

  abbrev pub first_question :
      DnsEndpoint Ip → Msg Ip → List Question → ℕ → DnsEndpoint Ip × Outcome (Option (Msg Ip))
  first_question d r [] now = (d, panic)
  first_question d r (q ∷ qs) now = answer_question d r q now

  unfoldable pub process_dns_msg :
      DnsEndpoint Ip → Msg Ip → ℕ → DnsEndpoint Ip × Outcome (Option (Msg Ip))
  process_dns_msg d r now =
      if nat_same r.opcode opcode_query && has_many r.question
      then (d, ok (some (lib.set_rcode_format_error r)))
      else first_question d r r.question now

  abbrev pub written : Outcome (Option (Msg Ip)) → Option (Msg Ip)
  written (ok reply) = reply
  written (err e) = none
  written panic = none

  -- ServeDNS, which recovers from a panic: what is written to the client, if anything
  unfoldable pub serve_dns : DnsEndpoint Ip → Msg Ip → ℕ → DnsEndpoint Ip × Option (Msg Ip)
  serve_dns d r now = let (d', o) = process_dns_msg d r now in (d', written o)
