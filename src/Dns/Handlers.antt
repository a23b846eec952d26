-- ===== src/Dns/Handlers.antt =====
-- internal/dnscore/handlers*.go: the handlers of the types of question. The parent of a handler is the
-- upstream server, or none.
use nekoq_bootstrap.Base.{
  Bool, Option, Outcome, Text, [], and_then, err, false, if◌then◌else◌, none, ok, panic, some,
  storage_not_found, true, ℕ, ◌++◌, ◌>>=◌, ◌∷◌,
}
use nekoq_bootstrap.Dns.Message.{
  DnsLib, Msg, Question, Rr, RrHeader, default_response_ttl, rr_a, rr_aaaa, rr_ptr, rr_srv, rr_txt,
  type_a, type_aaaa, type_ptr, type_srv, type_txt,
}
use nekoq_bootstrap.Dns.Upstream.{UpstreamDns, handle_upstream, not_found_upstream}
use nekoq_bootstrap.MemStore.Model.{
  Resolver, domain_type_a, domain_type_aaaa, domain_type_ptr, domain_type_srv, domain_type_txt,
}

module _ {Ip : Type 0} (lib : DnsLib Ip) where
  -- ParentRecordHandler.HandleQuestion
  unfoldable pub handle_parent : Option UpstreamDns → Msg Ip → Question → Outcome (Msg Ip)
  handle_parent none m q = ok (not_found_upstream lib false m q)
  handle_parent (some u) m q = handle_upstream lib u m q

  -- What a handler makes of the answer of the storage.
  unfoldable pub or_parent :
      Option UpstreamDns
      → Msg Ip
      → Question
      → Outcome Text
      → (Text → Outcome (Msg Ip))
      → Outcome (Msg Ip)
  or_parent parent m q (ok result) reply = reply result
  or_parent parent m q (err storage_not_found) reply = handle_parent parent m q
  or_parent parent m q (err e) reply = err e
  or_parent parent m q panic reply = panic

  abbrev pub with_answer : Msg Ip → Rr Ip → Msg Ip
  with_answer m rr =
      let reply = lib.set_reply m in record reply { answer = reply.answer ++ rr ∷ [] }

  abbrev pub answer_header : Question → ℕ → RrHeader
  answer_header q rrtype = record { name = q.name; rrtype = rrtype; ttl = default_response_ttl }

  unfoldable pub handle_a : Option UpstreamDns → Resolver → Msg Ip → Question → Outcome (Msg Ip)
  handle_a parent storage m q =
      or_parent parent m q (storage q.name domain_type_a)
        (λ result. ok (with_answer m (rr_a (answer_header q type_a) (lib.parse_ip result))))

  unfoldable pub handle_ptr : Option UpstreamDns → Resolver → Msg Ip → Question → Outcome (Msg Ip)
  handle_ptr parent storage m q =
      or_parent parent m q (storage q.name domain_type_ptr)
        (λ result. ok (with_answer m (rr_ptr (answer_header q type_ptr) result)))

  unfoldable pub handle_txt : Option UpstreamDns → Resolver → Msg Ip → Question → Outcome (Msg Ip)
  handle_txt parent storage m q =
      or_parent parent m q (storage q.name domain_type_txt)
        (λ result. ok (with_answer m (rr_txt (answer_header q type_txt) (result ∷ []))))

  unfoldable pub handle_srv : Option UpstreamDns → Resolver → Msg Ip → Question → Outcome (Msg Ip)
  handle_srv parent storage m q = or_parent parent m q (storage q.name domain_type_srv) (λ result.
      lib.unmarshal_srv result >>= λ srv. ok (
        with_answer m (
          rr_srv (answer_header q type_srv) srv.priority srv.weight srv.port
            (lib.fqdn srv.target))))

  abbrev pub check_if_a_record_exists : Outcome Text → Outcome Bool
  check_if_a_record_exists (ok result) = ok true
  check_if_a_record_exists (err e) = ok false
  check_if_a_record_exists panic = panic

  -- An A record of the name, where there is no AAAA record, ends the search.
  abbrev pub missing_aaaa :
      Option UpstreamDns → Resolver → Msg Ip → Question → Outcome Text → Outcome (Msg Ip)
  missing_aaaa parent storage m q (err storage_not_found) =
      and_then (check_if_a_record_exists (storage q.name domain_type_a)) (λ exists_a.
        if exists_a then ok (not_found_upstream lib false m q) else handle_parent parent m q)
  missing_aaaa parent storage m q (err e) = err e
  missing_aaaa parent storage m q panic = panic
  missing_aaaa parent storage m q (ok result) =
      ok (with_answer m (rr_aaaa (answer_header q type_aaaa) (lib.parse_ip result)))

  unfoldable pub handle_aaaa : Option UpstreamDns → Resolver → Msg Ip → Question → Outcome (Msg Ip)
  handle_aaaa parent storage m q = missing_aaaa parent storage m q (storage q.name domain_type_aaaa)
