-- ===== src/Dns/Serving.antt =====
-- A static record, from MemStore.PutDomain (storage.mem.go) to the reply of the name server
-- (internal/dnscore/service.standard.go).
use nekoq_bootstrap.Base.{
  ==_refl, Bool-cases, List, Option, Outcome, Text, [], ap, if◌then◌else◌, inl, inr, nat_key,
  nat_same, none, ok, refl, some, text_key, true, ℕ, ◌&&◌, ◌==◌, ◌∙◌, ◌∷◌, ◌≡◌,
}
use nekoq_bootstrap.Dns.Cache.{cache_get}
use nekoq_bootstrap.Dns.Handlers.{answer_header, handle_a, or_parent, with_answer}
use nekoq_bootstrap.Dns.Message.{DnsLib, Msg, Question, opcode_query, rr_a, type_a}
use nekoq_bootstrap.Dns.Server.{
  DnsEndpoint, answer_question, first_question, handled, handler_of, has_many, process_dns_msg,
  resolve_question, serve_dns, written,
}
use nekoq_bootstrap.MemStore.Domains.{put_domain, resolve_domain, to_lower}
use nekoq_bootstrap.MemStore.Model.{MemStore, Resolver, domain_type_a}
use nekoq_bootstrap.MemStore.Resolve.{resolve_domain-put_domain}

module _ {Ip : Type 0} (lib : DnsLib Ip) where
  one_question :
      (d : DnsEndpoint Ip) (r : Msg Ip) (q : Question) (now : ℕ) (qs : List Question)
      → qs ≡ q ∷ []
      → (if nat_same r.opcode opcode_query && has_many lib qs
          then (d, ok (some (lib.set_rcode_format_error r)))
          else first_question lib d r qs now)
        ≡ answer_question lib d r q now
  one_question d r q now qs e = elim (Bool-cases (nat_same r.opcode opcode_query)) [
    | inl x ↦ rw (e, x) refl
    | inr x ↦ rw (e, x) refl
  ]

  answer_question-a :
      (d : DnsEndpoint Ip) (r : Msg Ip) (q : Question) (now : ℕ)
      → q.qtype ≡ type_a
      → cache_get lib d.cache r q now ≡ none
      → answer_question lib d r q now ≡ handled lib d q now (handle_a lib d.parent d.storage r q)
  unfolding answer_question resolve_question handler_of
  answer_question-a d r q now t miss =
      let known : handler_of lib q.qtype ≡ some (handle_a lib) = ap (handler_of lib) t in
      rw (answer_question, miss) (rw (resolve_question, known) refl)

  -- A question of type A whose name the store resolves is answered with the address.
  pub serve_dns-resolved :
      (resolve : Text) (q : Question) (r : Msg Ip) (d : DnsEndpoint Ip) (now : ℕ)
      → q.qtype ≡ type_a
      → r.question ≡ q ∷ []
      → d.storage q.name domain_type_a ≡ ok resolve
      → cache_get lib d.cache r q now ≡ none
      → (serve_dns lib d r now).1
        ≡ some (with_answer lib r (rr_a (answer_header lib q type_a) (lib.parse_ip resolve)))
  unfolding serve_dns process_dns_msg answer_question resolve_question handler_of handle_a or_parent
  serve_dns-resolved resolve q r d now t one stored miss =
      let whole = one_question d r q now r.question one ∙ answer_question-a d r q now t miss in
      ap (λ (p : DnsEndpoint Ip × Outcome (Option (Msg Ip))). written lib p.1) whole
      ∙ rw stored refl

  -- A request with one question, of type A, for a name that is equal but for case to the qualified
  -- domain of a record that was put last, is answered with the address of the record, where the
  -- server asks that store and has nothing cached for the question.
  pub serve_dns-put_domain :
      (m : MemStore) (domain resolve : Text) (q : Question) (r : Msg Ip) (d : DnsEndpoint Ip)
      (now : ℕ)
      → q.qtype ≡ type_a
      → r.question ≡ q ∷ []
      → to_lower q.name ≡ lib.fqdn (to_lower domain)
      → d.storage ≡ resolve_domain (put_domain lib.fqdn m domain resolve domain_type_a)
      → cache_get lib d.cache r q now ≡ none
      → (serve_dns lib d r now).1
        ≡ some (with_answer lib r (rr_a (answer_header lib q type_a) (lib.parse_ip resolve)))
  serve_dns-put_domain m domain resolve q r d now t one same s miss =
      let own : (lib.fqdn (to_lower domain) == lib.fqdn (to_lower domain)) ≡ true =
        ==_refl (lib.fqdn (to_lower domain)) in
      let stored : d.storage q.name domain_type_a ≡ ok resolve =
        ap (λ (f : Resolver). f q.name domain_type_a) s
        ∙ resolve_domain-put_domain lib.fqdn m domain resolve domain_type_a q.name domain_type_a
        ∙ rw (same, own) refl in
      serve_dns-resolved resolve q r d now t one stored miss
