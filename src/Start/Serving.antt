-- ===== src/Start/Serving.antt =====
-- What the program answers once it is started (cmd/nekoq-bootstrap/main.go, with storage.mem.go and
-- internal/dnscore/service.standard.go).
use nekoq_bootstrap.Base.{
  Bool-cases, IfOk, IfOk-after, IfOk-bind, IfOk-ok, List, Option, Outcome, Text, [], ap, codes, inl,
  inr, nat_key, none, ok, refl, some, subst, text_key, ℕ, ◌==◌, ◌∙◌, ◌∷◌, ◌≡◌,
}
use nekoq_bootstrap.Base.Maps.{lookup}
use nekoq_bootstrap.Dns.Cache.{cache_get}
use nekoq_bootstrap.Dns.Dynamic.{ParsedIp}
use nekoq_bootstrap.Dns.DynamicRecords.{qualified, rule_by}
use nekoq_bootstrap.Dns.DynamicStore.{ConfigClient}
use nekoq_bootstrap.Dns.Handlers.{answer_header, with_answer}
use nekoq_bootstrap.Dns.Message.{DnsLib, Msg, Question, rr_a, type_a}
use nekoq_bootstrap.Dns.Server.{DnsEndpoint, new_dns_endpoint, serve_dns}
use nekoq_bootstrap.Dns.Serving.{serve_dns-resolved}
use nekoq_bootstrap.MemStore.Domains.{
  new_mem_store, resolve_domain, resolve_nested, resolve_static, to_lower,
}
use nekoq_bootstrap.MemStore.Model.{MemStore, Resolver, domain_type_a}
use nekoq_bootstrap.MemStore.Services.{found}
use nekoq_bootstrap.Start.Boot.{
  Config, Program, boot, dns_stores_of, must, start_dns, static_rules, storage_of,
}
use nekoq_bootstrap.Start.Rules.{static_rules-IfOk}

module _ {Ip : Type 0} (lib : DnsLib Ip) (parse_ip : Text → Option ParsedIp)
    (parse_address : Text → Outcome Text) {C : Type 0} (api : ConfigClient C) where
  -- The server, if there is one, resolves by the rules and has nothing cached.
  abbrev Resolves : Text → Outcome Text → Option (DnsEndpoint Ip) → Type 0
  Resolves name v none = Unit
  Resolves name v (some d) = (d.storage name domain_type_a ≡ v) × (d.cache ≡ [])

  start_dns-Resolves :
      (c : Config) (m : MemStore) (name : Text)
      → IfOk
          (λ started.
            Resolves name
              (rule_by
                (qualified lib.fqdn parse_ip)
                (λ w. w)
                c.rules_a
                (to_lower name)
                (resolve_domain m name domain_type_a))
              started.1)
          (start_dns lib parse_ip parse_address api c m)
  unfolding start_dns new_dns_endpoint static_rules
  start_dns-Resolves c m name = elim (Bool-cases c.dns_enable) [
    | inl e ↦
        rw (start_dns, e)
          (IfOk-bind
            (λ m'.
              resolve_domain m' name domain_type_a
              ≡ rule_by (qualified lib.fqdn parse_ip) (λ w. w) c.rules_a (to_lower name)
                  (resolve_domain m name domain_type_a))
            _ (static_rules lib parse_ip parse_address api c m) _
            (static_rules-IfOk lib parse_ip parse_address api c m name)
            (λ m' r. IfOk-after _ (must (parse_address c.dns_address)) _ (λ host.
              IfOk-after _ (must (parse_address c.dns_http_address)) _ (λ http_host. (r, refl)))))
    | inr e ↦ rw (start_dns, e) tt
  ]

  resolve_domain-new_mem_store :
      (stores : List Resolver) (name : Text)
      → resolve_domain (new_mem_store stores) name domain_type_a
        ≡ resolve_nested stores (to_lower name) domain_type_a
  unfolding resolve_domain new_mem_store resolve_static lookup
  resolve_domain-new_mem_store stores name = refl

  storage_of-mem :
      (provider : Text) (stores : List Resolver)
      → IfOk
          (λ m. m ≡ new_mem_store stores)
          (storage_of lib parse_ip parse_address api provider stores)
  unfolding storage_of
  storage_of-mem provider stores = elim (Bool-cases (provider == codes "mem")) [
    | inl e ↦ rw (storage_of, e) refl
    | inr e ↦ rw (storage_of, e) tt
  ]

  boot-Resolves :
      (c : Config) (stores : List Resolver) (name : Text)
      → dns_stores_of lib parse_ip parse_address api c.dyn_servers ≡ ok stores
      → IfOk
          (λ prog.
            Resolves name
              (rule_by
                (qualified lib.fqdn parse_ip)
                (λ w. w)
                c.rules_a
                (to_lower name)
                (resolve_nested stores (to_lower name) domain_type_a))
              prog.dns)
          (boot lib parse_ip parse_address api c)
  unfolding boot
  boot-Resolves c stores name h =
      rw (boot, h)
        (IfOk-bind (λ m. m ≡ new_mem_store stores) _
          (storage_of lib parse_ip parse_address api c.storage_provider stores) _
          (storage_of-mem c.storage_provider stores)
          (λ m new.
            IfOk-bind
              (λ started.
                Resolves name
                  (rule_by (qualified lib.fqdn parse_ip) (λ w. w) c.rules_a (to_lower name)
                    (resolve_domain m name domain_type_a))
                  started.1)
              _ (start_dns lib parse_ip parse_address api c m) _ (start_dns-Resolves c m name)
              (λ started r. IfOk-after _ (must (parse_address c.http_listener)) _ (λ host.
                subst
                  (λ v.
                    Resolves name
                      (rule_by (qualified lib.fqdn parse_ip) (λ w. w) c.rules_a (to_lower name) v)
                      started.1)
                  (ap (λ m'. resolve_domain m' name domain_type_a) new
                    ∙ resolve_domain-new_mem_store stores name)
                  r))))

  cache_get-empty : (r : Msg Ip) (q : Question) (now : ℕ) → cache_get lib [] r q now ≡ none
  unfolding cache_get lookup
  cache_get-empty r q now = refl

  -- A program that has started, with the name server enabled, answers a request with one question of
  -- type A with the address that the rules of type A configure for the name (the last one visited, where
  -- several are equal but for case), and where there is none with the answer of the dynamic records.
  pub boot-serves :
      (c : Config) (stores : List Resolver) (prog : Program Ip) (d : DnsEndpoint Ip) (q : Question)
      (r : Msg Ip) (now : ℕ) (v : Text)
      → dns_stores_of lib parse_ip parse_address api c.dyn_servers ≡ ok stores
      → boot lib parse_ip parse_address api c ≡ ok prog
      → prog.dns ≡ some d
      → q.qtype ≡ type_a
      → r.question ≡ q ∷ []
      → rule_by
          (qualified lib.fqdn parse_ip)
          (λ w. w)
          c.rules_a
          (to_lower q.name)
          (resolve_nested stores (to_lower q.name) domain_type_a)
        ≡ ok v
      → (serve_dns lib d r now).1
        ≡ some (with_answer lib r (rr_a (answer_header lib q type_a) (lib.parse_ip v)))
  boot-serves c stores prog d q r now v hs started hd t one found =
      let known = subst (Resolves q.name _) hd (
        IfOk-ok _ prog (boot lib parse_ip parse_address api c) (boot-Resolves c stores q.name hs)
          started) in
      serve_dns-resolved lib v q r d now t one (known.0 ∙ found)
        (ap (λ cache. cache_get lib cache r q now) known.1 ∙ cache_get-empty r q now)
