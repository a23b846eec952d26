-- ===== src/Start/Rules.antt =====
-- The static rules of the configuration (cmd/nekoq-bootstrap/main.go), as the name server that is
-- started with them answers.
use nekoq_bootstrap.Base.{
  Bool-cases, IfOk, IfOk-bind, Option, Option-cases, Outcome, Text, [], ap, arith, codes, err,
  external, false, if◌then◌else◌, inl, inr, nat_key, none, ok, panic, refl, some, subst, sym,
  text_key, ◌==◌, ◌∙◌, ◌∷◌, ◌≡◌,
}
use nekoq_bootstrap.Base.Maps.{Map}
use nekoq_bootstrap.Dns.Dynamic.{ParsedIp, add_ip_reverse_dns_to_storage, ptr_name}
use nekoq_bootstrap.Dns.DynamicRecords.{from_ip_address_to_ptr_fqdn-some, qualified, rule_by}
use nekoq_bootstrap.Dns.DynamicStore.{ConfigClient}
use nekoq_bootstrap.Dns.Message.{DnsLib}
use nekoq_bootstrap.MemStore.Domains.{domain_type_key, put_domain, resolve_domain, to_lower}
use nekoq_bootstrap.MemStore.Model.{
  DomainType, MemStore, domain_type_a, domain_type_ptr, domain_type_srv, domain_type_txt,
}
use nekoq_bootstrap.MemStore.Resolve.{resolve_domain-put_domain}
use nekoq_bootstrap.Start.Boot.{Config, must, put_ptr_rules, put_rules, static_rules}

-- The store answers `v`.
abbrev Answers : Text → DomainType → Outcome Text → MemStore → Type 0
Answers name asked v m = resolve_domain m name asked ≡ v

IfOk-must {ℓ κ} : {A : Type ℓ} (P : A → Type κ) (o : Outcome A) → IfOk P o → IfOk P (must o)
IfOk-must P (ok a) h = h
IfOk-must P (err e) h = tt
IfOk-must P panic h = tt

module _ {Ip : Type 0} (lib : DnsLib Ip) (parse_ip : Text → Option ParsedIp)
    (parse_address : Text → Outcome Text) {C : Type 0} (api : ConfigClient C) where
  put_rules-resolve :
      (kind asked : DomainType) (rules : Map Text Text) (m : MemStore) (name : Text)
      → resolve_domain (put_rules lib parse_ip parse_address api kind rules m) name asked ≡ (
          if kind == asked
          then rule_by
              (qualified lib.fqdn parse_ip)
              (λ w. w)
              rules
              (to_lower name)
              (resolve_domain m name asked)
          else resolve_domain m name asked)
  unfolding put_rules
  put_rules-resolve kind asked [] m name = ground arith
  put_rules-resolve kind asked ((k, v) ∷ rules) m name =
      let ih = put_rules-resolve kind asked rules (put_domain lib.fqdn m k v kind) name in
      let one = resolve_domain-put_domain lib.fqdn m k v kind name asked in
      elim (Bool-cases (kind == asked)) [
        | inl e ↦
            ih
            ∙ rw e (
                ap (rule_by (qualified lib.fqdn parse_ip) (λ w. w) rules (to_lower name))
                  (one ∙ rw e refl))
        | inr e ↦ ih ∙ rw e (one ∙ rw e refl)
      ]

  add_ip_reverse_dns_to_storage-some :
      (m : MemStore) (ip domain : Text) (parsed : ParsedIp)
      → parse_ip ip ≡ some parsed
      → add_ip_reverse_dns_to_storage lib.fqdn parse_ip m ip domain
        ≡ ok (
            put_domain lib.fqdn m
              (lib.fqdn (ptr_name parsed))
              (lib.fqdn (to_lower domain))
              domain_type_ptr)
  unfolding add_ip_reverse_dns_to_storage
  add_ip_reverse_dns_to_storage-some m ip domain parsed x =
      rw (add_ip_reverse_dns_to_storage, x)
        (rw (from_ip_address_to_ptr_fqdn-some lib.fqdn parse_ip ip parsed x) refl)

  add_ip_reverse_dns_to_storage-none :
      (m : MemStore) (ip domain : Text)
      → parse_ip ip ≡ none
      → add_ip_reverse_dns_to_storage lib.fqdn parse_ip m ip domain
        ≡ err (external (codes "invalid IP address"))
  unfolding add_ip_reverse_dns_to_storage
  add_ip_reverse_dns_to_storage-none m ip domain x = rw (add_ip_reverse_dns_to_storage, x) refl

  add_ip_reverse_dns_to_storage-Answers :
      (m : MemStore) (ip domain name : Text) (asked : DomainType) (v : Outcome Text)
      → (domain_type_ptr == asked) ≡ false
      → resolve_domain m name asked ≡ v
      → IfOk (Answers name asked v) (add_ip_reverse_dns_to_storage lib.fqdn parse_ip m ip domain)
  add_ip_reverse_dns_to_storage-Answers m ip domain name asked v e h =
      elim (Option-cases (parse_ip ip)) [
        | inl x ↦
            subst (IfOk (Answers name asked v))
              (sym (add_ip_reverse_dns_to_storage-none m ip domain x)) tt
        | inr (parsed, x) ↦
            subst (IfOk (Answers name asked v))
              (sym (add_ip_reverse_dns_to_storage-some m ip domain parsed x))
              (resolve_domain-put_domain lib.fqdn m (lib.fqdn (ptr_name parsed))
                  (lib.fqdn (to_lower domain)) domain_type_ptr name asked
                ∙ rw e h)
      ]

  -- The rules of reverse names leave the other kinds alone.
  put_ptr_rules-Answers :
      (rules : Map Text Text) (m : MemStore) (name : Text) (asked : DomainType) (v : Outcome Text)
      → (domain_type_ptr == asked) ≡ false
      → resolve_domain m name asked ≡ v
      → IfOk (Answers name asked v) (put_ptr_rules lib parse_ip parse_address api rules m)
  unfolding put_ptr_rules
  put_ptr_rules-Answers [] m name asked v e h = h
  put_ptr_rules-Answers ((ip, domain) ∷ rules) m name asked v e h =
      IfOk-bind (Answers name asked v) (Answers name asked v)
        (must (add_ip_reverse_dns_to_storage lib.fqdn parse_ip m ip domain)) _
        (IfOk-must (Answers name asked v)
          (add_ip_reverse_dns_to_storage lib.fqdn parse_ip m ip domain)
          (add_ip_reverse_dns_to_storage-Answers m ip domain name asked v e h))
        (λ m'. put_ptr_rules-Answers rules m' name asked v e)

  -- The rules of type A decide over the store they are added to.
  pub static_rules-IfOk :
      (c : Config) (m : MemStore) (name : Text)
      → IfOk
          (λ m'.
            resolve_domain m' name domain_type_a
            ≡ rule_by
                (qualified lib.fqdn parse_ip)
                (λ w. w)
                c.rules_a
                (to_lower name)
                (resolve_domain m name domain_type_a))
          (static_rules lib parse_ip parse_address api c m)
  unfolding static_rules
  static_rules-IfOk c m name = put_ptr_rules-Answers c.rules_ptr _ name domain_type_a _ refl (
      put_rules-resolve domain_type_srv domain_type_a c.rules_srv _ name
      ∙ put_rules-resolve domain_type_txt domain_type_a c.rules_txt _ name
      ∙ put_rules-resolve domain_type_a domain_type_a c.rules_a m name)
