-- ===== src/MemStore/Domains.antt =====
-- PutDomain, ResolveDomain and NewMemStore of storage.mem.go. Domain names are ASCII, as on the
-- wire; `fqdn` is `dns.Fqdn` of github.com/miekg/dns.
use nekoq_bootstrap.Base.{
  Key, List, Outcome, Text, [], arith, err, if◌then◌else◌, leb, map, nat_key, nat_same, none, ok,
  panic, some, storage_not_found, text_key, true, ℕ, ◌&&◌, ◌+◌, ◌↔◌, ◌∷◌, ◌≡◌,
}
use nekoq_bootstrap.Base.Maps.{Map, insert, lookup}
use nekoq_bootstrap.MemStore.Model.{
  DomainType, MemStore, Resolver, domain_type_a, domain_type_aaaa, domain_type_ptr, domain_type_srv,
  domain_type_txt,
}

abbrev pub domain_type_code : DomainType → ℕ
domain_type_code domain_type_a = 1
domain_type_code domain_type_txt = 2
domain_type_code domain_type_srv = 3
domain_type_code domain_type_ptr = 4
domain_type_code domain_type_aaaa = 5

pub domain_type_same_iff :
    (a b : DomainType) → ((nat_same (domain_type_code a) (domain_type_code b)) ≡ true) ↔ (a ≡ b)
domain_type_same_iff a b = ground arith

instance abbrev pub domain_type_key : Key DomainType
domain_type_key = record {
  same = λ a b. nat_same (domain_type_code a) (domain_type_code b);
  same_iff = domain_type_same_iff;
}

unfoldable pub lower : ℕ → ℕ
lower c = if leb b'A' c && leb c b'Z' then c + 32 else c

-- strings.ToLower
unfoldable pub to_lower : Text → Text
unfolding lower
to_lower = map lower

unfoldable pub new_mem_store : List Resolver → MemStore
new_mem_store nested = record {
  static_domain_mapping = [];
  services = [];
  current_services = [];
  data_from = [];
  data_to = [];
  dns_stores = nested;
}

-- sub, ok := m.staticDomainMapping[kind]; if !ok { sub = map…{} }
abbrev pub static_sub : MemStore → DomainType → Map Text Text
static_sub m kind = elim (lookup kind m.static_domain_mapping) [ none ↦ [] | some sub ↦ sub ]

unfoldable pub put_domain : (Text → Text) → MemStore → Text → Text → DomainType → MemStore
put_domain fqdn m domain resolve kind = record m {
  static_domain_mapping =
      insert kind (insert (fqdn (to_lower domain)) resolve (static_sub m kind))
        m.static_domain_mapping;
}

-- The closure `f` of ResolveDomain: the static rules.
unfoldable pub resolve_static : MemStore → Text → DomainType → Outcome Text
resolve_static m domain kind = elim (lookup kind m.static_domain_mapping) [
  | none ↦ err storage_not_found
  | some sub ↦ elim (lookup domain sub) [ none ↦ err storage_not_found | some r ↦ ok r ]
]

-- Its loop over the nested stores: an error of any kind moves on to the next.
unfoldable pub resolve_nested : List Resolver → Text → DomainType → Outcome Text
resolve_nested [] domain kind = err storage_not_found
resolve_nested (store ∷ rest) domain kind = elim (store domain kind) [
  | ok val ↦ ok val
  | err e ↦ resolve_nested rest domain kind
  | panic ↦ panic
]

abbrev pub or_nested : Outcome Text → Outcome Text → Outcome Text
or_nested (ok val) nested = ok val
or_nested (err storage_not_found) nested = nested
or_nested (err e) nested = err e
or_nested panic nested = panic

unfoldable pub resolve_domain : MemStore → Text → DomainType → Outcome Text
unfolding to_lower
resolve_domain m domain kind =
    let domain' = to_lower domain in
    or_nested (resolve_static m domain' kind) (resolve_nested m.dns_stores domain' kind)
