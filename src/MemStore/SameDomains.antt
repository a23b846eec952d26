-- ===== src/MemStore/SameDomains.antt =====
-- Taking data of peers leaves the domains of a store alone (storage.mem.go).
use nekoq_bootstrap.Base.{
  IfOk, IfOk-after, IfOk-ok, List, Outcome, Text, ap, arith, err, nat_key, no_add_data_found,
  no_data_found, no_del_data_found, node_not_exist, none, ok, refl, some, storage_not_found,
  text_key, ◌∙◌, ◌≡◌,
}
use nekoq_bootstrap.Base.Maps.{Map, insert, lookup}
use nekoq_bootstrap.MemStore.Domains.{
  domain_type_key, or_nested, resolve_domain, resolve_nested, resolve_static, to_lower,
}
use nekoq_bootstrap.MemStore.Model.{DomainType, Json, MemNodeData, MemStore, Resolver}
use nekoq_bootstrap.MemStore.Peers.{
  abandon, build_mem_data, default_data_key, full_from, json_error, or_fail, sync_add, sync_delete,
  sync_from,
}

abbrev pub SameDomains : MemStore → MemStore → Type 0
SameDomains m m' =
    (m'.static_domain_mapping ≡ m.static_domain_mapping) × (m'.dns_stores ≡ m.dns_stores)

pub SameDomains-trans :
    (m m' m'' : MemStore) → SameDomains m m' → SameDomains m' m'' → SameDomains m m''
SameDomains-trans m m' m'' (a, b) (c, d) = (c ∙ a, d ∙ b)

-- A resolution looks at nothing else.
pub resolve_domain-SameDomains :
    (m m' : MemStore) (domain : Text) (kind : DomainType)
    → SameDomains m m'
    → resolve_domain m' domain kind ≡ resolve_domain m domain kind
unfolding resolve_domain resolve_static
resolve_domain-SameDomains m m' domain kind (s, n) =
    ap
      (λ (static : Map DomainType (Map Text Text)).
        or_nested
          (elim (lookup kind static) [
            | none ↦ err storage_not_found
            | some sub ↦ elim (lookup (to_lower domain) sub) [
              | none ↦ err storage_not_found
              | some r ↦ ok r
            ]
          ])
          (resolve_nested m'.dns_stores (to_lower domain) kind))
      s
    ∙ ap
        (λ (stores : List Resolver).
          or_nested (resolve_static m (to_lower domain) kind)
            (resolve_nested stores (to_lower domain) kind))
        n

pub abandon-SameDomains : (m : MemStore) (node : Text) → SameDomains m (abandon m node)
unfolding abandon build_mem_data
abandon-SameDomains m node = ground arith

abbrev Keeps : MemStore → Outcome MemStore → Type 0
Keeps m = IfOk (SameDomains m)

Keeps-built :
    (m : MemStore) (from : Map Text MemNodeData)
    → Keeps m (ok (build_mem_data (record m { data_from = from })))
unfolding build_mem_data
Keeps-built m from = (refl, refl)

module _ {B : Type 0} (json : Json B) (m m' : MemStore) (node : Text) where
  pub full_from-SameDomains :
      (payload : Map Text B) → full_from json m node payload ≡ ok m' → SameDomains m m'
  unfolding full_from
  full_from-SameDomains payload e =
      IfOk-ok (SameDomains m) m' (full_from json m node payload)
        (IfOk-after (SameDomains m) (or_fail (lookup default_data_key payload) no_data_found) _
          (λ dat.
            IfOk-after (SameDomains m) (or_fail (json.unmarshal_node_data dat) json_error) _
              (λ d. Keeps-built m (insert node d m.data_from))))
        e

  pub sync_from-SameDomains :
      (orig : Text) (add del : Map Text B)
      → sync_from json m node orig add del ≡ ok m'
      → SameDomains m m'
  unfolding sync_from
  sync_from-SameDomains orig add del e =
      IfOk-ok (SameDomains m) m' (sync_from json m node orig add del)
        (IfOk-after (SameDomains m) (or_fail (lookup default_data_key add) no_add_data_found) _
          (λ ad.
            IfOk-after (SameDomains m) (or_fail (json.unmarshal_list ad) json_error) _ (λ adata.
              IfOk-after (SameDomains m) (or_fail (lookup default_data_key del) no_del_data_found) _
                (λ dd.
                  IfOk-after (SameDomains m) (or_fail (json.unmarshal_list dd) json_error) _
                    (λ ddata.
                      IfOk-after (SameDomains m) (or_fail (lookup node m.data_from) node_not_exist)
                        _
                        (λ mapping.
                          IfOk-after (SameDomains m)
                            (sync_add adata (sync_delete ddata mapping.service_mapping)) _
                            (λ mapping'. Keeps-built m (
                              insert node (record { service_mapping = mapping' })
                                m.data_from))))))))
        e
