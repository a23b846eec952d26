-- ===== src/MemStore/Resolve.antt =====
-- What a client of ResolveDomain in storage.mem.go sees.
use nekoq_bootstrap.Base.{
  Error, List, Outcome-cases, Text, [], arith, err, if◌then◌else◌, inl, inr, nat_key, ok, refl,
  storage_not_found, text_key, ℕ, ◌&&◌, ◌==◌, ◌∷◌, ◌≡◌, ◌≢◌,
}
use nekoq_bootstrap.Base.Maps.{insert, lookup, lookup-insert}
use nekoq_bootstrap.MemStore.Domains.{
  domain_type_key, lower, put_domain, resolve_domain, resolve_nested, resolve_static, static_sub,
  to_lower,
}
use nekoq_bootstrap.MemStore.Model.{DomainType, MemStore, Resolver}
use nekoq_bootstrap.MemStore.Services.{found}

lower_idem : (c : ℕ) → lower (lower c) ≡ lower c
unfolding lower
lower_idem c = ground arith

pub to_lower_idem : (s : Text) → to_lower (to_lower s) ≡ to_lower s
unfolding to_lower
to_lower_idem [] = refl
to_lower_idem (c ∷ s) = cc (lower_idem c, to_lower_idem s)

module _ (fqdn : Text → Text) (m : MemStore) (domain resolve : Text) (put_kind : DomainType) where
  -- The static rules after a PutDomain, at every name and kind.
  resolve_static-put_domain :
      (name : Text) (kind : DomainType)
      → resolve_static (put_domain fqdn m domain resolve put_kind) name kind ≡ (
          if put_kind == kind && fqdn (to_lower domain) == name
          then ok resolve
          else resolve_static m name kind)
  unfolding resolve_static put_domain lookup
  resolve_static-put_domain name kind = ground (
    arith,
    domain_type_key.same_iff put_kind kind,
    lookup-insert put_kind kind (insert (fqdn (to_lower domain)) resolve (static_sub m put_kind))
        m.static_domain_mapping,
    lookup-insert (fqdn (to_lower domain)) name resolve (static_sub m put_kind),
  )

  same_stores-put_domain : (put_domain fqdn m domain resolve put_kind).dns_stores ≡ m.dns_stores
  unfolding put_domain
  same_stores-put_domain = refl

  -- After a PutDomain, ResolveDomain gives the new record to exactly the names that are equal, but
  -- for case, to the fully qualified domain, at the kind of the record, whatever the nested stores
  -- answer; every other question has the answer that it had.
  pub resolve_domain-put_domain :
      (name : Text) (kind : DomainType)
      → resolve_domain (put_domain fqdn m domain resolve put_kind) name kind ≡ (
          if put_kind == kind && fqdn (to_lower domain) == to_lower name
          then ok resolve
          else resolve_domain m name kind)
  unfolding resolve_domain
  resolve_domain-put_domain name kind =
      rw (resolve_static-put_domain (to_lower name) kind, same_stores-put_domain) (ground arith)

-- Nobody in the list has an answer.
abbrev pub NoneAnswers : List Resolver → Text → DomainType → Type 0
NoneAnswers [] domain kind = Unit {0}
NoneAnswers (store ∷ rest) domain kind =
    ((val : Text) → store domain kind ≢ ok val) × NoneAnswers rest domain kind

resolve_nested-err :
    (stores : List Resolver) (domain : Text) (kind : DomainType) (e : Error)
    → resolve_nested stores domain kind ≡ err e
    → (e ≡ storage_not_found) × NoneAnswers stores domain kind
unfolding resolve_nested
resolve_nested-err [] domain kind e h = (ground arith, tt)
resolve_nested-err (store ∷ rest) domain kind e h = elim (Outcome-cases (store domain kind)) [
  | inl (val, q) ↦ absurd (ground arith)
  | inr (inl (x, q)) ↦
      let (found, others) = resolve_nested-err rest domain kind e (ground arith) in
      (found, ((λ val k. cc), others))
  | inr (inr q) ↦ absurd (ground arith)
]

resolve_static-err :
    (m : MemStore) (domain : Text) (kind : DomainType) (e : Error)
    → resolve_static m domain kind ≡ err e
    → e ≡ storage_not_found
unfolding resolve_static
resolve_static-err m domain kind e h = ground arith

-- An error of ResolveDomain is always `ErrStorageNotFound`, and then neither the static rules nor any
-- nested store has an answer to the lower-cased name.
pub resolve_domain-err :
    (m : MemStore) (domain : Text) (kind : DomainType) (e : Error)
    → resolve_domain m domain kind ≡ err e
    → (e ≡ storage_not_found)
      × ((val : Text) → resolve_static m (to_lower domain) kind ≢ ok val)
      × NoneAnswers m.dns_stores (to_lower domain) kind
unfolding resolve_domain
resolve_domain-err m domain kind e h =
    elim (Outcome-cases (resolve_static m (to_lower domain) kind)) [
      | inl (val, q) ↦ absurd (ground arith)
      | inr (inl (x, q)) ↦
          let missing = resolve_static-err m (to_lower domain) kind x q in
          let (found, others) =
            resolve_nested-err m.dns_stores (to_lower domain) kind e (ground arith) in
          (found, (λ val k. cc), others)
      | inr (inr q) ↦ absurd (ground arith)
    ]
