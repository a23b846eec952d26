-- ===== src/Dns/Enclosing.antt =====
-- Which questions the upstream handler (internal/dnscore/upstream.go) keeps from the upstream server.
use nekoq_bootstrap.Base.{
  Bool, Bool-cases, List, Option, Option-cases, Text, [], arith, codes, false, if◌then◌else◌, inl,
  inr, nat_key, none, not, refl, same-eq, some, text_key, ℕ, ◌&&◌, ◌++◌, ◌==◌, ◌||◌, ◌∷◌, ◌≡◌,
}
use nekoq_bootstrap.Base.Maps.{lookup, lookup-insert}
use nekoq_bootstrap.Dns.Message.{DnsLib}
use nekoq_bootstrap.Dns.Upstream.{
  EnclosureDomain, Enclosures, any_suffix, append_to, domain_map, encloses, enclosure_key,
  has_suffix, is_enclosed, new_upstream_dns, starts_with_dot, suffix_map,
}

abbrev listed : Text → Enclosures → List Text
listed key m = elim (lookup key m) [ none ↦ [] | some vs ↦ vs ]

any_suffix-append :
    (domain : Text) (xs ys : List Text)
    → any_suffix domain (xs ++ ys) ≡ (any_suffix domain xs || any_suffix domain ys)
unfolding any_suffix
any_suffix-append domain [] ys = refl
any_suffix-append domain (x ∷ xs) ys = rw (any_suffix-append domain xs ys) (ground arith)

any_suffix-listed :
    (domain v : Text) (o : Option (List Text))
    → (any_suffix domain (elim o [ none ↦ [] | some vs ↦ vs ]) || (has_suffix domain v || false))
      ≡ (encloses domain o || has_suffix domain v)
unfolding any_suffix
any_suffix-listed domain v none = ground arith
any_suffix-listed domain v (some vs) = ground arith

encloses-append_to :
    (domain key k v : Text) (m : Enclosures)
    → encloses domain (lookup key (append_to k v m))
      ≡ (encloses domain (lookup key m) || (k == key && has_suffix domain v))
unfolding append_to any_suffix
encloses-append_to domain key k v m =
    rw (lookup-insert k key (listed k m ++ v ∷ []) m) (elim (Bool-cases (k == key)) [
      | inl e ↦
          let same : k ≡ key = same-eq k key e in
          rw e (
            rw (any_suffix-append domain (listed k m) (v ∷ []))
              (rw same (any_suffix-listed domain v (lookup key m))))
      | inr e ↦ rw e (ground arith)
    ])

module _ {Ip : Type 0} (lib : DnsLib Ip) where
  -- A domain below the suffix.
  abbrev pub is_below : Text → EnclosureDomain → Bool
  is_below domain v =
      has_suffix domain
        (lib.fqdn (if starts_with_dot v.suffix then v.suffix else codes "." ++ v.suffix))

  -- The domain of the suffix itself, or one that merely ends with it.
  abbrev pub is_at : Text → EnclosureDomain → Bool
  is_at domain v = not (has_suffix v.suffix (codes ".")) && has_suffix domain (lib.fqdn v.suffix)

  -- A rule for this type of question that takes the domain.
  unfoldable pub some_rule : (EnclosureDomain → Bool) → Text → List EnclosureDomain → Bool
  some_rule takes key [] = false
  some_rule takes key (v ∷ vs) = (v.kind == key && takes v) || some_rule takes key vs

  encloses-suffix_map :
      (domain key : Text) (vs : List EnclosureDomain) (m : Enclosures)
      → encloses domain (lookup key (suffix_map lib vs m))
        ≡ (encloses domain (lookup key m) || some_rule (is_below domain) key vs)
  unfolding suffix_map some_rule
  encloses-suffix_map domain key [] m = ground arith
  encloses-suffix_map domain key (v ∷ vs) m =
      let suffix = if starts_with_dot v.suffix then v.suffix else codes "." ++ v.suffix in
      rw (encloses-suffix_map domain key vs (append_to v.kind (lib.fqdn suffix) m))
        (rw (encloses-append_to domain key v.kind (lib.fqdn suffix) m) (ground arith))

  encloses-domain_map :
      (domain key : Text) (vs : List EnclosureDomain) (m : Enclosures)
      → encloses domain (lookup key (domain_map lib vs m))
        ≡ (encloses domain (lookup key m) || some_rule (is_at domain) key vs)
  unfolding domain_map some_rule
  encloses-domain_map domain key [] m = ground arith
  encloses-domain_map domain key (v ∷ vs) m = elim (Bool-cases (has_suffix v.suffix (codes "."))) [
    | inl e ↦ rw e (rw (encloses-domain_map domain key vs m) (ground arith))
    | inr e ↦ rw e (
        rw (encloses-domain_map domain key vs (append_to v.kind (lib.fqdn v.suffix) m))
          (rw (encloses-append_to domain key v.kind (lib.fqdn v.suffix) m) (ground arith)))
  ]

  -- The upstream handler answers a question itself exactly where the configuration, read in order, has
  -- a rule for its type of question whose suffix the domain ends with: with a dot before the suffix, or,
  -- where the suffix does not end with one, without.
  pub is_enclosed-new_upstream_dns :
      (vs : List EnclosureDomain) (domain : Text) (qtype : ℕ)
      → is_enclosed (new_upstream_dns lib vs) domain qtype ≡ elim (enclosure_key qtype) [
        | none ↦ false
        | some key ↦ some_rule (is_below domain) key vs || some_rule (is_at domain) key vs
      ]
  unfolding is_enclosed new_upstream_dns lookup
  is_enclosed-new_upstream_dns vs domain qtype = elim (Option-cases (enclosure_key qtype)) [
    | inl e ↦ rw (is_enclosed, e) refl
    | inr (key, e) ↦
        rw (is_enclosed, e)
          (rw (encloses-suffix_map domain key vs [])
            (rw (encloses-domain_map domain key vs []) refl))
  ]
