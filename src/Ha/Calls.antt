-- ===== src/Ha/Calls.antt =====
-- The calls of a worker that reach the node they are meant for (core.ha.peertalk.go).
use nekoq_bootstrap.Base.{
  Outcome-cases, Text, codes, err, external, false, inl, inr, nat_same, ok, refl, some, ℕ, ◌++◌,
  ◌≡◌,
}
use nekoq_bootstrap.Base.Maps.{Map}
use nekoq_bootstrap.Ha.Module.{HaModule}
use nekoq_bootstrap.Ha.Net.{
  Send, UrlLib, Wire, connect_remote, http_auth, http_full, http_incremental, identity,
  inner_url_resolve, query_full_data_set, query_incremental_data, serve_cluster,
}
use nekoq_bootstrap.MemStore.Model.{Json, MemStore, domain_type_a}
use nekoq_bootstrap.MemStore.SameDomains.{SameDomains, resolve_domain-SameDomains}

-- encoding/json gives back the bodies that it was given.
pub record WireTrips {W B : Type 0} (wire : Wire W B) : Type 0 where
  pub map_trips : (m : Map Text B) → wire.unmarshal_map (wire.marshal_map m) ≡ ok (some m)
  pub changes_trips :
      (add del : Map Text B)
      → wire.unmarshal_changes (wire.marshal_changes (add, del)) ≡ ok (some add, some del)

-- An address is resolved through the domains of the store.
pub inner_url_resolve-SameDomains :
    {U : Type 0} (lib : UrlLib U) (fqdn : Text → Text) (m m' : MemStore) (addr : Text)
    → SameDomains m m'
    → inner_url_resolve lib fqdn m' addr ≡ inner_url_resolve lib fqdn m addr
unfolding inner_url_resolve
inner_url_resolve-SameDomains lib fqdn m m' addr same = elim (Outcome-cases (lib.parse addr)) [
  | inl (u, e) ↦
      rw (inner_url_resolve, e)
        (rw (resolve_domain-SameDomains m m' (fqdn (lib.hostname u)) domain_type_a same) refl)
  | inr (inl (x, e)) ↦ rw (inner_url_resolve, e) refl
  | inr (inr e) ↦ rw (inner_url_resolve, e) refl
]

module _ {U W B : Type 0} (lib : UrlLib U) (fqdn : Text → Text) (json : Json B) (wire : Wire W B)
    (unrouted : Text → Text → ℕ × W) (now : ℕ) (send : Send HaModule W) (base addr : Text)
    (me s : HaModule) where
  abbrev pub reply_at : Text → Text → HaModule × (ℕ × W)
  reply_at method path = serve_cluster json wire unrouted now method path (identity me) s

  -- Requests at the address `base` reach the node.
  abbrev pub Reaches : Type 0
  Reaches =
      (method path : Text)
      → send method (base ++ path) (identity me) s
        ≡ ((reply_at method path).0, ok (reply_at method path).1)

  module _ (at : inner_url_resolve lib fqdn me.storage addr ≡ ok base) (reaches : Reaches)
      (trips : WireTrips wire) where
    pub connect_remote-ok :
        (s' : HaModule)
        → reply_at (codes "POST") http_auth ≡ (s', (200, wire.no_body))
        → connect_remote lib fqdn wire send me addr s ≡ (s', ok tt)
    unfolding connect_remote
    connect_remote-ok s' e = rw at (rw (reaches (codes "POST") http_auth) (rw e refl))

    pub query_full_data_set-ok :
        (s' : HaModule) (full : Map Text B)
        → reply_at (codes "GET") http_full ≡ (s', (200, wire.marshal_map full))
        → query_full_data_set lib fqdn wire send me addr s ≡ (s', ok (some full))
    unfolding query_full_data_set
    query_full_data_set-ok s' full e =
        rw at (rw (reaches (codes "GET") http_full) (rw e (rw (trips.map_trips full) refl)))

    pub query_incremental_data-ok :
        (s' : HaModule) (add del : Map Text B)
        → reply_at (codes "GET") http_incremental ≡ (s', (200, wire.marshal_changes (add, del)))
        → query_incremental_data lib fqdn wire send me addr s ≡ (s', ok (some add, some del))
    unfolding query_incremental_data
    query_incremental_data-ok s' add del e =
        rw at (
          rw (reaches (codes "GET") http_incremental)
            (rw e (rw (trips.changes_trips add del) refl)))

    pub query_incremental_data-refused :
        (code : ℕ) (body : W)
        → nat_same code 200 ≡ false
        → reply_at (codes "GET") http_incremental ≡ (s, (code, body))
        → query_incremental_data lib fqdn wire send me addr s
          ≡ (s, err (external (codes "cluster incremental failed")))
    unfolding query_incremental_data
    query_incremental_data-refused code body n e =
        rw at (rw (reaches (codes "GET") http_incremental) (rw e (rw n refl)))
