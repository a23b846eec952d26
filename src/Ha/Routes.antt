-- ===== src/Ha/Routes.antt =====
-- What a node answers to a member of its cluster over HTTP (core.ha.peertalk.go).
use nekoq_bootstrap.Base.{
  Option-cases, Text, codes, false, inl, inr, nat_key, none, ok, refl, some, text_key, text_same,
  true, ℕ, ◌≡◌,
}
use nekoq_bootstrap.Base.Maps.{Map, is_empty, lookup}
use nekoq_bootstrap.Ha.Module.{
  HaModule, PeerRequest, Reply, admit, http_cluster_auth, http_cluster_full,
  http_cluster_incremental, is_member, status, update_client_time,
}
use nekoq_bootstrap.Ha.Net.{Wire, http_auth, http_full, http_incremental, serve_cluster}
use nekoq_bootstrap.Ha.Watching.{with_time}
use nekoq_bootstrap.MemStore.Model.{Json, MemStore}
use nekoq_bootstrap.MemStore.Peers.{fetch_changes_for_peer_node_request, fetch_full_and_watch}

-- What the routes of a node do with a request that they admit.
admit-member {ℓ} :
    {A : Type ℓ} (ha : HaModule) (r : PeerRequest) (now : ℕ) (serve : HaModule → HaModule × Reply A)
    → is_empty r.from ≡ false
    → is_member ha r ≡ true
    → admit false ha r now serve ≡ serve (with_time ha r.from now)
unfolding admit update_client_time
admit-member ha r now serve e m = elim (Option-cases (lookup r.from ha.client_peer_mapping)) [
  | inl x ↦ rw e (rw x (rw m refl))
  | inr (t, x) ↦ rw e (rw x (rw m refl))
]

admit-known {ℓ} :
    {A : Type ℓ} (ha : HaModule) (r : PeerRequest) (now t : ℕ)
    (serve : HaModule → HaModule × Reply A)
    → is_empty r.from ≡ false
    → is_member ha r ≡ true
    → lookup r.from ha.client_peer_mapping ≡ some t
    → admit true ha r now serve ≡ serve (with_time ha r.from now)
unfolding admit update_client_time
admit-known ha r now t serve e m x = rw e (rw x (rw m refl))

admit-unknown {ℓ} :
    {A : Type ℓ} (ha : HaModule) (r : PeerRequest) (now : ℕ) (serve : HaModule → HaModule × Reply A)
    → is_empty r.from ≡ false
    → lookup r.from ha.client_peer_mapping ≡ none
    → admit true ha r now serve ≡ (ha, status 500)
unfolding admit update_client_time
admit-unknown ha r now serve e x = rw e (rw x refl)

module _ {W B : Type 0} (json : Json B) (wire : Wire W B) (unrouted : Text → Text → ℕ × W) (now : ℕ)
    (r : PeerRequest) (ha : HaModule) (named : is_empty r.from ≡ false) where
  abbrev served_at : Text → Text → HaModule × (ℕ × W)
  served_at method path = serve_cluster json wire unrouted now method path r ha

  pub serve_cluster-auth :
      is_member ha r ≡ true
      → served_at (codes "POST") http_auth ≡ (with_time ha r.from now, (200, wire.no_body))
  unfolding serve_cluster text_same http_cluster_auth
  serve_cluster-auth m = rw (admit-member ha r now _ named m) refl

  pub serve_cluster-full :
      (m' : MemStore) (full : Map Text B)
      → is_member ha r ≡ true
      → fetch_full_and_watch json ha.storage r.from ≡ (m', ok full)
      → served_at (codes "GET") http_full
        ≡ (record (with_time ha r.from now) { storage = m' }, (200, wire.marshal_map full))
  unfolding serve_cluster text_same http_cluster_full
  serve_cluster-full m' full m f = rw (admit-member ha r now _ named m) (rw f refl)

  pub serve_cluster-incremental :
      (t : ℕ) (m' : MemStore) (add del : Map Text B)
      → is_member ha r ≡ true
      → lookup r.from ha.client_peer_mapping ≡ some t
      → fetch_changes_for_peer_node_request json ha.storage r.from ≡ (m', ok (add, del))
      → served_at (codes "GET") http_incremental ≡ (
        record (with_time ha r.from now) { storage = m' },
        (200, wire.marshal_changes (add, del)),
      )
  unfolding serve_cluster text_same http_cluster_incremental
  serve_cluster-incremental t m' add del m x f = rw (admit-known ha r now t _ named m x) (rw f refl)

  pub serve_cluster-unknown :
      lookup r.from ha.client_peer_mapping ≡ none
      → served_at (codes "GET") http_incremental ≡ (ha, (500, wire.no_body))
  unfolding serve_cluster text_same http_cluster_incremental
  serve_cluster-unknown x = rw (admit-unknown ha r now _ named x) refl
