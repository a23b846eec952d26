-- ===== src/Ha/Watching.antt =====
-- For whom a node of core.ha.go keeps changes: only for peers that it has heard from of late.
use nekoq_bootstrap.Base.{
  Bool, Bool-cases, List, Option-cases, Text, [], ap, arith, false, inl, inr, nat_key, none, refl,
  some, sym, text_key, true, ℕ, ◌+◌, ◌∙◌, ◌∷◌, ◌≡◌, ◌≤◌,
}
use nekoq_bootstrap.Base.Maps.{Map, insert, is_empty, lookup, lookup-insert, lookup-map_values}
use nekoq_bootstrap.Ha.Late.{
  late_nodes-delete_all, lookup-delete_all, tracked-delete_all, unwatch_all-data_to,
}
use nekoq_bootstrap.Ha.Module.{
  HaModule, PeerRequest, Reply, admit, check_peer_health, health_interval, http_cluster_auth,
  http_cluster_full, http_cluster_incremental, is_late, is_member, late_nodes, new_ha_module,
  update_client_time,
}
use nekoq_bootstrap.MemStore.Domains.{new_mem_store}
use nekoq_bootstrap.MemStore.History.{changes_state}
use nekoq_bootstrap.MemStore.Model.{Json, PendingChanges, Resolver, ServiceItem}
use nekoq_bootstrap.MemStore.Peers.{
  add_watch, fetch_changes_for_peer_node_request, fetch_full_and_watch, no_changes,
}
use nekoq_bootstrap.MemStore.Services.{
  delete_service, note_deleted, note_published, publish_service,
}

-- The calls that a HaModule and its store get.
pub data HaCall : Type 0 where
  auths fulls incrementals : PeerRequest → ℕ → HaCall
  checks : ℕ → HaCall
  publishes_service deletes_service : Text → ServiceItem → HaCall

module _ {B : Type 0} (json : Json B) where
  unfoldable pub ha_step : HaModule → HaCall → HaModule
  ha_step ha (auths r now) = (http_cluster_auth ha r now).0
  ha_step ha (fulls r now) = (http_cluster_full json ha r now).0
  ha_step ha (incrementals r now) = (http_cluster_incremental json ha r now).0
  ha_step ha (checks now) = check_peer_health ha now
  ha_step ha (publishes_service service item) = record ha {
    storage = publish_service ha.storage service item;
  }
  ha_step ha (deletes_service service item) = record ha {
    storage = delete_service ha.storage service item;
  }

  unfoldable pub ha_run : HaModule → List HaCall → HaModule
  ha_run ha [] = ha
  ha_run ha (c ∷ cs) = ha_run (ha_step ha c) cs

-- A peer without a time has no pending changes.
abbrev pub IsTracked : HaModule → Type 0
IsTracked ha =
    (peer : Text)
    → lookup peer ha.client_peer_mapping ≡ none
    → lookup peer ha.storage.data_to ≡ none

-- The peers that a round leaves with pending changes were heard from within the interval.
recent :
    (ha : HaModule) (now : ℕ) (peer : Text) (p : PendingChanges)
    → IsTracked ha
    → lookup peer (check_peer_health ha now).storage.data_to ≡ some p
    → (t : ℕ) × (lookup peer ha.client_peer_mapping ≡ some t) × (now ≤ t + health_interval)
unfolding check_peer_health
recent ha now peer p tracked h = elim (Option-cases (lookup peer ha.client_peer_mapping)) [
  | inl e ↦
      let late = late_nodes now ha.client_peer_mapping in
      let gone = lookup-delete_all late peer ha.storage.data_to (tracked peer e) in
      let same = unwatch_all-data_to late ha.storage in
      absurd (let clash : some p ≡ none = sym h ∙ ap (lookup peer) same ∙ gone in cc)
  | inr (t, e) ↦ elim (Bool-cases (is_late now t)) [
    | inl l ↦
        let late = late_nodes now ha.client_peer_mapping in
        let gone = late_nodes-delete_all now t peer ha.client_peer_mapping ha.storage.data_to e l in
        let same = unwatch_all-data_to late ha.storage in
        absurd (let clash : some p ≡ none = sym h ∙ ap (lookup peer) same ∙ gone in cc)
    | inr l ↦ (t, e, ground arith)
  ]
]

-- The module with a new time for a peer.
abbrev pub with_time : HaModule → Text → ℕ → HaModule
with_time ha node now = record ha { client_peer_mapping = insert node now ha.client_peer_mapping }

abbrev is_unknown : HaModule → Text → Bool → Bool
is_unknown ha node fails = elim (lookup node ha.client_peer_mapping) [
  | none ↦ fails
  | some _ ↦ false
]

-- Whatever the module keeps, and keeps with a new time, and the handler keeps from there.
admit-keeps {ℓ} :
    {A : Type ℓ} (P : HaModule → Type 0) (fails : Bool) (ha : HaModule) (r : PeerRequest) (now : ℕ)
    (serve : HaModule → HaModule × Reply A)
    → P ha
    → P (with_time ha r.from now)
    → P (serve (with_time ha r.from now)).0
    → P (admit fails ha r now serve).0
unfolding admit update_client_time
admit-keeps P fails ha r now serve h t s = elim (Bool-cases (is_empty r.from)) [
  | inl e ↦ rw e h
  | inr e ↦ rw e (elim (Bool-cases (is_unknown ha r.from fails)) [
    | inl u ↦ rw u h
    | inr u ↦ rw u (elim (Bool-cases (is_member ha r)) [ inl m ↦ rw m s | inr m ↦ rw m t ])
  ])
]

with_time-IsTracked :
    (ha : HaModule) (node : Text) (now : ℕ)
    → IsTracked ha
    → IsTracked (record ha { client_peer_mapping = insert node now ha.client_peer_mapping })
with_time-IsTracked ha node now tracked peer h =
    tracked peer (ground (arith, lookup-insert node peer now ha.client_peer_mapping, h))

module _ {B : Type 0} (json : Json B) where
  full-IsTracked :
      (ha : HaModule) (r : PeerRequest) (now : ℕ)
      → IsTracked ha
      → IsTracked (http_cluster_full json ha r now).0
  unfolding http_cluster_full fetch_full_and_watch add_watch
  full-IsTracked ha r now tracked =
      let timed = with_time-IsTracked ha r.from now tracked in
      admit-keeps IsTracked false ha r now _ tracked timed (λ peer h.
        (ground (
          arith,
          lookup-insert r.from peer now ha.client_peer_mapping,
          lookup-insert r.from peer no_changes ha.storage.data_to,
          timed peer h,
        )))

  incremental-IsTracked :
      (ha : HaModule) (r : PeerRequest) (now : ℕ)
      → IsTracked ha
      → IsTracked (http_cluster_incremental json ha r now).0
  unfolding http_cluster_incremental fetch_changes_for_peer_node_request
  incremental-IsTracked ha r now tracked =
      let timed = with_time-IsTracked ha r.from now tracked in
      admit-keeps IsTracked true ha r now _ tracked timed (λ peer h.
        elim (changes_state json ha.storage r.from) [
          | inl e ↦ rw e (timed peer h)
          | inr e ↦ rw e (
              ground (
                arith,
                lookup-insert r.from peer now ha.client_peer_mapping,
                lookup-insert r.from peer no_changes ha.storage.data_to,
                timed peer h,
              ))
        ])

  step-IsTracked : (ha : HaModule) (c : HaCall) → IsTracked ha → IsTracked (ha_step json ha c)
  unfolding ha_step http_cluster_auth check_peer_health publish_service delete_service
  step-IsTracked ha (auths r now) tracked =
      let timed = with_time-IsTracked ha r.from now tracked in
      admit-keeps IsTracked false ha r now _ tracked timed timed
  step-IsTracked ha (fulls r now) tracked = full-IsTracked ha r now tracked
  step-IsTracked ha (incrementals r now) tracked = incremental-IsTracked ha r now tracked
  step-IsTracked ha (checks now) tracked = λ peer h.
      let late = late_nodes now ha.client_peer_mapping in
      ap (lookup peer) (unwatch_all-data_to late ha.storage)
      ∙ tracked-delete_all late peer ha.client_peer_mapping ha.storage.data_to (tracked peer) h
  step-IsTracked ha (publishes_service service item) tracked = λ peer h.
      lookup-map_values (note_published service item) peer ha.storage.data_to
      ∙ rw (tracked peer h) refl
  step-IsTracked ha (deletes_service service item) tracked = λ peer h.
      lookup-map_values (note_deleted service item) peer ha.storage.data_to
      ∙ rw (tracked peer h) refl

  run-IsTracked : (ha : HaModule) (cs : List HaCall) → IsTracked ha → IsTracked (ha_run json ha cs)
  unfolding ha_run
  run-IsTracked ha [] h = h
  run-IsTracked ha (c ∷ cs) h = run-IsTracked (ha_step json ha c) cs (step-IsTracked ha c h)

  new-IsTracked :
      (node name secret : Text) (peers : Map Text Text) (nested : List Resolver)
      → IsTracked (new_ha_module node name secret peers (new_mem_store nested))
  unfolding new_ha_module new_mem_store lookup
  new-IsTracked node name secret peers nested peer h = refl

  -- After any history of a new module, the peers that a round of the health check leaves with
  -- pending changes have been heard from within the interval before the round.
  pub check_peer_health-recent :
      (node name secret : Text) (peers : Map Text Text) (nested : List Resolver) (cs : List HaCall)
      (now : ℕ) (peer : Text) (p : PendingChanges) (ha : HaModule)
      → ha ≡ ha_run json (new_ha_module node name secret peers (new_mem_store nested)) cs
      → lookup peer (check_peer_health ha now).storage.data_to ≡ some p
      → (t : ℕ) × (lookup peer ha.client_peer_mapping ≡ some t) × (now ≤ t + health_interval)
  check_peer_health-recent node name secret peers nested cs now peer p ha e h =
      recent ha now peer p
        (rw e (
          run-IsTracked (new_ha_module node name secret peers (new_mem_store nested)) cs
            (new-IsTracked node name secret peers nested)))
        h
