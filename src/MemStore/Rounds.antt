-- ===== src/MemStore/Rounds.antt =====
-- Rounds of the exchange between a node and a watching peer (storage.mem.go): the full data set, and
-- the changes since. `B` is the type of the bytes on the wire.
use nekoq_bootstrap.Base.{
  List, Option, Text, [], arith, nat_key, none, ok, refl, some, text_key, ◌∷◌, ◌≡◌,
}
use nekoq_bootstrap.Base.Maps.{
  insert, lookup, lookup-insert_self, lookup-map_values, lookup-singleton, map_values,
}
use nekoq_bootstrap.MemStore.Convergence.{IsInSync, IsSettled}
use nekoq_bootstrap.MemStore.Copying.{
  FullRound, IncrementalRound, ListTrips, NodeTrips, fresh-Copies, fresh-IsInSync,
  settled-no_changes, store_mapping,
}
use nekoq_bootstrap.MemStore.Model.{
  DataTransferNodeData, Json, MemNodeData, MemStore, NilableMapping, PendingChanges, ServiceMapping,
}
use nekoq_bootstrap.MemStore.PeerData.{IsMade, peer_addr, sync_add-some, sync_delete-some}
use nekoq_bootstrap.MemStore.Peers.{
  add_watch, default_data_key, fetch_changes_for_peer_node_request, fetch_full_and_watch, full_from,
  no_changes, sync_add, sync_delete, sync_from,
}
use nekoq_bootstrap.MemStore.Pending.{settled}
use nekoq_bootstrap.MemStore.Services.{addr_of}

module _ {B : Type 0} (json : Json B) where
  fetch_changes_lem :
      (a : MemStore) (peer : Text) (p : PendingChanges) (ad dd : B)
      → lookup peer a.data_to ≡ some p
      → json.marshal_list p.add ≡ some ad
      → json.marshal_list p.del ≡ some dd
      → fetch_changes_for_peer_node_request json a peer ≡ (
        record a { data_to = insert peer no_changes a.data_to },
        ok ((default_data_key, ad) ∷ [], (default_data_key, dd) ∷ []),
      )
  unfolding fetch_changes_for_peer_node_request
  fetch_changes_lem a peer p ad dd h m m' = rw (h, fetch_changes_for_peer_node_request) (rw (m, m'))

  sync_from_lem :
      (b : MemStore) (node orig : Text) (d : MemNodeData) (ad dd : B)
      (adata ddata : List DataTransferNodeData) (mapping : NilableMapping)
      → json.unmarshal_list ad ≡ some adata
      → json.unmarshal_list dd ≡ some ddata
      → lookup node b.data_from ≡ some d
      → sync_add adata (sync_delete ddata d.service_mapping) ≡ ok mapping
      → sync_from json b node orig ((default_data_key, ad) ∷ []) ((default_data_key, dd) ∷ [])
        ≡ ok (store_mapping b node mapping)
  unfolding sync_from
  sync_from_lem b node orig d ad dd adata ddata mapping u u' h e =
      rw (lookup-singleton default_data_key ad)
        (rw u (rw (lookup-singleton default_data_key dd) (rw u' (rw h (rw e)))))

  -- Between a node and a peer that is in sync with it, where the encoding gives back the two lists
  -- of pending changes, an incremental round succeeds: nothing is pending for the peer then, the
  -- services of the node are as before, the copy of the peer is up to date, and the two are in
  -- sync.
  pub incremental_converges :
      (peer node : Text) (a b : MemStore) (h : IsInSync peer node a b)
      → ListTrips json h.pending.add
      → ListTrips json h.pending.del
      → IncrementalRound json peer node a b
  incremental_converges peer node a b h (ad, m, u) (dd, m', u') =
      let (c1, e1, made1, at1) = sync_delete-some h.pending.del h.copy h.made in
      let (c2, e2, made2, at2) = sync_add-some h.pending.add c1 made1 in
      let e : sync_add h.pending.add (sync_delete h.pending.del (some h.copy)) ≡ ok (some c2) =
        rw e1 e2 in
      let agrees : (s n : Text) → peer_addr (some c2) s n ≡ addr_of a.current_services s n =
        λ s n. rw (at2 s n, at1 s n) (unfold settled in h.agrees s n) in
      record {
        node_after = record a { data_to = insert peer no_changes a.data_to };
        peer_after = store_mapping b node (some c2);
        add = (default_data_key, ad) ∷ [];
        del = (default_data_key, dd) ∷ [];
        fetched = fetch_changes_lem a peer h.pending ad dd h.watched m m';
        synced =
            sync_from_lem b node node (record { service_mapping = some h.copy }) ad dd h.pending.add
              h.pending.del (some c2) u u' h.held e;
        cleared = lookup-insert_self peer no_changes a.data_to;
        same_services = refl;
        copies = fresh-Copies peer node a b c2 agrees;
        in_sync =
            fresh-IsInSync peer node (record a { data_to = insert peer no_changes a.data_to }) b c2
              agrees no_changes (lookup-insert_self peer no_changes a.data_to) made2
              (λ s n. settled-no_changes s n (addr_of a.current_services s n));
      }

-- The snapshot that FetchFullAndWatch marshals.
abbrev pub snapshot : MemStore → MemNodeData
snapshot a = record { service_mapping = some (map_values some a.current_services) }

snapshot-IsMade : (m : ServiceMapping) → IsMade (map_values some m)
snapshot-IsMade m s = rw lookup-map_values (ground arith)

peer_addr-snapshot :
    (m : ServiceMapping) (s n : Text) → peer_addr (some (map_values some m)) s n ≡ addr_of m s n
unfolding peer_addr addr_of
peer_addr-snapshot m s n = rw lookup-map_values (ground arith)

-- What is pending for the peer once it is watched.
add_watch-pending :
    (a : MemStore) (peer : Text) (o : Option PendingChanges)
    → lookup peer a.data_to ≡ o
    → IsSettled a peer
    → (p : PendingChanges) × (lookup peer (add_watch a peer).data_to ≡ some p)
      × ((s n : Text)
          → settled p s n (addr_of a.current_services s n) ≡ addr_of a.current_services s n)
unfolding add_watch
add_watch-pending a peer none h st = (
  no_changes,
  rw (h, add_watch) (lookup-insert_self peer no_changes a.data_to),
  λ s n. settled-no_changes s n (addr_of a.current_services s n),
)
add_watch-pending a peer (some p) h st = (p, rw (h, add_watch) h, st p h)

same_services-add_watch :
    (a : MemStore) (peer : Text) → (add_watch a peer).current_services ≡ a.current_services
unfolding add_watch
same_services-add_watch a peer = ground arith

module _ {B : Type 0} (json : Json B) where
  full_from_lem :
      (b : MemStore) (node : Text) (c : B) (d : MemNodeData)
      → json.unmarshal_node_data c ≡ some d
      → full_from json b node ((default_data_key, c) ∷ [])
        ≡ ok (store_mapping b node d.service_mapping)
  unfolding full_from
  full_from_lem b node c d u = rw (lookup-singleton default_data_key c) (rw u)

  fetch_full_lem :
      (a : MemStore) (peer : Text) (c : B)
      → json.marshal_node_data (snapshot a) ≡ some c
      → fetch_full_and_watch json a peer ≡ (add_watch a peer, ok ((default_data_key, c) ∷ []))
  unfolding fetch_full_and_watch
  fetch_full_lem a peer c m = rw m

  -- Where what is pending for the peer agrees with what the node publishes, and the encoding gives
  -- back the node's services, a full round succeeds and leaves the peer in sync with an up-to-date
  -- copy, whether or not it was watching before.
  pub full_converges :
      (peer node : Text) (a b : MemStore)
      → IsSettled a peer
      → NodeTrips json (snapshot a)
      → FullRound json peer node a b
  full_converges peer node a b st (c, m, u) =
      let (p, watched, idem) = add_watch-pending a peer (lookup peer a.data_to) refl st in
      let same = same_services-add_watch a peer in
      let agrees : (s n : Text)
          → peer_addr (some (map_values some a.current_services)) s n
            ≡ addr_of (add_watch a peer).current_services s n =
        λ s n. rw same (peer_addr-snapshot a.current_services s n) in
      record {
        node_after = add_watch a peer;
        peer_after = store_mapping b node (snapshot a).service_mapping;
        full = (default_data_key, c) ∷ [];
        fetched = fetch_full_lem a peer c m;
        stored = full_from_lem b node c (snapshot a) u;
        same_services = same;
        copies = fresh-Copies peer node (add_watch a peer) b _ agrees;
        in_sync =
            fresh-IsInSync peer node (add_watch a peer) b (map_values some a.current_services)
              agrees p watched (snapshot-IsMade a.current_services) (λ s n. rw same (idem s n));
      }
