-- ===== src/MemStore/Resync.antt =====
-- Whatever a node does between two rounds of a peer, the next incremental round brings the peer up
-- to date (storage.mem.go, with the rounds of PeerSyncWorker in core.ha.go).
use nekoq_bootstrap.Base.{
  List, Text, [], ap, arith, false, inl, inr, nat_key, refl, some, text_key, ◌==◌, ◌∷◌, ◌≡◌,
}
use nekoq_bootstrap.Base.Maps.{lookup, lookup-delete, lookup-insert}
use nekoq_bootstrap.MemStore.Convergence.{
  IsInSync, IsInSync-delete, IsInSync-kept, IsInSync-publish,
}
use nekoq_bootstrap.MemStore.Copying.{FullRound, IncrementalRound, ListTrips, NodeTrips}
use nekoq_bootstrap.MemStore.Domains.{new_mem_store}
use nekoq_bootstrap.MemStore.History.{
  Call, IsSettled-new, abandon_keeps, abandons, after, changes_state, deletes, full_from_keeps,
  hands_changes, hands_full, publishes, run, run-IsSettled, step, sync_from_keeps, takes_changes,
  takes_full, unwatches,
}
use nekoq_bootstrap.MemStore.Model.{
  DataTransferNodeData, Json, MemNodeData, MemStore, PendingChanges, Resolver,
}
use nekoq_bootstrap.MemStore.Peers.{
  abandon, add_watch, fetch_changes_for_peer_node_request, fetch_full_and_watch, full_from,
  no_changes, sync_from, unwatch,
}
use nekoq_bootstrap.MemStore.Rounds.{full_converges, incremental_converges, snapshot}

-- The call is no incremental round of the peer and does not end its watch.
abbrev pub Spares : {B : Type 0} → Text → Call B → Type 0
Spares peer (hands_changes q) = (q == peer) ≡ false
Spares peer (unwatches q) = (q == peer) ≡ false
Spares peer _ = Unit {0}

abbrev pub AllSpare : {B : Type 0} → Text → List (Call B) → Type 0
AllSpare peer [] = Unit {0}
AllSpare peer (c ∷ cs) = Spares peer c × AllSpare peer cs

module _ {B : Type 0} (json : Json B) where
  full_keeps :
      (a : MemStore) (q peer : Text) (p : PendingChanges)
      → lookup peer a.data_to ≡ some p
      → (lookup peer (fetch_full_and_watch json a q).0.data_to ≡ lookup peer a.data_to)
        × ((fetch_full_and_watch json a q).0.current_services ≡ a.current_services)
  unfolding fetch_full_and_watch add_watch
  full_keeps a q peer p h =
      ground (arith, lookup-insert q peer no_changes a.data_to, text_key.same_iff q peer)

  changes_keep :
      (a : MemStore) (q peer : Text)
      → (q == peer) ≡ false
      → (lookup peer (fetch_changes_for_peer_node_request json a q).0.data_to
          ≡ lookup peer a.data_to)
        × ((fetch_changes_for_peer_node_request json a q).0.current_services ≡ a.current_services)
  changes_keep a q peer h = elim (changes_state json a q) [
    | inl e ↦ rw e (refl, refl)
    | inr e ↦ rw e (ground (arith, lookup-insert q peer no_changes a.data_to), refl)
  ]

  pub step-IsInSync :
      {peer node : Text} {a b : MemStore} (c : Call B)
      → Spares peer c
      → IsInSync peer node a b
      → IsInSync peer node (step json a c) b
  unfolding step
  step-IsInSync (publishes service item) sp h = IsInSync-publish service item h
  step-IsInSync (deletes service item) sp h = IsInSync-delete service item h
  step-IsInSync {peer} {a = a} (takes_full node payload) sp h =
      let (t, c) = full_from_keeps json a node payload in
      IsInSync-kept (after a (full_from json a node payload)) (ap (lookup peer) t) c h
  step-IsInSync {peer} {a = a} (takes_changes node add del) sp h =
      let (t, c) = sync_from_keeps json a node node add del in
      IsInSync-kept (after a (sync_from json a node node add del)) (ap (lookup peer) t) c h
  step-IsInSync {peer} {a = a} (abandons node) sp h =
      let (t, c) = abandon_keeps a node in IsInSync-kept (abandon a node) (ap (lookup peer) t) c h
  step-IsInSync {peer} {a = a} (hands_full q) sp h =
      let (t, c) = full_keeps a q peer h.pending h.watched in
      IsInSync-kept (fetch_full_and_watch json a q).0 t c h
  step-IsInSync {peer} {a = a} (hands_changes q) sp h =
      let (t, c) = changes_keep a q peer sp in
      IsInSync-kept (fetch_changes_for_peer_node_request json a q).0 t c h
  step-IsInSync {peer} {a = a} (unwatches q) sp h =
      IsInSync-kept {a = a} (unwatch a q)
        (unfold unwatch in ground (arith, lookup-delete q peer a.data_to)) (unfold unwatch in refl)
        h

  pub run-IsInSync :
      {peer node : Text} {a b : MemStore} (cs : List (Call B))
      → AllSpare peer cs
      → IsInSync peer node a b
      → IsInSync peer node (run json a cs) b
  unfolding run
  run-IsInSync {peer} {node} {a} {b} [] sp h = h
  run-IsInSync {peer} {node} {a} {b} (c ∷ cs) sp h =
      run-IsInSync {a = step json a c} cs sp.1 (step-IsInSync c sp.0 h)

  -- If the encoding gives back every list and mapping that it is given, then after any history of a
  -- new node a full round for a peer succeeds; and after any further calls of the node, none of
  -- which hands changes to that peer or drops its watch, the incremental round that follows
  -- succeeds too. After either round the copy that the peer holds has, for every service and node
  -- id, exactly the address that the node publishes.
  pub resync :
      (peer node : Text) (nested : List Resolver) (history cs : List (Call B)) (b : MemStore)
      → AllSpare peer cs
      → ((d : MemNodeData) → NodeTrips json d)
      → ((l : List DataTransferNodeData) → ListTrips json l)
      → (full : FullRound json peer node (run json (new_mem_store nested) history) b)
        × IncrementalRound json peer node (run json full.node_after cs) full.peer_after
  resync peer node nested history cs b sp nodes lists =
      let a = run json (new_mem_store nested) history in
      let st = run-IsSettled json (new_mem_store nested) history peer (IsSettled-new nested peer) in
      let full = full_converges json peer node a b st (nodes (snapshot a)) in
      let h = run-IsInSync cs sp full.in_sync in
      (
        full,
        incremental_converges json peer node (run json full.node_after cs) full.peer_after h
            (lists h.pending.add) (lists h.pending.del),
      )
