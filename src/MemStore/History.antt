-- ===== src/MemStore/History.antt =====
-- Every operation of storage.mem.go that changes the services or the exchange with peers, as one
-- call of a history, and an invariant of all histories.
use nekoq_bootstrap.Base.{
  Bool-cases, List, Option-cases, Outcome, Text, [], arith, err, inl, inr, nat_key, ok, panic, some,
  text_key, ◌==◌, ◌∷◌, ◌≡◌, ◌⊎◌,
}
use nekoq_bootstrap.Base.Maps.{
  Map, insert, lookup, lookup-delete, lookup-insert, lookup-map_values, map_values,
}
use nekoq_bootstrap.MemStore.Addresses.{addr_of-put_item, addr_of-remove_item}
use nekoq_bootstrap.MemStore.Convergence.{IsSettled}
use nekoq_bootstrap.MemStore.Copying.{settled-no_changes}
use nekoq_bootstrap.MemStore.Domains.{new_mem_store}
use nekoq_bootstrap.MemStore.Model.{Json, MemStore, PendingChanges, Resolver, ServiceItem}
use nekoq_bootstrap.MemStore.Peers.{
  abandon, add_watch, build_mem_data, fetch_changes_for_peer_node_request, fetch_full_and_watch,
  full_from, no_changes, sync_from, unwatch,
}
use nekoq_bootstrap.MemStore.Pending.{settled-note_deleted, settled-note_published}
use nekoq_bootstrap.MemStore.Services.{
  addr_of, delete_service, found, note_deleted, note_published, publish_service, put_item,
  remove_item,
}

pub data Call (B : Type 0) : Type 0 where
  publishes deletes : Text → ServiceItem → Call B
  takes_full : Text → Map Text B → Call B
  takes_changes : Text → Map Text B → Map Text B → Call B
  abandons : Text → Call B
  hands_full hands_changes unwatches : Text → Call B

-- A call that returns an error has changed nothing.
abbrev pub after : MemStore → Outcome MemStore → MemStore
after m (ok m') = m'
after m (err e) = m
after m panic = m

module _ {B : Type 0} (json : Json B) where
  unfoldable pub step : MemStore → Call B → MemStore
  step m (publishes service item) = publish_service m service item
  step m (deletes service item) = delete_service m service item
  step m (takes_full node payload) = after m (full_from json m node payload)
  step m (takes_changes node add del) = after m (sync_from json m node node add del)
  step m (abandons node) = abandon m node
  step m (hands_full peer) = (fetch_full_and_watch json m peer).0
  step m (hands_changes peer) = (fetch_changes_for_peer_node_request json m peer).0
  step m (unwatches peer) = unwatch m peer

  unfoldable pub run : MemStore → List (Call B) → MemStore
  run m [] = m
  run m (c ∷ cs) = run (step m c) cs

-- A call that keeps what is pending and the node's own services keeps the invariant.
kept-IsSettled :
    (m m' : MemStore) (peer : Text)
    → m'.data_to ≡ m.data_to
    → m'.current_services ≡ m.current_services
    → IsSettled m peer
    → IsSettled m' peer
kept-IsSettled m m' peer t c h p e s n = rw c (h p (rw (← t) e) s n)

-- What a call leaves pending for a peer, from what it noted for every peer.
noted :
    (f : PendingChanges → PendingChanges) (m : Map Text PendingChanges) (peer : Text)
    (p : PendingChanges)
    → lookup peer (map_values f m) ≡ some p
    → (q : PendingChanges) × (lookup peer m ≡ some q) × (p ≡ f q)
noted f m peer p e = elim (Option-cases (lookup peer m)) [
  | inl h ↦ absurd (ground (arith, lookup-map_values f peer m))
  | inr (q, h) ↦ (q, h, ground (arith, lookup-map_values f peer m))
]

publish-IsSettled :
    (m : MemStore) (service : Text) (item : ServiceItem) (peer : Text)
    → IsSettled m peer
    → IsSettled (publish_service m service item) peer
unfolding publish_service
publish-IsSettled m service item peer h p e s n =
    let (q, found, same) = noted (note_published service item) m.data_to peer p e in
    let at = addr_of-put_item m.current_services service item s n in
    let was = h q found s n in
    ground (
      arith,
      at,
      was,
      same,
      settled-note_published service s n item q
          (addr_of (put_item service item m.current_services) s n),
    )

delete-IsSettled :
    (m : MemStore) (service : Text) (item : ServiceItem) (peer : Text)
    → IsSettled m peer
    → IsSettled (delete_service m service item) peer
unfolding delete_service
delete-IsSettled m service item peer h p e s n =
    let (q, found, same) = noted (note_deleted service item) m.data_to peer p e in
    let at = addr_of-remove_item m.current_services service item s n in
    let was = h q found s n in
    ground (
      arith,
      at,
      was,
      same,
      settled-note_deleted service s n item q
          (addr_of (remove_item service item m.current_services) s n),
    )

-- A peer whose pending changes are all that the call touches, and are cleared.
cleared-IsSettled :
    (m : MemStore) (peer j : Text)
    → IsSettled m j
    → IsSettled (record m { data_to = insert peer no_changes m.data_to }) j
cleared-IsSettled m peer j h p e s n = elim (Bool-cases (peer == j)) [
  | inl same ↦
      let is : p ≡ no_changes = ground (arith, lookup-insert peer j no_changes m.data_to) in
      rw is (settled-no_changes s n (addr_of m.current_services s n))
  | inr other ↦ h p (ground (arith, lookup-insert peer j no_changes m.data_to)) s n
]

add_watch-IsSettled :
    (m : MemStore) (peer j : Text) → IsSettled m j → IsSettled (add_watch m peer) j
unfolding add_watch
add_watch-IsSettled m peer j h = elim (Option-cases (lookup peer m.data_to)) [
  | inl e ↦ rw (e, add_watch) (cleared-IsSettled m peer j h)
  | inr (p, e) ↦ rw (e, add_watch) h
]

unwatch-IsSettled : (m : MemStore) (peer j : Text) → IsSettled m j → IsSettled (unwatch m peer) j
unfolding unwatch
unwatch-IsSettled m peer j h p e s n = h p (ground (arith, lookup-delete peer j m.data_to)) s n

pub abandon_keeps :
    (m : MemStore) (node : Text)
    → ((abandon m node).data_to ≡ m.data_to)
      × ((abandon m node).current_services ≡ m.current_services)
unfolding abandon build_mem_data
abandon_keeps m node = ground arith

module _ {B : Type 0} (json : Json B) where
  pub changes_state :
      (m : MemStore) (peer : Text)
      → ((fetch_changes_for_peer_node_request json m peer).0 ≡ m)
        ⊎ ((fetch_changes_for_peer_node_request json m peer).0
            ≡ record m { data_to = insert peer no_changes m.data_to })
  unfolding fetch_changes_for_peer_node_request
  changes_state m peer = ground arith

  hands_changes-IsSettled :
      (m : MemStore) (peer j : Text)
      → IsSettled m j
      → IsSettled (fetch_changes_for_peer_node_request json m peer).0 j
  hands_changes-IsSettled m peer j h = elim (changes_state m peer) [
    | inl e ↦ rw e h
    | inr e ↦ rw e (cleared-IsSettled m peer j h)
  ]

  hands_full-IsSettled :
      (m : MemStore) (peer j : Text)
      → IsSettled m j
      → IsSettled (fetch_full_and_watch json m peer).0 j
  unfolding fetch_full_and_watch
  hands_full-IsSettled m peer j h = add_watch-IsSettled m peer j h

  -- What is taken from a peer changes neither what is pending nor what the node publishes.
  pub full_from_keeps :
      (m : MemStore) (node : Text) (payload : Map Text B)
      → ((after m (full_from json m node payload)).data_to ≡ m.data_to)
        × ((after m (full_from json m node payload)).current_services ≡ m.current_services)
  unfolding full_from build_mem_data
  full_from_keeps m node payload = ground arith

  pub sync_from_keeps :
      (m : MemStore) (node orig : Text) (add del : Map Text B)
      → ((after m (sync_from json m node orig add del)).data_to ≡ m.data_to)
        × ((after m (sync_from json m node orig add del)).current_services ≡ m.current_services)
  unfolding sync_from build_mem_data
  sync_from_keeps m node orig add del = ground arith

  pub step-IsSettled :
      (m : MemStore) (c : Call B) (peer : Text) → IsSettled m peer → IsSettled (step json m c) peer
  unfolding step
  step-IsSettled m (publishes service item) peer h = publish-IsSettled m service item peer h
  step-IsSettled m (deletes service item) peer h = delete-IsSettled m service item peer h
  step-IsSettled m (takes_full node payload) peer h =
      let (t, c) = full_from_keeps m node payload in
      kept-IsSettled m (after m (full_from json m node payload)) peer t c h
  step-IsSettled m (takes_changes node add del) peer h =
      let (t, c) = sync_from_keeps m node node add del in
      kept-IsSettled m (after m (sync_from json m node node add del)) peer t c h
  step-IsSettled m (abandons node) peer h =
      let (t, c) = abandon_keeps m node in kept-IsSettled m (abandon m node) peer t c h
  step-IsSettled m (hands_full q) peer h = hands_full-IsSettled m q peer h
  step-IsSettled m (hands_changes q) peer h = hands_changes-IsSettled m q peer h
  step-IsSettled m (unwatches q) peer h = unwatch-IsSettled m q peer h

  -- From a state in which what is pending for a peer agrees with what the node publishes, any
  -- history of calls leads to such a state: settling the pending changes on the published services
  -- changes nothing.
  pub run-IsSettled :
      (m : MemStore) (cs : List (Call B)) (peer : Text)
      → IsSettled m peer
      → IsSettled (run json m cs) peer
  unfolding run
  run-IsSettled m [] peer h = h
  run-IsSettled m (c ∷ cs) peer h =
      run-IsSettled (step json m c) cs peer (step-IsSettled m c peer h)

pub IsSettled-new : (nested : List Resolver) (peer : Text) → IsSettled (new_mem_store nested) peer
unfolding new_mem_store lookup
IsSettled-new nested peer p e s n = cc
