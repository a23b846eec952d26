-- ===== src/MemStore/Copying.antt =====
-- What a round of the exchange (storage.mem.go) stores at the peer, and what is asked of a round.
use nekoq_bootstrap.Base.{List, Option, Text, nat_key, ok, refl, some, text_key, ◌≡◌}
use nekoq_bootstrap.Base.Maps.{Map, insert, lookup, lookup-insert_self}
use nekoq_bootstrap.MemStore.Convergence.{Copies, IsInSync}
use nekoq_bootstrap.MemStore.Model.{
  DataTransferNodeData, Json, MemNodeData, MemStore, NilableMapping, PendingChanges, ServiceInfo,
}
use nekoq_bootstrap.MemStore.PeerData.{IsMade, last_info, names, peer_addr}
use nekoq_bootstrap.MemStore.Peers.{
  build_mem_data, fetch_changes_for_peer_node_request, fetch_full_and_watch, full_from, no_changes,
  sync_from,
}
use nekoq_bootstrap.MemStore.Pending.{settled}
use nekoq_bootstrap.MemStore.Services.{addr_of}

-- encoding/json gives back the list, or the mapping, that it was given.
abbrev pub ListTrips : {B : Type 0} → Json B → List DataTransferNodeData → Type 0
ListTrips {B} json l = (c : B) × (json.marshal_list l ≡ some c) × (json.unmarshal_list c ≡ some l)

abbrev pub NodeTrips : {B : Type 0} → Json B → MemNodeData → Type 0
NodeTrips {B} json d =
    (c : B) × (json.marshal_node_data d ≡ some c) × (json.unmarshal_node_data c ≡ some d)

pub settled-no_changes : (s n : Text) (old : Option ServiceInfo) → settled no_changes s n old ≡ old
unfolding settled names last_info
settled-no_changes s n old = refl

-- What SyncFrom and FullFrom leave behind.
abbrev pub store_mapping : MemStore → Text → NilableMapping → MemStore
store_mapping b node mapping =
    build_mem_data
      (record b { data_from = insert node (record { service_mapping = mapping }) b.data_from })

module _ (peer node : Text) (a b : MemStore) (c : Map Text (Option (Map Text ServiceInfo))) where
  pub fresh_held :
      lookup node (store_mapping b node (some c)).data_from
      ≡ some (record { service_mapping = some c })
  unfolding build_mem_data
  fresh_held = lookup-insert_self node (record { service_mapping = some c }) b.data_from

  module _ (agrees : (s n : Text) → peer_addr (some c) s n ≡ addr_of a.current_services s n) where
    pub fresh-Copies : Copies node a (store_mapping b node (some c))
    fresh-Copies = (record { service_mapping = some c }, fresh_held, agrees)

    pub fresh-IsInSync :
        (p : PendingChanges)
        → lookup peer a.data_to ≡ some p
        → IsMade c
        → ((s n : Text)
            → settled p s n (addr_of a.current_services s n) ≡ addr_of a.current_services s n)
        → IsInSync peer node a (store_mapping b node (some c))
    fresh-IsInSync p watched made idem = record {
      pending = p;
      watched = watched;
      copy = c;
      held = fresh_held;
      made = made;
      agrees = λ s n. rw (agrees s n) (idem s n);
    }

-- A round that succeeds, leaves nothing pending and leaves the copy up to date.
pub record IncrementalRound {B : Type 0} (json : Json B) (peer node : Text) (a b : MemStore)
    : Type 0 where
  pub node_after : MemStore
  pub peer_after : MemStore
  pub add : Map Text B
  pub del : Map Text B
  pub fetched : fetch_changes_for_peer_node_request json a peer ≡ (node_after, ok (add, del))
  pub synced : sync_from json b node node add del ≡ ok peer_after
  pub cleared : lookup peer node_after.data_to ≡ some no_changes
  pub same_services : node_after.current_services ≡ a.current_services
  pub copies : Copies node node_after peer_after
  pub in_sync : IsInSync peer node node_after peer_after

pub record FullRound {B : Type 0} (json : Json B) (peer node : Text) (a b : MemStore) : Type 0 where
  pub node_after : MemStore
  pub peer_after : MemStore
  pub full : Map Text B
  pub fetched : fetch_full_and_watch json a peer ≡ (node_after, ok full)
  pub stored : full_from json b node full ≡ ok peer_after
  pub same_services : node_after.current_services ≡ a.current_services
  pub copies : Copies node node_after peer_after
  pub in_sync : IsInSync peer node node_after peer_after
