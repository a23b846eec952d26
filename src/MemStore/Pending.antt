-- ===== src/MemStore/Pending.antt =====
-- The pending lists that storage.mem.go keeps for a watching peer, read as one update.
use nekoq_bootstrap.Base.{
  ◌≡◌, false, ◌&&◌, ◌||◌, Text, List, [], ◌∷◌, ◌++◌, Option, none, some, arith, ◌==◌, text_key,
  if◌then◌else◌,
}
use nekoq_bootstrap.MemStore.Model.{ServiceItem, ServiceInfo, DataTransferNodeData, PendingChanges}
use nekoq_bootstrap.MemStore.Services.{
  is_for, transfer, rebuild_service_item_list, note_published, note_deleted,
}
use nekoq_bootstrap.MemStore.PeerData.{names, last_info, pick}

module _ (service s n : Text) (item : ServiceItem) where
  names-rebuild :
      (l : List DataTransferNodeData)
      → names s n (rebuild_service_item_list l service item)
        ≡ (if service == s && item.node_id == n then false else names s n l)
  unfolding names rebuild_service_item_list
  names-rebuild [] = ground arith
  names-rebuild (v ∷ l) = ground (
    arith,
    names-rebuild l,
    text_key.same_iff v.service_name service,
    text_key.same_iff v.service_name s,
    text_key.same_iff service s,
    text_key.same_iff v.node_name item.node_id,
    text_key.same_iff v.node_name n,
    text_key.same_iff item.node_id n,
  )

  last_info-rebuild :
      (l : List DataTransferNodeData)
      → last_info s n (rebuild_service_item_list l service item)
        ≡ (if service == s && item.node_id == n then none else last_info s n l)
  unfolding last_info rebuild_service_item_list
  last_info-rebuild [] = ground arith
  last_info-rebuild (v ∷ l) = ground (
    arith,
    last_info-rebuild l,
    text_key.same_iff v.service_name service,
    text_key.same_iff v.service_name s,
    text_key.same_iff service s,
    text_key.same_iff v.node_name item.node_id,
    text_key.same_iff v.node_name n,
    text_key.same_iff item.node_id n,
  )

names-append :
    (s n : Text) (l : List DataTransferNodeData) (v : DataTransferNodeData)
    → names s n (l ++ v ∷ []) ≡ (names s n l || is_for s n v)
unfolding names
names-append s n [] v = ground arith
names-append s n (w ∷ l) v = ground (arith, names-append s n l v)

last_info-append :
    (s n : Text) (l : List DataTransferNodeData) (v : DataTransferNodeData)
    → last_info s n (l ++ v ∷ []) ≡ (if is_for s n v then some v.info else last_info s n l)
unfolding last_info
last_info-append s n [] v = ground arith
last_info-append s n (w ∷ l) v = ground (arith, last_info-append s n l v)

-- The address after the pending deletions and then the pending additions, from the address before.
unfoldable pub settled : PendingChanges → Text → Text → Option ServiceInfo → Option ServiceInfo
settled p s n old = pick (last_info s n p.add) (if names s n p.del then none else old)

module _ (service s n : Text) (item : ServiceItem) (p : PendingChanges)
    (old : Option ServiceInfo) where
  pub settled-note_published : settled (note_published service item p) s n old ≡ (
      if service == s && item.node_id == n
      then some (record { addr = item.addr })
      else settled p s n old)
  unfolding settled note_published
  settled-note_published = ground (
    arith,
    names-rebuild service s n item p.del,
    last_info-append s n p.add (transfer service item),
  )

  pub settled-note_deleted :
      settled (note_deleted service item p) s n old
      ≡ (if service == s && item.node_id == n then none else settled p s n old)
  unfolding settled note_deleted
  settled-note_deleted = ground (
    arith,
    names-append s n p.del (transfer service item),
    last_info-rebuild service s n item p.add,
  )

-- Settling again from what the pending changes have settled changes nothing.
pub settled_idem :
    (p : PendingChanges) (s n : Text) (old now : Option ServiceInfo)
    → settled p s n old ≡ now
    → settled p s n now ≡ now
unfolding settled
settled_idem p s n old now h = ground arith
