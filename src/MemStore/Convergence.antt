-- ===== src/MemStore/Convergence.antt =====
-- A node and a peer that watches it (storage.mem.go): the peer's copy of the node's services,
-- brought up to date by the pending changes, is what the node has published.
use nekoq_bootstrap.Base.{Option, Text, nat_key, some, text_key, ◌∙◌, ◌≡◌}
use nekoq_bootstrap.Base.Maps.{Map, lookup, lookup-map_values}
use nekoq_bootstrap.MemStore.Addresses.{addr_of-put_item, addr_of-remove_item}
use nekoq_bootstrap.MemStore.Model.{MemNodeData, MemStore, PendingChanges, ServiceInfo, ServiceItem}
use nekoq_bootstrap.MemStore.PeerData.{IsMade, peer_addr}
use nekoq_bootstrap.MemStore.Pending.{settled, settled-note_deleted, settled-note_published}
use nekoq_bootstrap.MemStore.Services.{
  addr_of, delete_service, note_deleted, note_published, publish_service,
}

-- What the node has pending for the peer names only addresses that it has now.
abbrev pub IsSettled : MemStore → Text → Type 0
IsSettled a peer =
    (p : PendingChanges)
    → lookup peer a.data_to ≡ some p
    → (s n : Text) → settled p s n (addr_of a.current_services s n) ≡ addr_of a.current_services s n

-- `b` keeps under `node` a copy that the pending changes of `a` for `peer` bring up to date.
pub record IsInSync (peer node : Text) (a b : MemStore) : Type 0 where
  pub pending : PendingChanges
  pub watched : lookup peer a.data_to ≡ some pending
  pub copy : Map Text (Option (Map Text ServiceInfo))
  pub held : lookup node b.data_from ≡ some (record { service_mapping = some copy })
  pub made : IsMade copy
  pub agrees :
      (s n : Text)
      → settled pending s n (peer_addr (some copy) s n) ≡ addr_of a.current_services s n

-- The copy is up to date as it stands.
abbrev pub Copies : Text → MemStore → MemStore → Type 0
Copies node a b =
    (d : MemNodeData) × (lookup node b.data_from ≡ some d)
    × ((s n : Text) → peer_addr d.service_mapping s n ≡ addr_of a.current_services s n)

pub IsInSync-publish :
    {peer node : Text} {a b : MemStore} (service : Text) (item : ServiceItem)
    → IsInSync peer node a b
    → IsInSync peer node (publish_service a service item) b
unfolding publish_service
IsInSync-publish {peer} {node} {a} {b} service item h = record {
  pending = note_published service item h.pending;
  watched = rw (lookup-map_values, h.watched);
  copy = h.copy;
  held = h.held;
  made = h.made;
  agrees = λ s n. rw (addr_of-put_item a.current_services service item s n) (
      rw (settled-note_published service s n item h.pending (peer_addr (some h.copy) s n))
        (rw (h.agrees s n)));
}

pub IsInSync-delete :
    {peer node : Text} {a b : MemStore} (service : Text) (item : ServiceItem)
    → IsInSync peer node a b
    → IsInSync peer node (delete_service a service item) b
unfolding delete_service
IsInSync-delete {peer} {node} {a} {b} service item h = record {
  pending = note_deleted service item h.pending;
  watched = rw (lookup-map_values, h.watched);
  copy = h.copy;
  held = h.held;
  made = h.made;
  agrees = λ s n. rw (addr_of-remove_item a.current_services service item s n) (
      rw (settled-note_deleted service s n item h.pending (peer_addr (some h.copy) s n))
        (rw (h.agrees s n)));
}

-- `a'` has the same pending changes for the peer and the same services as `a`.
pub IsInSync-kept :
    {peer node : Text} {a b : MemStore} (a' : MemStore)
    → lookup peer a'.data_to ≡ lookup peer a.data_to
    → a'.current_services ≡ a.current_services
    → IsInSync peer node a b
    → IsInSync peer node a' b
IsInSync-kept {peer} {node} {a} {b} a' t c h = record {
  pending = h.pending;
  watched = t ∙ h.watched;
  copy = h.copy;
  held = h.held;
  made = h.made;
  agrees = λ s n. rw c (h.agrees s n);
}
