-- ===== src/MemStore/Services.antt =====
-- GetServiceList, PublishService and DeleteService of storage.mem.go.
use nekoq_bootstrap.Base.{
  Bool, ◌&&◌, Text, List, [], ◌∷◌, ◌++◌, Option, none, some, Outcome, ok, ◌==◌, text_key,
  if◌then◌else◌,
}
use nekoq_bootstrap.Base.Maps.{Map, lookup, insert, delete, is_empty, map_values}
use nekoq_bootstrap.MemStore.Model.{
  ServiceItem, ServiceInfo, ServiceMapping, DataTransferNodeData, PendingChanges, MemStore,
}

service_items : Map Text ServiceInfo → List ServiceItem
service_items [] = []
service_items ((k, v) ∷ li) = record { addr = v.addr; node_id = k } ∷ service_items li

unfoldable pub get_service_list : MemStore → Text → Outcome (List ServiceItem)
unfolding service_items lookup
get_service_list m service = elim (lookup service m.services) [
  | none ↦ ok []
  | some li ↦ ok (service_items li)
]

-- p, ok := m[service]; if !ok { p = map…{} ; m[service] = p }
abbrev pub sub_map : Text → ServiceMapping → Map Text ServiceInfo
sub_map service m = elim (lookup service m) [ none ↦ [] | some p ↦ p ]

unfoldable pub put_item : Text → ServiceItem → ServiceMapping → ServiceMapping
put_item service item m =
    insert service (insert item.node_id (record { addr = item.addr }) (sub_map service m)) m

unfoldable pub remove_item : Text → ServiceItem → ServiceMapping → ServiceMapping
remove_item service item m = elim (lookup service m) [
  | none ↦ m
  | some p ↦
      let p' = delete item.node_id p in
      if is_empty p' then delete service m else insert service p' m
]

abbrev pub is_for : Text → Text → DataTransferNodeData → Bool
is_for service node v = v.service_name == service && v.node_name == node

unfoldable pub rebuild_service_item_list :
    List DataTransferNodeData → Text → ServiceItem → List DataTransferNodeData
rebuild_service_item_list [] service item = []
rebuild_service_item_list (v ∷ del) service item =
    let rest = rebuild_service_item_list del service item in
    if is_for service item.node_id v then rest else v ∷ rest

abbrev pub transfer : Text → ServiceItem → DataTransferNodeData
transfer service item = record {
  service_name = service;
  node_name = item.node_id;
  info = record { addr = item.addr };
}

unfoldable pub note_published : Text → ServiceItem → PendingChanges → PendingChanges
note_published service item v = record {
  del = rebuild_service_item_list v.del service item;
  add = v.add ++ transfer service item ∷ [];
}

unfoldable pub note_deleted : Text → ServiceItem → PendingChanges → PendingChanges
note_deleted service item v = record {
  del = v.del ++ transfer service item ∷ [];
  add = rebuild_service_item_list v.add service item;
}

unfoldable pub publish_service : MemStore → Text → ServiceItem → MemStore
publish_service m service item = record m {
  services = put_item service item m.services;
  current_services = put_item service item m.current_services;
  data_to = map_values (note_published service item) m.data_to;
}

unfoldable pub delete_service : MemStore → Text → ServiceItem → MemStore
delete_service m service item = record m {
  services = remove_item service item m.services;
  current_services = remove_item service item m.current_services;
  data_to = map_values (note_deleted service item) m.data_to;
}

-- The address at which a mapping has a node of a service.
abbrev pub found : Text → Option (Map Text ServiceInfo) → Option ServiceInfo
found node none = none
found node (some p) = lookup node p

unfoldable pub addr_of : ServiceMapping → Text → Text → Option ServiceInfo
addr_of m service node = found node (lookup service m)
