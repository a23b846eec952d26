-- ===== src/MemStore/Peers.antt =====
-- The high-availability side of storage.mem.go: what a node takes from its peers (FullFrom,
-- SyncFrom, Abandon) and what it hands to them (FetchFullAndWatch, FetchChangesForPeerNodeRequest,
-- Unwatch). Both maps that cross the wire have the one key `__default__`.
use nekoq_bootstrap.Base.{
  Text, codes, List, [], ◌∷◌, Option, none, some, Error, Outcome, ok, err, panic, ◌>>=◌, text_key,
  no_data_found, no_add_data_found, no_del_data_found, node_not_exist, node_not_registered,
  marshal_failed, external, if◌then◌else◌,
}
use nekoq_bootstrap.Base.Maps.{Map, lookup, insert, delete, is_empty, map_values}
use nekoq_bootstrap.MemStore.Model.{
  ServiceInfo, ServiceMapping, NilableMapping, MemNodeData, DataTransferNodeData, PendingChanges,
  MemStore, Json,
}
use nekoq_bootstrap.MemStore.Services.{sub_map}

-- A nil map ranges and reads like an empty one.
abbrev pub entries {ℓ} : {A : Type ℓ} → Option (List A) → List A
entries none = []
entries (some m) = m

unfoldable pub copy_inner : Map Text ServiceInfo → Map Text ServiceInfo → Map Text ServiceInfo
copy_inner [] sub = sub
copy_inner ((i, j) ∷ v) sub = copy_inner v (insert i j sub)

unfoldable pub copy_map : Map Text (Option (Map Text ServiceInfo)) → ServiceMapping → ServiceMapping
copy_map [] dst = dst
copy_map ((k, v) ∷ src) dst = copy_map src (insert k (copy_inner (entries v) (sub_map k dst)) dst)

unfoldable pub copy_all : Map Text MemNodeData → ServiceMapping → ServiceMapping
copy_all [] dst = dst
copy_all ((node, v) ∷ rest) dst = copy_all rest (copy_map (entries v.service_mapping) dst)

-- The goroutine is waited for, so it is a call.
unfoldable pub build_mem_data : MemStore → MemStore
build_mem_data m = record m {
  services = copy_all m.data_from (copy_map (map_values some m.current_services) []);
}

abbrev pub default_data_key : Text
default_data_key = codes "__default__"

abbrev pub or_fail {ℓ} : {A : Type ℓ} → Option A → Error → Outcome A
or_fail none e = err e
or_fail (some a) e = ok a

abbrev pub json_error : Error
json_error = external (codes "json")

-- One turn of the `delete` loop of SyncFrom, at what the outer map has under the service name.
unfoldable pub delete_transfer :
    DataTransferNodeData
    → Option (Option (Map Text ServiceInfo))
    → Map Text (Option (Map Text ServiceInfo))
    → Map Text (Option (Map Text ServiceInfo))
delete_transfer v none m = m
delete_transfer v (some none) m = delete v.service_name m
delete_transfer v (some (some p)) m =
    let p' = delete v.node_name p in
    if is_empty p' then delete v.service_name m else insert v.service_name (some p') m

-- One turn of its `add` loop; a write to a nil inner map panics.
unfoldable pub add_transfer :
    DataTransferNodeData
    → Option (Option (Map Text ServiceInfo))
    → Map Text (Option (Map Text ServiceInfo))
    → Outcome (Map Text (Option (Map Text ServiceInfo)))
add_transfer v none m = ok (insert v.service_name (some (insert v.node_name v.info [])) m)
add_transfer v (some none) m = panic
add_transfer v (some (some p)) m = ok (insert v.service_name (some (insert v.node_name v.info p)) m)

unfoldable pub sync_delete : List DataTransferNodeData → NilableMapping → NilableMapping
sync_delete [] mapping = mapping
sync_delete (v ∷ ddata) none = sync_delete ddata none
sync_delete (v ∷ ddata) (some m) =
    sync_delete ddata (some (delete_transfer v (lookup v.service_name m) m))

-- A write to a nil outer map panics too.
unfoldable pub sync_add : List DataTransferNodeData → NilableMapping → Outcome NilableMapping
sync_add [] mapping = ok mapping
sync_add (v ∷ adata) none = panic
sync_add (v ∷ adata) (some m) =
    add_transfer v (lookup v.service_name m) m >>= λ m'. sync_add adata (some m')

abbrev pub no_changes : PendingChanges
no_changes = record { add = []; del = [] }

unfoldable pub add_watch : MemStore → Text → MemStore
add_watch m node = elim (lookup node m.data_to) [
  | none ↦ record m { data_to = insert node no_changes m.data_to }
  | some _ ↦ m
]

module _ {B : Type 0} (json : Json B) where
  unfoldable pub full_from : MemStore → Text → Map Text B → Outcome MemStore
  full_from m node payload = do
    d ← or_fail (lookup default_data_key payload) no_data_found
    dat ← or_fail (json.unmarshal_node_data d) json_error
    ok (build_mem_data (record m { data_from = insert node dat m.data_from }))

  unfoldable pub sync_from : MemStore → Text → Text → Map Text B → Map Text B → Outcome MemStore
  sync_from m node orig_node add del = do
    ad ← or_fail (lookup default_data_key add) no_add_data_found
    adata ← or_fail (json.unmarshal_list ad) json_error
    dd ← or_fail (lookup default_data_key del) no_del_data_found
    ddata ← or_fail (json.unmarshal_list dd) json_error
    mapping ← or_fail (lookup node m.data_from) node_not_exist
    mapping' ← sync_add adata (sync_delete ddata mapping.service_mapping)
    ok (
        build_mem_data (record m {
          data_from = insert node (record { service_mapping = mapping' }) m.data_from;
        }))

  -- The state comes back beside the result: the watch is added before the data is marshalled.
  unfoldable pub fetch_full_and_watch : MemStore → Text → MemStore × Outcome (Map Text B)
  fetch_full_and_watch m node =
      let md : MemNodeData = record {
        service_mapping = some (map_values some m.current_services);
      } in
      (
        add_watch m node,
        (or_fail (json.marshal_node_data md) json_error >>= λ content.
            ok ((default_data_key, content) ∷ [])),
      )

  unfoldable pub fetch_changes_for_peer_node_request :
      MemStore → Text → MemStore × Outcome (Map Text B × Map Text B)
  fetch_changes_for_peer_node_request m node = elim (lookup node m.data_to) [
    | none ↦ (m, err node_not_registered)
    | some s ↦ elim (json.marshal_list s.add) [
      | none ↦ (m, err marshal_failed)
      | some ad ↦ elim (json.marshal_list s.del) [
        | none ↦ (m, err marshal_failed)
        | some dd ↦ (
          record m { data_to = insert node no_changes m.data_to },
          ok ((default_data_key, ad) ∷ [], (default_data_key, dd) ∷ []),
        )
      ]
    ]
  ]

unfoldable pub abandon : MemStore → Text → MemStore
abandon m node = elim (lookup node m.data_from) [
  | none ↦ m
  | some _ ↦ build_mem_data (record m { data_from = delete node m.data_from })
]

unfoldable pub unwatch : MemStore → Text → MemStore
unwatch m node = record m { data_to = delete node m.data_to }
