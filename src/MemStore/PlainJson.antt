-- ===== src/MemStore/PlainJson.antt =====
-- An encoding for examples, whose bytes are the values (encoding/json in storage.mem.go).
use nekoq_bootstrap.Base.{List, Option, none, refl, some}
use nekoq_bootstrap.MemStore.Copying.{ListTrips, NodeTrips}
use nekoq_bootstrap.MemStore.Model.{DataTransferNodeData, Json, MemNodeData}

pub data Bytes : Type 0 where
  node_bytes : MemNodeData → Bytes
  list_bytes : List DataTransferNodeData → Bytes

abbrev pub as_node : Bytes → Option MemNodeData
as_node (node_bytes d) = some d
as_node (list_bytes l) = none

abbrev pub as_list : Bytes → Option (List DataTransferNodeData)
as_list (node_bytes d) = none
as_list (list_bytes l) = some l

abbrev pub plain_json : Json Bytes
plain_json = record {
  marshal_node_data = λ d. some (node_bytes d);
  unmarshal_node_data = as_node;
  marshal_list = λ l. some (list_bytes l);
  unmarshal_list = as_list;
}

abbrev pub trips_node : (d : MemNodeData) → NodeTrips plain_json d
trips_node d = (node_bytes d, refl, refl)

abbrev pub trips_list : (l : List DataTransferNodeData) → ListTrips plain_json l
trips_list l = (list_bytes l, refl, refl)
