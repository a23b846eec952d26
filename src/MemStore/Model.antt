-- ===== src/MemStore/Model.antt =====
-- The state of `MemStore` (storage.mem.go) and the data that nodes exchange. An anonymous
-- `struct{Addr string}` is `ServiceInfo`. The lock is held through each operation, so an operation
-- is one step of the state.
use nekoq_bootstrap.Base.{Text, List, Option, Outcome}
use nekoq_bootstrap.Base.Maps.{Map}

pub record ServiceItem : Type 0 where
  pub addr : Text
  pub node_id : Text

pub record ServiceInfo : Type 0 where
  pub addr : Text

-- service name ↦ node id ↦ address
abbrev pub ServiceMapping : Type 0
ServiceMapping = Map Text (Map Text ServiceInfo)

-- A mapping that was unmarshalled: JSON may leave the outer map or an inner map nil (`none`).
abbrev pub NilableMapping : Type 0
NilableMapping = Option (Map Text (Option (Map Text ServiceInfo)))

pub record MemNodeData : Type 0 where
  pub service_mapping : NilableMapping

pub record DataTransferNodeData : Type 0 where
  pub service_name : Text
  pub node_name : Text
  pub info : ServiceInfo

-- The changes that a watching peer has not fetched yet.
pub record PendingChanges : Type 0 where
  pub add : List DataTransferNodeData
  pub del : List DataTransferNodeData

-- shared.DomainType
pub data DomainType : Type 0 where
  domain_type_a domain_type_txt domain_type_srv domain_type_ptr domain_type_aaaa : DomainType

-- dnscore.DnsStorage as `MemStore` uses a nested store: its `ResolveDomain`.
abbrev pub Resolver : Type 0
Resolver = Text → DomainType → Outcome Text

pub record MemStore : Type 0 where
  pub static_domain_mapping : Map DomainType (Map Text Text)
  pub services : ServiceMapping
  pub current_services : ServiceMapping
  pub data_from : Map Text MemNodeData
  pub data_to : Map Text PendingChanges
  pub dns_stores : List Resolver

-- encoding/json at the two types that cross the wire; `none` is an error. `B` is the type of the
-- marshalled bytes.
pub record Json (B : Type 0) : Type 0 where
  pub marshal_node_data : MemNodeData → Option B
  pub unmarshal_node_data : B → Option MemNodeData
  pub marshal_list : List DataTransferNodeData → Option B
  pub unmarshal_list : B → Option (List DataTransferNodeData)
