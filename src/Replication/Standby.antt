-- ===== src/Replication/Standby.antt =====
-- internal/replication/simpleps.go. A map that the code never makes is nil (`none`): a read finds
-- nothing in it and a write panics. A client of a peer is its address.
use nekoq_bootstrap.Base.{
  Bool, Option, Outcome, Text, [], err, false, if◌then◌else◌, nat_key, nat_same, node_not_found,
  none, ok, panic, some, text_key, true, ℕ, ◌&&◌, ◌+◌, ◌-◌, ◌==◌, ◌>>=◌, ◌∷◌,
}
use nekoq_bootstrap.Base.Maps.{Map, delete, insert, lookup}

-- iface.ReplicatorRole
pub data ReplicatorRole : Type 0 where
  role_primary role_standby : ReplicatorRole

pub record SimplePrimaryStandbyConfig : Type 0 where
  pub node_name : Text
  pub cluster_node_map : Map Text Text
  -- RegHandler is not nil.
  pub has_reg_handler : Bool

pub record SimplePrimaryStandby : Type 0 where
  pub config : SimplePrimaryStandbyConfig
  pub role : ReplicatorRole
  pub cluster_peers : Option (Map Text Text)
  pub cluster_size : ℕ
  pub ready_node_count : ℕ
  pub standby_peers : Option (Map Text Text)

unfoldable pub new_simple_primary_standby : SimplePrimaryStandbyConfig → SimplePrimaryStandby
new_simple_primary_standby config = record {
  config = config;
  role = role_standby;
  cluster_peers = none;
  cluster_size = 0;
  ready_node_count = 0;
  standby_peers = none;
}

abbrev pub is_primary : ReplicatorRole → Bool
is_primary role_primary = true
is_primary role_standby = false

unfoldable pub writable : SimplePrimaryStandby → Bool
writable s = is_primary s.role && nat_same s.ready_node_count s.cluster_size

-- m[k] = v of a map that may be nil
abbrev pub insert_nilable : Text → Text → Option (Map Text Text) → Outcome (Map Text Text)
insert_nilable k v none = panic
insert_nilable k v (some m) = ok (insert k v m)

-- The loop of Initialize, which also starts a worker for each peer.
unfoldable pub add_peers : Map Text Text → SimplePrimaryStandby → Outcome SimplePrimaryStandby
add_peers [] s = ok s
add_peers ((k, addr) ∷ nodes) s =
    if k == s.config.node_name
    then add_peers nodes s
    else (insert_nilable k addr s.cluster_peers >>= λ peers.
        add_peers nodes
          (record s { cluster_size = s.cluster_size + 1; cluster_peers = some peers }))

-- Register calls RegHandler for each command, which panics for a nil one; the commands that another
-- one is given are `register_replicator` of Replication/Protocol.antt.
unfoldable pub initialize : SimplePrimaryStandby → Outcome SimplePrimaryStandby
initialize s = if s.config.has_reg_handler then add_peers s.config.cluster_node_map s else panic

abbrev pub lookup_nilable : Text → Option (Map Text Text) → Option Text
lookup_nilable k none = none
lookup_nilable k (some m) = lookup k m

unfoldable pub ready_node : SimplePrimaryStandby → Text → Outcome SimplePrimaryStandby
ready_node s node = elim (lookup_nilable node s.standby_peers) [
  | some _ ↦ ok s
  | none ↦ elim (lookup node s.config.cluster_node_map) [
    | none ↦ err node_not_found
    | some addr ↦
        (insert_nilable node addr s.standby_peers >>= λ peers.
        ok (record s { standby_peers = some peers; ready_node_count = s.ready_node_count + 1 }))
  ]
]

unfoldable pub promote : SimplePrimaryStandby → SimplePrimaryStandby
promote s = record s { role = role_primary }

-- The node at which the loop of Ship stops, with what its client came to; `wal_ship` is the client's call.
unfoldable pub first_failure :
    (Text → Text → Outcome (Unit {0})) → Text → Map Text Text → Option (Text × Outcome (Unit {0}))
first_failure wal_ship bytes [] = none
first_failure wal_ship bytes ((node, addr) ∷ peers) =
    let rest = first_failure wal_ship bytes peers in
    elim (wal_ship addr bytes) [
      | ok _ ↦ rest
      | err e ↦ some (node, err e)
      | panic ↦ some (node, panic)
    ]

abbrev without_node : SimplePrimaryStandby → Text → Map Text Text → SimplePrimaryStandby
without_node s node peers = record s {
  ready_node_count = s.ready_node_count - 1;
  standby_peers = some (delete node peers);
}

unfoldable pub ship :
    (Text → Text → Outcome (Unit {0}))
    → SimplePrimaryStandby
    → Text
    → SimplePrimaryStandby × Outcome (Unit {0})
ship wal_ship s bytes = elim s.standby_peers [
  | none ↦ (s, ok tt)
  | some peers ↦ elim (first_failure wal_ship bytes peers) [
    | none ↦ (s, ok tt)
    | some (node, o) ↦ elim o [
      | ok _ ↦ (s, ok tt)
      | err e ↦ (without_node s node peers, err e)
      | panic ↦ (s, panic)
    ]
  ]
]
