-- ===== src/Replication/Service.antt =====
-- SimplePrimaryStandbyKVStore (internal/service/spskv.go): the parts that it is made of, and its start.
-- `abs` is filepath.Abs, `open_diskv` is diskv.New at a folder, and `open_wal` the state of the folder of
-- the log.
use nekoq_bootstrap.Base.{Outcome, Text, and_then, err, ok, panic, true}
use nekoq_bootstrap.Base.Io.{Io, continue}
use nekoq_bootstrap.Base.Maps.{Map}
use nekoq_bootstrap.Kv.Resp.{CommandMapping, KvStorage, new_command_mapping, register_kv}
use nekoq_bootstrap.Kv.Sole.{Cbor, Sole, sole_get, sole_initialize, sole_put}
use nekoq_bootstrap.Kv.Storage.{Diskv}
use nekoq_bootstrap.Replication.Protocol.{Node, PeerCbor, register_replicator}
use nekoq_bootstrap.Replication.Standby.{initialize, new_simple_primary_standby}
use nekoq_bootstrap.Wal.Disk.{DiskWal}

pub record SimplePrimaryStandbyKvStoreConfig : Type 0 where
  pub node_name : Text
  pub cluster_node_map : Map Text Text
  pub data_folder : Text
  pub wal_folder : Text

-- The state, and the commands that the server of RESP knows.
pub record SimplePrimaryStandbyKvStore (D : Type 0) : Type 0 where
  pub node : Node D
  pub command_mapping : CommandMapping (Node D)

-- NewDiskvStroage
unfoldable pub new_diskv_storage :
    {D : Type 0} → (Text → Outcome Text) → (Text → D) → Text → Outcome D
new_diskv_storage abs open_diskv folder = and_then (abs folder) (λ f. ok (open_diskv f))

-- NewKVStorageAdv
unfoldable pub new_kv_storage_adv :
    {D : Type 0}
    → (Text → Outcome Text)
    → (Text → D)
    → (Text → DiskWal)
    → Text
    → Text
    → Outcome (Sole D)
new_kv_storage_adv abs open_diskv open_wal data_folder wal_folder =
    and_then (new_diskv_storage abs open_diskv data_folder) (λ d. ok (open_wal wal_folder, d))

module _ {D : Type 0} (diskv : Diskv D) (cbor : Cbor) (peer_cbor : PeerCbor) where
  -- What the handlers of get and put use: the store without its replication.
  abbrev pub node_kv : KvStorage (Node D)
  node_kv = record {
    put = λ k v (st, ps). (let (st', o) = sole_put diskv cbor k v st in ((st', ps), o));
    get = λ (st, ps) k. sole_get diskv cbor st k;
  }

  unfoldable pub new_simple_primary_standby_kv_store :
      (Text → Outcome Text)
      → (Text → D)
      → (Text → DiskWal)
      → SimplePrimaryStandbyKvStoreConfig
      → Outcome (SimplePrimaryStandbyKvStore D)
  new_simple_primary_standby_kv_store abs open_diskv open_wal c =
      and_then (new_kv_storage_adv abs open_diskv open_wal c.data_folder c.wal_folder) (λ kv.
        ok (record {
          node = (
            kv,
            new_simple_primary_standby (record {
              node_name = c.node_name;
              cluster_node_map = c.cluster_node_map;
              has_reg_handler = true;
            }),
          );
          command_mapping = register_kv node_kv new_command_mapping;
        }))

  -- Initialize, up to the goroutine that serves; the replicator registers its commands before it adds
  -- its peers.
  unfoldable pub initialize_replicator : Io (SimplePrimaryStandbyKvStore D) (Unit {0})
  initialize_replicator s =
      let mapping = register_replicator diskv cbor peer_cbor s.command_mapping in
      elim (initialize s.node.1) [
        | ok ps ↦ (record { node = (s.node.0, ps); command_mapping = mapping }, ok tt)
        | err e ↦ (record s { command_mapping = mapping }, err e)
        | panic ↦ (record s { command_mapping = mapping }, panic)
      ]

  unfoldable pub initialize_kv_store : Io (SimplePrimaryStandbyKvStore D) (Unit {0})
  initialize_kv_store s =
      let (st, o) = sole_initialize diskv cbor s.node.0 in
      continue o (λ _. initialize_replicator) (record s { node = (st, s.node.1) })
