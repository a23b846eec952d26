-- ===== src/Replication/Protocol.antt =====
-- The commands between nodes (internal/replication/communication.go) and the store that replicates
-- (internal/service/spskv.go). `K` is the state of the store behind it.
use nekoq_bootstrap.Base.{
  Bool, List, Outcome, Text, [], and_then, codes, err, false, ok, panic, ◌∷◌,
}
use nekoq_bootstrap.Base.Io.{Io, continue, crash, each, ◌>>◌}
use nekoq_bootstrap.Kv.Resp.{
  CommandMapping, RespCommandHandler, RespResult, add_command_handler, error_result, int_result,
  string_result, value_result,
}
use nekoq_bootstrap.Kv.Sole.{Cbor, Sole, sole_latest_snapshot_data, sole_put}
use nekoq_bootstrap.Kv.Storage.{Diskv, Entry, Snapshot, storage_put}
use nekoq_bootstrap.Replication.Standby.{
  SimplePrimaryStandby, promote, ready_node, role_primary, role_standby, ship,
}
use nekoq_bootstrap.Wal.Names.{SequenceId}
use nekoq_bootstrap.Wal.Write.{current_sequence}

-- iface.WalLog
pub record WalLog : Type 0 where
  pub k : Text
  pub v : Text
  pub d : Bool
  pub sequence_id : SequenceId

-- SpskvSnapshotEntry
pub record SpskvSnapshotEntry : Type 0 where
  pub s : Snapshot
  pub l : List WalLog

-- github.com/fxamacker/cbor at the messages between nodes
pub record PeerCbor : Type 0 where
  pub marshal_log : WalLog → Outcome Text
  pub unmarshal_log : Text → Outcome WalLog
  pub marshal_snapshot : SpskvSnapshotEntry → Outcome Text
  pub unmarshal_snapshot : Text → Outcome SpskvSnapshotEntry

-- KVStorageAdvImpl.WalLogs and Replay are not implemented: they panic.
abbrev pub wal_logs : SequenceId → Outcome (List WalLog)
wal_logs from = panic

abbrev pub replay_logs {ℓ} : {S : Type ℓ} → List WalLog → Io S (Unit {0})
replay_logs logs s = (s, panic)

abbrev pub shipped : Outcome (Unit {0}) → Outcome RespResult
shipped (ok _) = ok (string_result (codes "OK"))
shipped (err e) = ok (error_result (codes "wal ship failed"))
shipped panic = panic

-- The answer to an error, which is logged; a panic goes on.
abbrev pub or_error_result {ℓ} :
    {S : Type ℓ} {A : Type 0} → Text → Outcome A → (A → Io S RespResult) → Io S RespResult
or_error_result msg (ok a) f s = f a s
or_error_result msg (err e) f s = (s, ok (error_result (msg)))
or_error_result msg panic f s = (s, panic)

module _ {D : Type 0} (diskv : Diskv D) (cbor : Cbor) (peer_cbor : PeerCbor) where
  unfoldable pub snapshot_supplier : Sole D → SequenceId → Outcome Text
  snapshot_supplier st seq =
      and_then (sole_latest_snapshot_data diskv cbor st seq.term) (λ snapshot.
        and_then (wal_logs snapshot.sequence_id)
          (λ logs. peer_cbor.marshal_snapshot (record { s = snapshot; l = logs })))

  unfoldable pub put_entry : Entry → Io D (Unit {0})
  put_entry e d = storage_put diskv e.k e.v d

  unfoldable pub apply_snapshot_and_incremental : Text → Io D (Unit {0})
  apply_snapshot_and_incremental dat d =
      continue (peer_cbor.unmarshal_snapshot dat)
        (λ v. do each put_entry v.s.entries; replay_logs v.l) d

  unfoldable pub apply_wal_log : Text → Io D (Unit {0})
  apply_wal_log dat d =
      continue (peer_cbor.unmarshal_log dat) (λ wal_log. replay_logs (wal_log ∷ [])) d

  -- SimplePrimaryStandbyKVStore.Put
  unfoldable pub replicated_put :
      (Text → Text → Outcome (Unit {0}))
      → Text
      → Text
      → Io (Sole D × SimplePrimaryStandby) (Unit {0})
  replicated_put wal_ship k v (st, ps) =
      let (st', o) = sole_put diskv cbor k v st in
      continue o
        (λ _ x.
          continue
            (peer_cbor.marshal_log
              (record { k = k; v = v; d = false; sequence_id = current_sequence st'.0 }))
            (λ dat y. let (ps', o') = ship wal_ship ps dat in ((st', ps'), o')) x)
        (st', ps)

  -- The handlers of Resp2SimplePrimaryStandbyHandler; a missing argument is an index out of range.
  unfoldable pub walship : List Text → Io D RespResult
  walship (name ∷ dat ∷ rest) d = let (d', o) = apply_wal_log dat d in (d', shipped o)
  walship _ d = (d, panic)

  unfoldable pub sync_and_reg : Sole D → List Text → Io SimplePrimaryStandby RespResult
  sync_and_reg st (name ∷ node ∷ id ∷ rest) =
      or_error_result (codes "sequence id invalid") (cbor.unmarshal_sequence id) (λ seq.
        or_error_result (codes "snapshot failed") (snapshot_supplier st seq) (λ dat s.
          or_error_result (codes "node could not be ready") (ready_node s node)
            (λ s' _. (s', ok (value_result dat))) s))
  sync_and_reg st _ = crash

unfoldable pub role_result : SimplePrimaryStandby → RespResult
role_result s = elim s.role [ role_primary ↦ int_result 1 | role_standby ↦ int_result 2 ]

-- The state that the commands between nodes work on: the store and the replicator.
abbrev pub Node : Type 0 → Type 0
Node D = Sole D × SimplePrimaryStandby

abbrev pub command_role : Text
command_role = codes "REPLICATOR.ROLE"

abbrev pub command_sync_and_reg : Text
command_sync_and_reg = codes "REPLICATOR.SYNC_REG"

abbrev pub command_wal_ship : Text
command_wal_ship = codes "REPLICATOR.SHIP"

abbrev pub command_promote : Text
command_promote = codes "REPLICATOR.PROMOTE"

-- Resp2SimplePrimaryStandbyHandler.Register
module _ {D : Type 0} (diskv : Diskv D) (cbor : Cbor) (peer_cbor : PeerCbor) where
  abbrev role_handler : RespCommandHandler (Node D)
  role_handler args x = (x, ok (role_result x.1))

  abbrev promote_handler : RespCommandHandler (Node D)
  promote_handler args (st, ps) = ((st, promote ps), ok (string_result (codes "OK")))

  abbrev walship_handler : RespCommandHandler (Node D)
  walship_handler args ((w, d), ps) =
      let (d', o) = walship diskv cbor peer_cbor args d in (((w, d'), ps), o)

  abbrev sync_and_reg_handler : RespCommandHandler (Node D)
  sync_and_reg_handler args (st, ps) =
      let (ps', o) = sync_and_reg diskv cbor peer_cbor st args ps in ((st, ps'), o)

  unfoldable pub register_replicator : CommandMapping (Node D) → CommandMapping (Node D)
  register_replicator mapping = add_command_handler command_promote promote_handler (
      add_command_handler command_wal_ship walship_handler (
        add_command_handler command_sync_and_reg sync_and_reg_handler
          (add_command_handler command_role role_handler mapping)))
