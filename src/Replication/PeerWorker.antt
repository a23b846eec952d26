-- ===== src/Replication/PeerWorker.antt =====
-- SimplePrimaryStandby.peerWorker (internal/replication/simpleps.go): a standby that follows the primary
-- among its peers.
use nekoq_bootstrap.Base.{
  Bool, List, Option, Outcome, Text, err, false, if◌then◌else◌, none, ok, panic, some, suc, true,
  zero, ℕ,
}
use nekoq_bootstrap.Base.Io.{Io, continue}
use nekoq_bootstrap.Kv.Sole.{Cbor, Sole, current_position}
use nekoq_bootstrap.Kv.Storage.{Diskv}
use nekoq_bootstrap.Replication.Client.{RedisReply, Resp2Client, do_connect, sync_and_register}
use nekoq_bootstrap.Replication.Protocol.{PeerCbor, apply_snapshot_and_incremental}
use nekoq_bootstrap.Replication.Standby.{ReplicatorRole, role_primary, role_standby}

-- `ready` is the variable of the loop, `peer` its entry of cluster.peers.
pub record PeerWorker (D N : Type 0) : Type 0 where
  pub ready : Bool
  pub peer : Resp2Client
  pub store : Sole D
  pub net : N

module _ {D N : Type 0} (diskv : Diskv D) (cbor : Cbor) (peer_cbor : PeerCbor)
    (exchange : Text → List Text → Io N RedisReply) (node_name : Text) where
  -- peerAlive: the role of a peer that is connected; an error is logged.
  unfoldable pub peer_alive : Io (PeerWorker D N) (Option ReplicatorRole)
  peer_alive w =
      let ((peer', net'), o) = do_connect exchange (w.peer, w.net) in
      let w' = record w { peer = peer'; net = net' } in
      elim o [ ok r ↦ (w', ok (some r)) | err e ↦ (w', ok none) | panic ↦ (w', panic) ]

  unfoldable pub apply_data : Text → Io (PeerWorker D N) (Unit {0})
  apply_data dat w =
      let (d', o) = apply_snapshot_and_incremental diskv cbor peer_cbor dat w.store.1 in
      (record w { store = (w.store.0, d') }, o)

  unfoldable pub do_sync_and_register : Io (PeerWorker D N) (Unit {0})
  do_sync_and_register w =
      continue (current_position diskv cbor w.store)
        (λ cur_id w'.
          let (net', o) = sync_and_register exchange cbor w'.peer.addr cur_id node_name w'.net in
          continue o (λ dat. apply_data dat) (record w' { net = net' }))
        w

  -- An error is logged, and the node is ready only after a sync that succeeded.
  abbrev synced : PeerWorker D N × Outcome (Unit {0}) → PeerWorker D N × Outcome (Unit {0})
  synced (w, ok _) = (record w { ready = true }, ok tt)
  synced (w, err e) = (w, ok tt)
  synced (w, panic) = (w, panic)

  -- The body of the loop, but for the sleeping.
  unfoldable pub peer_worker : Io (PeerWorker D N) (Unit {0})
  peer_worker w =
      let (w', o) = peer_alive w in
      let sync = synced (do_sync_and_register w') in
      elim o [
        | ok none ↦ (record w' { ready = false }, ok tt)
        | ok (some role_standby) ↦ (w', ok tt)
        | ok (some role_primary) ↦ (if w'.ready then (w', ok tt) else sync)
        | err e ↦ (w', err e)
        | panic ↦ (w', panic)
      ]

  -- Turns of the loop, up to a panic, which ends the program.
  unfoldable pub peer_worker_turns : ℕ → Io (PeerWorker D N) (Unit {0})
  peer_worker_turns zero w = (w, ok tt)
  peer_worker_turns (suc k) w =
      continue (peer_worker w).1 (λ _. peer_worker_turns k) (peer_worker w).0
