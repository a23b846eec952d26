-- ===== src/Replication/Puts.antt =====
-- Putting into a replicating store (internal/service/spskv.go).
use nekoq_bootstrap.Base.{
  List, Outcome, Outcome-cases, Text, [], and_then, ap, err, false, inl, inr, ok, panic, refl, ◌≡◌,
}
use nekoq_bootstrap.Base.Io.{continue}
use nekoq_bootstrap.Kv.Sole.{Cbor, Sole, sole_put}
use nekoq_bootstrap.Kv.Storage.{Diskv}
use nekoq_bootstrap.Replication.Protocol.{PeerCbor, WalLog, replicated_put}
use nekoq_bootstrap.Replication.Reachable.{StandbyCall, ship-alone, standby_run}
use nekoq_bootstrap.Replication.Standby.{
  SimplePrimaryStandby, SimplePrimaryStandbyConfig, new_simple_primary_standby, ship,
}
use nekoq_bootstrap.Wal.Names.{SequenceId}
use nekoq_bootstrap.Wal.Write.{current_sequence}

-- The entry that is shipped for a put.
abbrev pub entry_of_put : Text → Text → SequenceId → WalLog
entry_of_put k v seq = record { k = k; v = v; d = false; sequence_id = seq }

module _ {D : Type 0} (diskv : Diskv D) (cbor : Cbor) (peer_cbor : PeerCbor)
    (wal_ship : Text → Text → Outcome (Unit {0})) where
  put_shipped :
      (ps : SimplePrimaryStandby)
      → ((dat : Text) → ship wal_ship ps dat ≡ (ps, ok tt))
      → (st : Sole D) (o : Outcome Text)
      → continue {S = Sole D × SimplePrimaryStandby} o
          (λ dat y. ((st, (ship wal_ship ps dat).0), (ship wal_ship ps dat).1))
          (st, ps)
        ≡ ((st, ps), and_then o (λ dat. ok tt))
  put_shipped ps nobody st (ok dat) = ap (λ r. ((st, r.0), r.1)) (nobody dat)
  put_shipped ps nobody st (err e) = refl
  put_shipped ps nobody st panic = refl

  -- In every state that a new node can reach without a panic, whatever its role and whatever its peers would answer, a
  -- put of the replicating store changes the log and the data as a put of the store does and leaves the
  -- replicator alone; it succeeds where that put does and its entry marshals, with the position that the
  -- log then has, and fails with the error of the one that does not.
  pub replicated_put-alone :
      (c : SimplePrimaryStandbyConfig) (cs : List StandbyCall) (k v : Text) (st : Sole D)
      (ps : SimplePrimaryStandby)
      → standby_run wal_ship (new_simple_primary_standby c) cs ≡ ok ps
      → replicated_put diskv cbor peer_cbor wal_ship k v (st, ps) ≡ (
        ((sole_put diskv cbor k v st).0, ps),
        and_then (sole_put diskv cbor k v st).1 (λ _.
            and_then
              (peer_cbor.marshal_log
                (entry_of_put k v (current_sequence (sole_put diskv cbor k v st).0.0)))
              (λ _. ok tt)),
      )
  unfolding replicated_put
  replicated_put-alone c cs k v st ps e =
      let nobody : (dat : Text) → ship wal_ship ps dat ≡ (ps, ok tt) =
        λ dat. (ship-alone wal_ship c cs dat [] ps e).0 in
      elim (Outcome-cases (sole_put diskv cbor k v st).1) [
        | inl (u, x) ↦
            rw (replicated_put, x)
              (put_shipped ps nobody (sole_put diskv cbor k v st).0 (
                peer_cbor.marshal_log
                  (entry_of_put k v (current_sequence (sole_put diskv cbor k v st).0.0))))
        | inr (inl (e', x)) ↦ rw (replicated_put, x) refl
        | inr (inr x) ↦ rw (replicated_put, x) refl
      ]
