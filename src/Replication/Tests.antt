-- ===== src/Replication/Tests.antt =====
-- Examples of a node alone and of a node with a neighbour.
use nekoq_bootstrap.Base.{
  List, Outcome, Text, [], and_then, codes, err, false, if◌then◌else◌, nat_key, not_ok, ok, panic,
  refl, text_key, text_same, true, ℕ, ◌+◌, ◌∷◌, ◌≡◌,
}
use nekoq_bootstrap.Base.Io.{Io}
use nekoq_bootstrap.Base.Maps.{lookup}
use nekoq_bootstrap.Kv.Resp.{error_result, process_command, string_result}
use nekoq_bootstrap.Kv.Shelf.{Shelf, map_diskv, open_log, value_cbor}
use nekoq_bootstrap.Kv.Sole.{sole_put}
use nekoq_bootstrap.MemStore.Domains.{to_lower}
use nekoq_bootstrap.Replication.Client.{RedisReply, int64_reply, new_resp2_client}
use nekoq_bootstrap.Replication.Commands.{process_command-serving, serving}
use nekoq_bootstrap.Replication.NeverReady.{peer_worker_turns-never_ready}
use nekoq_bootstrap.Replication.PeerWorker.{PeerWorker, peer_worker_turns}
use nekoq_bootstrap.Replication.Protocol.{PeerCbor, replicated_put}
use nekoq_bootstrap.Replication.Puts.{entry_of_put, replicated_put-alone}
use nekoq_bootstrap.Replication.Reachable.{
  StandbyCall, has_other, initialize-new, promotes, readies, ship-alone, ships, standby_run,
  standby_step,
}
use nekoq_bootstrap.Replication.Standby.{
  SimplePrimaryStandby, SimplePrimaryStandbyConfig, initialize, is_primary,
  new_simple_primary_standby, promote, ready_node, ship, writable,
}
use nekoq_bootstrap.Wal.Replay.{start_wal_sequence}
use nekoq_bootstrap.Wal.Write.{current_sequence}

abbrev pair_config : SimplePrimaryStandbyConfig
pair_config = record {
  node_name = codes "a";
  cluster_node_map = (codes "a", codes "a:1") ∷ (codes "b", codes "b:1") ∷ [];
  has_reg_handler = true;
}

initialize-new_example : initialize (new_simple_primary_standby pair_config) ≡ (
    if true
    then (if has_other (codes "a") pair_config.cluster_node_map
        then panic
        else ok (new_simple_primary_standby pair_config))
    else panic)
initialize-new_example = initialize-new pair_config

abbrev refuses : Text → Text → Outcome (Unit {0})
refuses addr bytes = err not_ok

abbrev calls : List StandbyCall
calls = promotes ∷ readies (codes "c") ∷ ships (codes "x") ∷ []

abbrev promoted : SimplePrimaryStandby
promoted = promote (new_simple_primary_standby pair_config)

-- No node "c" is known, which is an error, and nobody is there to ship to.
calls_promote : standby_run refuses (new_simple_primary_standby pair_config) calls ≡ ok promoted
unfolding standby_run standby_step promote ready_node ship lookup text_same
    new_simple_primary_standby
calls_promote = refl

ship-alone_example :
    (ship refuses promoted (codes "x") ≡ (promoted, ok tt))
    × ((s' : SimplePrimaryStandby) → ¬ (ready_node promoted (codes "b") ≡ ok s'))
    × (writable promoted ≡ is_primary promoted.role)
ship-alone_example =
    ship-alone refuses pair_config calls (codes "x") (codes "b") promoted calls_promote

-- A peer that answers every command with the integer 1, as go-redis gives it; the network counts.
abbrev says_one : Text → List Text → Io ℕ RedisReply
says_one addr args n = (n + 1, ok (int64_reply 1))

abbrev text_log : PeerCbor
text_log = record {
  marshal_log = λ l. ok l.v;
  unmarshal_log =
      λ s. ok (record { k = codes "k"; v = s; d = false; sequence_id = start_wal_sequence });
  marshal_snapshot = λ s. ok [];
  unmarshal_snapshot = λ s. err not_ok;
}

abbrev standby : PeerWorker Shelf ℕ
standby = record {
  ready = false;
  peer = new_resp2_client (codes "b:1");
  store = (open_log, []);
  net = 0;
}

peer_worker_turns-never_ready_example :
    ((peer_worker_turns map_diskv value_cbor text_log says_one (codes "a") 5 standby).0.ready
      ≡ false)
    × ((peer_worker_turns map_diskv value_cbor text_log says_one (codes "a") 5 standby).0.store
        ≡ (open_log, []))
peer_worker_turns-never_ready_example =
    peer_worker_turns-never_ready map_diskv value_cbor text_log says_one (codes "a")
      (λ addr args n. tt) 5 standby refl

put_lowered : to_lower (codes "PuT") ≡ codes "put"
unfolding to_lower
put_lowered = refl

process_command-serving_example :
    process_command
      (serving map_diskv value_cbor text_log)
      (codes "PuT" ∷ codes "k" ∷ codes "v" ∷ [])
      ((open_log, []), promoted)
    ≡ (
      ((sole_put map_diskv value_cbor (codes "k") (codes "v") (open_log, [])).0, promoted),
      elim (sole_put map_diskv value_cbor (codes "k") (codes "v") (open_log, [])).1 [
        | ok _ ↦ ok (string_result (codes "OK"))
        | err e ↦ ok (error_result (codes "Put value failed"))
        | panic ↦ panic
      ],
    )
process_command-serving_example =
    (process_command-serving map_diskv value_cbor text_log (codes "PuT") (codes "k") (codes "v") []
        (open_log, []) promoted).0
      put_lowered

replicated_put-alone_example :
    replicated_put map_diskv value_cbor text_log refuses
      (codes "k")
      (codes "v")
      ((open_log, []), promoted)
    ≡ (
      ((sole_put map_diskv value_cbor (codes "k") (codes "v") (open_log, [])).0, promoted),
      and_then (sole_put map_diskv value_cbor (codes "k") (codes "v") (open_log, [])).1 (λ _.
          and_then
            (text_log.marshal_log (
              entry_of_put (codes "k") (codes "v") (
                current_sequence
                  (sole_put map_diskv value_cbor (codes "k") (codes "v") (open_log, [])).0.0)))
            (λ _. ok tt)),
    )
replicated_put-alone_example =
    replicated_put-alone map_diskv value_cbor text_log refuses pair_config calls (codes "k")
      (codes "v") (open_log, []) promoted calls_promote
