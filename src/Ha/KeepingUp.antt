-- ===== src/Ha/KeepingUp.antt =====
-- A worker in its inner loop and the node that it follows, over HTTP (core.ha.go and
-- core.ha.peertalk.go).
use nekoq_bootstrap.Base.{
  Outcome, Text, ap, false, if◌then◌else◌, ltb, nat_key, none, ok, refl, some, subst, sym, text_key,
  true, ℕ, ◌%◌, ◌+◌, ◌≡◌,
}
use nekoq_bootstrap.Base.Maps.{Map, is_empty, lookup, lookup-insert_self}
use nekoq_bootstrap.Ha.Calls.{
  Reaches, WireTrips, query_full_data_set-ok, query_incremental_data-ok,
  query_incremental_data-refused,
}
use nekoq_bootstrap.Ha.Joining.{TurnSynced, full_reply, full_request-ok, full_synced}
use nekoq_bootstrap.Ha.Module.{HaModule, is_member}
use nekoq_bootstrap.Ha.Net.{
  Send, UrlLib, Wire, identity, inner_url_resolve, net_turn, query_full_data_set,
  query_incremental_data, turn_over,
}
use nekoq_bootstrap.Ha.Routes.{serve_cluster-incremental, serve_cluster-unknown}
use nekoq_bootstrap.Ha.Watching.{with_time}
use nekoq_bootstrap.Ha.Worker.{Phase, following, main_loop, process_sync, settle, worker_turn}
use nekoq_bootstrap.MemStore.Convergence.{IsInSync, IsSettled}
use nekoq_bootstrap.MemStore.Copying.{IncrementalRound, ListTrips, NodeTrips}
use nekoq_bootstrap.MemStore.History.{hands_changes, step, step-IsSettled}
use nekoq_bootstrap.MemStore.Model.{Json, MemStore}
use nekoq_bootstrap.MemStore.Peers.{full_from, sync_from}
use nekoq_bootstrap.MemStore.Pending.{settled}
use nekoq_bootstrap.MemStore.Rounds.{full_converges, incremental_converges, snapshot}
use nekoq_bootstrap.MemStore.SameDomains.{sync_from-SameDomains}

module _ {U W B : Type 0} (lib : UrlLib U) (fqdn : Text → Text) (json : Json B) (wire : Wire W B)
    (unrouted : Text → Text → ℕ × W) (send : Send HaModule W) (trips : WireTrips wire)
    (base addr peer : Text) where
  module _ (now random : ℕ) (me s : HaModule)
      (reaches : (v : HaModule) → Reaches lib fqdn json wire unrouted now send base addr me v)
      (named : is_empty me.node_id ≡ false) (member : is_member s (identity me) ≡ true) where
    abbrev turn_of : Phase → HaModule × Outcome (MemStore × Phase)
    turn_of phase = net_turn lib fqdn wire send json me peer addr random phase s

    changes_settled :
        (m : MemStore) (round : IncrementalRound json me.node_id peer s.storage m)
        → IsSettled s.storage me.node_id
        → IsSettled round.node_after me.node_id
    unfolding step
    changes_settled m round h =
        subst (λ x. IsSettled x me.node_id) (ap (λ x. x.0) round.fetched)
          (step-IsSettled json s.storage (hands_changes me.node_id) me.node_id h)

    module _ (q r : ℕ) (at : inner_url_resolve lib fqdn me.storage addr ≡ ok base) where
      full_turn :
          (s' : HaModule) (full : Map Text B) (m' : MemStore)
          → ltb q (random % 20 + 590) ≡ false
          → query_full_data_set lib fqdn wire send me addr s ≡ (s', ok (some full))
          → full_from json me.storage peer full ≡ ok m'
          → turn_of (following q r) ≡ (s', ok (m', following 0 r))
      unfolding net_turn turn_over worker_turn
      full_turn s' full m' late e f = rw late (
          rw e (
            rw
              (full_request-ok lib fqdn json wire unrouted send trips base addr peer now random me s
                reaches named member me.storage m' (following 0 r) full f)
              (rw late refl)))

      changes_turn :
          (s' : HaModule) (add del : Map Text B) (m' : MemStore)
          → ltb q (random % 20 + 590) ≡ true
          → query_incremental_data lib fqdn wire send me addr s ≡ (s', ok (some add, some del))
          → sync_from json me.storage peer peer add del ≡ ok m'
          → turn_of (following q r) ≡ (s', ok (m', following (q + 1) 0))
      unfolding net_turn turn_over worker_turn process_sync settle
      changes_turn s' add del m' early e f = rw early (rw e (rw f (rw early refl)))

      -- A worker that has asked for changes often enough asks for a full copy again.
      pub refreshes :
          ltb q (random % 20 + 590) ≡ false
          → IsSettled s.storage me.node_id
          → NodeTrips json (snapshot s.storage)
          → TurnSynced me.node_id peer (following 0 r) me.storage s (turn_of (following q r))
      refreshes late settled nodes =
          let round = full_converges json me.node_id peer s.storage me.storage settled nodes in
          let full =
            query_full_data_set-ok lib fqdn json wire unrouted now send base addr me s at
              (reaches s) trips (record (with_time s me.node_id now) { storage = round.node_after })
              round.full
              (full_reply lib fqdn json wire unrouted send trips base addr peer now random me s
                reaches named member s me.storage round refl member) in
          subst (TurnSynced me.node_id peer (following 0 r) me.storage s)
            (sym (full_turn _ round.full round.peer_after late full round.stored))
            (full_synced lib fqdn json wire unrouted send trips base addr peer now random me s
              reaches named member (following 0 r) s me.storage round settled (refl, refl) refl
              refl)

      -- A worker in its inner loop takes the changes of a node that knows it.
      pub keeps_up :
          (t : ℕ) (h : IsInSync me.node_id peer s.storage me.storage)
          → IsSettled s.storage me.node_id
          → ltb q (random % 20 + 590) ≡ true
          → lookup me.node_id s.client_peer_mapping ≡ some t
          → ListTrips json h.pending.add
          → ListTrips json h.pending.del
          → TurnSynced me.node_id peer (following (q + 1) 0) me.storage s (turn_of (following q r))
      keeps_up t h settled early known adds dels =
          let round = incremental_converges json me.node_id peer s.storage me.storage h adds dels in
          let changes =
            query_incremental_data-ok lib fqdn json wire unrouted now send base addr me s at
              (reaches s) trips (record (with_time s me.node_id now) { storage = round.node_after })
              round.add round.del
              (serve_cluster-incremental json wire unrouted now (identity me) s named t
                round.node_after round.add round.del member known round.fetched) in
          subst (TurnSynced me.node_id peer (following (q + 1) 0) me.storage s)
            (sym (changes_turn _ round.add round.del round.peer_after early changes round.synced))
            (record {
              store = round.peer_after;
              result = refl;
              same_services = round.same_services;
              copies = round.copies;
              in_sync = round.in_sync;
              settled_after = changes_settled me.storage round settled;
              known = (now, lookup-insert_self me.node_id now s.client_peer_mapping);
              same_name = refl;
              same_secret = refl;
              same_domains =
                  sync_from-SameDomains json me.storage round.peer_after peer peer round.add
                    round.del round.synced;
            })

      -- A node that does not know the worker refuses to give changes, and the worker tries again, up to
      -- ten times.
      pub stumbles :
          ltb q (random % 20 + 590) ≡ true
          → lookup me.node_id s.client_peer_mapping ≡ none
          → turn_of (following q r)
            ≡ (s, ok (me.storage, (if ltb 10 (r + 1) then main_loop else following q (r + 1))))
      unfolding net_turn turn_over worker_turn
      stumbles early unknown =
          let refused =
            query_incremental_data-refused lib fqdn json wire unrouted now send base addr me s at
              (reaches s) trips 500 wire.no_body refl
              (serve_cluster-unknown json wire unrouted now (identity me) s named unknown) in
          rw early (rw refused (rw early refl))
