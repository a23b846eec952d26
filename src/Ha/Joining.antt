-- ===== src/Ha/Joining.antt =====
-- A worker and the node that it follows, over HTTP (core.ha.go and core.ha.peertalk.go).
use nekoq_bootstrap.Base.{
  Outcome, Text, ap, codes, false, nat_key, ok, refl, some, subst, sym, text_key, true, ℕ, ◌∙◌, ◌≡◌,
}
use nekoq_bootstrap.Base.Maps.{Map, is_empty, lookup, lookup-insert_self}
use nekoq_bootstrap.Ha.Calls.{
  Reaches, WireTrips, connect_remote-ok, query_full_data_set-ok, reply_at,
}
use nekoq_bootstrap.Ha.Module.{HaModule, is_member}
use nekoq_bootstrap.Ha.Net.{
  Send, UrlLib, Wire, connect_remote, http_full, identity, inner_url_resolve, net_turn,
  query_full_data_set, turn_over,
}
use nekoq_bootstrap.Ha.Routes.{serve_cluster-auth, serve_cluster-full}
use nekoq_bootstrap.Ha.Watching.{with_time}
use nekoq_bootstrap.Ha.Worker.{
  Phase, following, full_request, main_loop, process_sync, settle, worker_turn,
}
use nekoq_bootstrap.MemStore.Convergence.{Copies, IsInSync, IsSettled}
use nekoq_bootstrap.MemStore.Copying.{FullRound, NodeTrips}
use nekoq_bootstrap.MemStore.History.{hands_full, step, step-IsSettled}
use nekoq_bootstrap.MemStore.Model.{Json, MemStore}
use nekoq_bootstrap.MemStore.Peers.{abandon, fetch_full_and_watch, full_from}
use nekoq_bootstrap.MemStore.Pending.{settled}
use nekoq_bootstrap.MemStore.Rounds.{full_converges, snapshot}
use nekoq_bootstrap.MemStore.SameDomains.{
  SameDomains, SameDomains-trans, abandon-SameDomains, full_from-SameDomains,
}

-- What a turn over the network leaves behind when it has brought the copy up to date; `m` is the store
-- of the follower before, and `s` the node that it follows.
pub record TurnSynced (me_id peer : Text) (next : Phase) (m : MemStore) (s : HaModule)
    (r : HaModule × Outcome (MemStore × Phase)) : Type 0 where
  pub store : MemStore
  pub result : r.1 ≡ ok (store, next)
  pub same_services : r.0.storage.current_services ≡ s.storage.current_services
  pub copies : Copies peer r.0.storage store
  pub in_sync : IsInSync me_id peer r.0.storage store
  pub settled_after : IsSettled r.0.storage me_id
  pub known : (t : ℕ) × (lookup me_id r.0.client_peer_mapping ≡ some t)
  pub same_name : r.0.cluster_name ≡ s.cluster_name
  pub same_secret : r.0.cluster_secret ≡ s.cluster_secret
  pub same_domains : SameDomains m store

module _ {U W B : Type 0} (lib : UrlLib U) (fqdn : Text → Text) (json : Json B) (wire : Wire W B)
    (unrouted : Text → Text → ℕ × W) (send : Send HaModule W) (trips : WireTrips wire)
    (base addr peer : Text) where
  module _ (now random : ℕ) (me s : HaModule)
      (reaches : (v : HaModule) → Reaches lib fqdn json wire unrouted now send base addr me v)
      (named : is_empty me.node_id ≡ false) (member : is_member s (identity me) ≡ true) where
    abbrev turn_of : Phase → HaModule × Outcome (MemStore × Phase)
    turn_of phase = net_turn lib fqdn wire send json me peer addr random phase s

    -- A full copy that is asked for.
    pub full_request-ok :
        (m m' : MemStore) (next : Phase) (full : Map Text B)
        → full_from json m peer full ≡ ok m'
        → full_request json peer m next (some full) ≡ ok (m', next)
    unfolding full_request process_sync settle
    full_request-ok m m' next full e = rw e refl

    full_settled :
        (m : MemStore) (round : FullRound json me.node_id peer s.storage m)
        → IsSettled s.storage me.node_id
        → IsSettled round.node_after me.node_id
    unfolding step
    full_settled m round h =
        subst (λ x. IsSettled x me.node_id) (ap (λ x. x.0) round.fetched)
          (step-IsSettled json s.storage (hands_full me.node_id) me.node_id h)

    pub full_synced :
        (next : Phase) (w : HaModule) (m : MemStore)
        (round : FullRound json me.node_id peer s.storage m)
        → IsSettled s.storage me.node_id
        → SameDomains me.storage m
        → w.cluster_name ≡ s.cluster_name
        → w.cluster_secret ≡ s.cluster_secret
        → TurnSynced me.node_id peer next me.storage s (
          record (with_time w me.node_id now) { storage = round.node_after },
          ok (round.peer_after, next),
        )
    full_synced next w m round settled same name secret = record {
      store = round.peer_after;
      result = refl;
      same_services = round.same_services;
      copies = round.copies;
      in_sync = round.in_sync;
      settled_after = full_settled m round settled;
      known = (now, lookup-insert_self me.node_id now w.client_peer_mapping);
      same_name = name;
      same_secret = secret;
      same_domains =
          SameDomains-trans me.storage m round.peer_after same
            (full_from-SameDomains json m round.peer_after peer round.full round.stored);
    }

    pub full_reply :
        (v : HaModule) (m : MemStore) (round : FullRound json me.node_id peer s.storage m)
        → v.storage ≡ s.storage
        → is_member v (identity me) ≡ true
        → reply_at lib fqdn json wire unrouted now send base addr me v (codes "GET") http_full ≡ (
          record (with_time v me.node_id now) { storage = round.node_after },
          (200, wire.marshal_map round.full),
        )
    full_reply v m round same mem =
        serve_cluster-full json wire unrouted now (identity me) v named round.node_after round.full
          mem (ap (λ x. fetch_full_and_watch json x me.node_id) same ∙ round.fetched)

    main_turn :
        (s' s'' : HaModule) (full : Map Text B) (m' : MemStore)
        → connect_remote lib fqdn wire send (record me { storage = abandon me.storage peer }) addr s
          ≡ (s', ok tt)
        → query_full_data_set lib fqdn wire send
            (record me { storage = abandon me.storage peer })
            addr
            s'
          ≡ (s'', ok (some full))
        → full_from json (abandon me.storage peer) peer full ≡ ok m'
        → turn_of main_loop ≡ (s'', ok (m', following 0 0))
    unfolding net_turn turn_over worker_turn
    main_turn s' s'' full m' c q f =
        rw c (rw q (rw (full_request-ok (abandon me.storage peer) m' (following 0 0) full f) refl))

    -- A worker at the head of its main loop joins.
    pub joins :
        inner_url_resolve lib fqdn (abandon me.storage peer) addr ≡ ok base
        → IsSettled s.storage me.node_id
        → NodeTrips json (snapshot s.storage)
        → TurnSynced me.node_id peer (following 0 0) me.storage s (turn_of main_loop)
    joins at settled nodes =
        let m = abandon me.storage peer in
        let me' : HaModule = record me { storage = m } in
        let v : HaModule = with_time s me.node_id now in
        let round = full_converges json me.node_id peer s.storage m settled nodes in
        let connected =
          connect_remote-ok lib fqdn json wire unrouted now send base addr me' s at (reaches s)
            trips v (serve_cluster-auth json wire unrouted now (identity me) s named member) in
        let full =
          query_full_data_set-ok lib fqdn json wire unrouted now send base addr me' v at (reaches v)
            trips (record (with_time v me.node_id now) { storage = round.node_after }) round.full
            (full_reply v m round refl member) in
        subst (TurnSynced me.node_id peer (following 0 0) me.storage s)
          (sym (main_turn v _ round.full round.peer_after connected full round.stored))
          (full_synced (following 0 0) v m round settled (abandon-SameDomains me.storage peer) refl
            refl)
