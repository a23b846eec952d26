-- ===== src/Ha/Session.antt =====
-- A node and a worker that follows it, over any stretch of time (core.ha.go, core.ha.peertalk.go and
-- storage.mem.go).
use mathlib.Core.Path.{ap₂}
use nekoq_bootstrap.Base.{
  Bool-cases, List, Outcome, Text, [], err, false, inl, inr, ltb, nat_key, ok, panic, refl, some,
  subst, sym, text_key, true, ℕ, ◌%◌, ◌&&◌, ◌+◌, ◌==◌, ◌∙◌, ◌∷◌, ◌≡◌,
}
use nekoq_bootstrap.Base.Maps.{is_empty, lookup}
use nekoq_bootstrap.Ha.Calls.{Reaches, WireTrips, inner_url_resolve-SameDomains}
use nekoq_bootstrap.Ha.Joining.{TurnSynced, joins}
use nekoq_bootstrap.Ha.KeepingUp.{keeps_up, refreshes}
use nekoq_bootstrap.Ha.Module.{HaModule, is_member}
use nekoq_bootstrap.Ha.Net.{Send, UrlLib, Wire, identity, inner_url_resolve, net_turn}
use nekoq_bootstrap.Ha.Worker.{Phase, following, main_loop, waiting}
use nekoq_bootstrap.MemStore.Convergence.{Copies, IsInSync, IsSettled}
use nekoq_bootstrap.MemStore.Copying.{ListTrips, NodeTrips}
use nekoq_bootstrap.MemStore.History.{Call, step, step-IsSettled}
use nekoq_bootstrap.MemStore.Model.{DataTransferNodeData, Json, MemNodeData, MemStore}
use nekoq_bootstrap.MemStore.Peers.{abandon}
use nekoq_bootstrap.MemStore.Resync.{Spares, step-IsInSync}
use nekoq_bootstrap.MemStore.Rounds.{snapshot}
use nekoq_bootstrap.MemStore.SameDomains.{SameDomains, abandon-SameDomains}

-- The followed node, and the store and the phase of the worker.
pub record Session : Type 0 where
  pub node : HaModule
  pub store : MemStore
  pub phase : Phase

-- A turn of the worker at a time and with a random number, or a call that the store of the node gets.
pub data Event (B : Type 0) : Type 0 where
  turns : ℕ → ℕ → Event B
  at_node : Call B → Event B

abbrev pub after_turn : Session → HaModule × Outcome (MemStore × Phase) → Session
after_turn st (s', ok (m, phase)) = record { node = s'; store = m; phase = phase }
after_turn st (s', err e) = record { node = s'; store = st.store; phase = waiting }
after_turn st (s', panic) = record { node = s'; store = st.store; phase = waiting }

abbrev pub EventSpares : {B : Type 0} → Text → Event B → Type 0
EventSpares id (turns now random) = Unit {0}
EventSpares id (at_node c) = Spares id c

abbrev pub AllEventsSpare : {B : Type 0} → Text → List (Event B) → Type 0
AllEventsSpare id [] = Unit {0}
AllEventsSpare id (e ∷ es) = EventSpares id e × AllEventsSpare id es

module _ {U W B : Type 0} (lib : UrlLib U) (fqdn : Text → Text) (json : Json B) (wire : Wire W B)
    (send : ℕ → Send HaModule W) (me : HaModule) (addr peer : Text) where
  -- The worker's module with the store of the session.
  abbrev pub self : Session → HaModule
  self st = record me { storage = st.store }

  abbrev pub turn_at : Session → ℕ → ℕ → Phase → HaModule × Outcome (MemStore × Phase)
  turn_at st now random phase =
      net_turn lib fqdn wire (send now) json (self st) peer addr random phase st.node

  unfoldable pub session_step : Session → Event B → Session
  session_step st (turns now random) = after_turn st (turn_at st now random st.phase)
  session_step st (at_node c) = record st {
    node = record st.node { storage = step json st.node.storage c };
  }

  unfoldable pub session_run : Session → List (Event B) → Session
  session_run st [] = st
  session_run st (e ∷ es) = session_run (session_step st e) es

  -- The worker is in its inner loop, and the pending changes of the node bring its copy up to date.
  pub record IsFollowing (base : Text) (st : Session) : Type 0 where
    pub query_count : ℕ
    pub retry_cnt : ℕ
    pub in_loop : st.phase ≡ following query_count retry_cnt
    pub in_sync : IsInSync me.node_id peer st.node.storage st.store
    pub settled : IsSettled st.node.storage me.node_id
    pub known : (t : ℕ) × (lookup me.node_id st.node.client_peer_mapping ≡ some t)
    pub member : is_member st.node (identity me) ≡ true
    pub found_at : inner_url_resolve lib fqdn st.store addr ≡ ok base

  -- What holds after a turn that has brought the copy up to date.
  abbrev pub UpToDate : Text → Session → Type 0
  UpToDate base st = IsFollowing base st × Copies peer st.node.storage st.store

  module _ (base : Text) (unrouted : Text → Text → ℕ × W) (trips : WireTrips wire)
      (nodes : (d : MemNodeData) → NodeTrips json d)
      (lists : (l : List DataTransferNodeData) → ListTrips json l)
      (reaches : (now : ℕ) (m : MemStore) (v : HaModule)
        → Reaches lib fqdn json wire unrouted now
            (send now)
            base
            addr
            (record me { storage = m })
            v)
      (named : is_empty me.node_id ≡ false) where
    -- The address is resolved through the domains of the store.
    same_base :
        (m m' : MemStore)
        → SameDomains m m'
        → inner_url_resolve lib fqdn m addr ≡ ok base
        → inner_url_resolve lib fqdn m' addr ≡ ok base
    same_base m m' same at = inner_url_resolve-SameDomains lib fqdn m m' addr same ∙ at

    pub followed :
        (st : Session) (q r : ℕ) (res : HaModule × Outcome (MemStore × Phase))
        → is_member st.node (identity me) ≡ true
        → inner_url_resolve lib fqdn st.store addr ≡ ok base
        → TurnSynced me.node_id peer (following q r) st.store st.node res
        → UpToDate base (after_turn st res)
    followed st q r (s', o) member at t =
        subst (λ o'. UpToDate base (after_turn st (s', o'))) (sym t.result)
          (
            record {
              query_count = q;
              retry_cnt = r;
              in_loop = refl;
              in_sync = t.in_sync;
              settled = t.settled_after;
              known = t.known;
              member =
                  ap₂ (λ name secret. me.cluster_name == name && me.cluster_secret == secret)
                    t.same_name t.same_secret
                  ∙ member;
              found_at = same_base st.store t.store t.same_domains at;
            },
            t.copies,
          )

    -- The first turn of a worker.
    pub joined :
        (st : Session) (now random : ℕ)
        → st.phase ≡ main_loop
        → is_member st.node (identity me) ≡ true
        → IsSettled st.node.storage me.node_id
        → inner_url_resolve lib fqdn st.store addr ≡ ok base
        → UpToDate base (session_step st (turns now random))
    unfolding session_step
    joined st now random at_main member settled at =
        followed st 0 0 (turn_at st now random st.phase) member at (
          subst
            (λ ph.
              TurnSynced me.node_id peer (following 0 0) st.store st.node
                (turn_at st now random ph))
            (sym at_main)
            (joins lib fqdn json wire unrouted (send now) trips base addr peer now random (self st)
              st.node (reaches now st.store) named member
              (same_base st.store (abandon st.store peer) (abandon-SameDomains st.store peer) at)
              settled (nodes (snapshot st.node.storage))))

    -- A later turn, at the phase that it finds.
    kept_at :
        (st : Session) (now random q r : ℕ)
        → IsFollowing base st
        → UpToDate base (after_turn st (turn_at st now random (following q r)))
    kept_at st now random q r f = elim (Bool-cases (ltb q (random % 20 + 590))) [
      | inl early ↦ followed st (q + 1) 0 _ f.member f.found_at (
          keeps_up lib fqdn json wire unrouted (send now) trips base addr peer now random (self st)
            st.node (reaches now st.store) named f.member q r f.found_at f.known.0 f.in_sync
            f.settled early f.known.1 (lists f.in_sync.pending.add) (lists f.in_sync.pending.del))
      | inr late ↦ followed st 0 r _ f.member f.found_at (
          refreshes lib fqdn json wire unrouted (send now) trips base addr peer now random (self st)
            st.node (reaches now st.store) named f.member q r f.found_at late f.settled
            (nodes (snapshot st.node.storage)))
    ]

    pub kept_turn :
        (st : Session) (now random : ℕ)
        → IsFollowing base st
        → UpToDate base (session_step st (turns now random))
    unfolding session_step
    kept_turn st now random f =
        subst (λ ph. UpToDate base (after_turn st (turn_at st now random ph))) (sym f.in_loop)
          (kept_at st now random f.query_count f.retry_cnt f)

    step-IsFollowing :
        (st : Session) (e : Event B)
        → EventSpares me.node_id e
        → IsFollowing base st
        → IsFollowing base (session_step st e)
    step-IsFollowing st (turns now random) sp f = (kept_turn st now random f).0
    step-IsFollowing st (at_node c) sp f =
        unfold session_step in
        record {
          query_count = f.query_count;
          retry_cnt = f.retry_cnt;
          in_loop = f.in_loop;
          in_sync = step-IsInSync json c sp f.in_sync;
          settled = step-IsSettled json st.node.storage c me.node_id f.settled;
          known = f.known;
          member = f.member;
          found_at = f.found_at;
        }

    run-IsFollowing :
        (st : Session) (es : List (Event B))
        → AllEventsSpare me.node_id es
        → IsFollowing base st
        → IsFollowing base (session_run st es)
    unfolding session_run
    run-IsFollowing st [] sp f = f
    run-IsFollowing st (e ∷ es) (sp, sps) f =
        run-IsFollowing (session_step st e) es sps (step-IsFollowing st e sp f)

    -- A worker at the head of its main loop, a member of the cluster of a node at whose address it reaches
    -- it, follows the node from its first turn on: after any further turns and calls of the node's
    -- store, none of which hands the worker's changes to another or drops its watch, a turn ends with
    -- the worker in its inner loop and its copy equal to what the node publishes. The encodings give
    -- back what they were given, every request reaches the node, and what was pending for the worker
    -- at first agrees with what the node publishes.
    pub session_follows :
        (st : Session) (es : List (Event B)) (first random now random' : ℕ)
        → st.phase ≡ main_loop
        → is_member st.node (identity me) ≡ true
        → IsSettled st.node.storage me.node_id
        → inner_url_resolve lib fqdn st.store addr ≡ ok base
        → AllEventsSpare me.node_id es
        → UpToDate base (
            session_step
              (session_run (session_step st (turns first random)) es)
              (turns now random'))
    session_follows st es first random now random' at_main member settled at sp =
        kept_turn (session_run (session_step st (turns first random)) es) now random' (
          run-IsFollowing (session_step st (turns first random)) es sp
            (joined st first random at_main member settled at).0)
