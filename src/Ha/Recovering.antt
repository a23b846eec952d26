-- ===== src/Ha/Recovering.antt =====
-- A worker whose node has forgotten it, as after a restart or a failed health check (core.ha.go and
-- core.ha.peertalk.go).
use nekoq_bootstrap.Base.{
  Bool-cases, List, Text, [], ap, arith, false, if◌then◌else◌, inl, inr, length, ltb, nat_key, none,
  ok, refl, subst, sym, text_key, true, ℕ, ◌%◌, ◌+◌, ◌<◌, ◌∷◌, ◌≡◌, ◌≤◌,
}
use nekoq_bootstrap.Base.Maps.{is_empty, lookup}
use nekoq_bootstrap.Ha.Calls.{Reaches, WireTrips}
use nekoq_bootstrap.Ha.KeepingUp.{refreshes, stumbles}
use nekoq_bootstrap.Ha.Module.{HaModule, is_member}
use nekoq_bootstrap.Ha.Net.{Send, UrlLib, Wire, identity, inner_url_resolve}
use nekoq_bootstrap.Ha.Session.{
  Event, Session, UpToDate, after_turn, followed, joined, kept_turn, session_step, turns,
}
use nekoq_bootstrap.Ha.Worker.{Phase, following, main_loop}
use nekoq_bootstrap.MemStore.Convergence.{IsSettled}
use nekoq_bootstrap.MemStore.Copying.{ListTrips, NodeTrips}
use nekoq_bootstrap.MemStore.Model.{DataTransferNodeData, Json, MemNodeData, MemStore}
use nekoq_bootstrap.MemStore.Pending.{settled}
use nekoq_bootstrap.MemStore.Rounds.{snapshot}

abbrev pub turn_event : {B : Type 0} → ℕ × ℕ → Event B
turn_event (now, random) = turns now random

module _ {U W B : Type 0} (lib : UrlLib U) (fqdn : Text → Text) (json : Json B) (wire : Wire W B)
    (send : ℕ → Send HaModule W) (me : HaModule) (addr peer base : Text) where
  -- The turns of the worker alone.
  unfoldable pub worker_run : Session → List (ℕ × ℕ) → Session
  worker_run st [] = st
  worker_run st (t ∷ ts) =
      worker_run (session_step lib fqdn json wire send me addr peer st (turn_event t)) ts

  abbrev next_of : Session → ℕ → ℕ → Session
  next_of st now random = session_step lib fqdn json wire send me addr peer st (turns now random)

  module _ (unrouted : Text → Text → ℕ × W) (trips : WireTrips wire)
      (nodes : (d : MemNodeData) → NodeTrips json d)
      (lists : (l : List DataTransferNodeData) → ListTrips json l)
      (reaches : (now : ℕ) (m : MemStore) (v : HaModule)
        → Reaches lib fqdn json wire unrouted now
            (send now)
            base
            addr
            (record me { storage = m })
            v)
      (named : is_empty me.node_id ≡ false) where
    abbrev Fresh : Session → Type 0
    Fresh st = UpToDate lib fqdn json wire send me addr peer base st

    stays : (ts : List (ℕ × ℕ)) (st : Session) → Fresh st → Fresh (worker_run st ts)
    unfolding worker_run
    stays [] st f = f
    stays ((now, random) ∷ ts) st f =
        stays ts (session_step lib fqdn json wire send me addr peer st (turns now random)) (
          kept_turn lib fqdn json wire send me addr peer base unrouted trips nodes lists reaches
            named st now random f.0)

    module _ (node : HaModule) (store : MemStore) (member : is_member node (identity me) ≡ true)
        (settled : IsSettled node.storage me.node_id)
        (at : inner_url_resolve lib fqdn store addr ≡ ok base) where
      abbrev at_phase : Phase → Session
      at_phase phase = record { node = node; store = store; phase = phase }

      rejoins : (ts : List (ℕ × ℕ)) → 0 < length ts → Fresh (worker_run (at_phase main_loop) ts)
      unfolding worker_run
      rejoins [] h = absurd (omega arith)
      rejoins ((now, random) ∷ ts) h =
          stays ts
            (session_step lib fqdn json wire send me addr peer (at_phase main_loop)
              (turns now random))
            (joined lib fqdn json wire send me addr peer base unrouted trips nodes lists reaches
              named (at_phase main_loop) now random refl member settled at)

      refreshed :
          (now random q r : ℕ)
          → ltb q (random % 20 + 590) ≡ false
          → Fresh (next_of (at_phase (following q r)) now random)
      unfolding session_step
      refreshed now random q r late =
          followed lib fqdn json wire send me addr peer base unrouted trips nodes lists reaches
            named (at_phase (following q r)) 0 r _ member at
            (refreshes lib fqdn json wire unrouted (send now) trips base addr peer now random
              (record me { storage = store }) node (reaches now store) named member q r at late
              settled (nodes (snapshot node.storage)))

      stumbled :
          (now random q r : ℕ)
          → ltb q (random % 20 + 590) ≡ true
          → lookup me.node_id node.client_peer_mapping ≡ none
          → next_of (at_phase (following q r)) now random
            ≡ at_phase (if ltb 10 (r + 1) then main_loop else following q (r + 1))
      unfolding session_step
      stumbled now random q r early unknown = ap (after_turn (at_phase (following q r))) (
          stumbles lib fqdn json wire unrouted (send now) trips base addr peer now random
            (record me { storage = store }) node (reaches now store) named member q r at early
            unknown)

      recovers :
          (ts : List (ℕ × ℕ)) (q r : ℕ)
          → r < 11
          → 12 ≤ length ts + r
          → lookup me.node_id node.client_peer_mapping ≡ none
          → Fresh (worker_run (at_phase (following q r)) ts)
      unfolding worker_run
      recovers [] q r lt enough unknown = absurd (omega arith)
      recovers ((now, random) ∷ ts) q r lt enough unknown =
          elim (Bool-cases (ltb q (random % 20 + 590))) [
            | inr late ↦
                stays ts (next_of (at_phase (following q r)) now random)
                  (refreshed now random q r late)
            | inl early ↦
                subst (λ st. Fresh (worker_run st ts)) (sym (stumbled now random q r early unknown))
                  (elim (Bool-cases (ltb 10 (r + 1))) [
                    | inl full ↦ rw full (rejoins ts (omega arith))
                    | inr more ↦
                        rw more (recovers ts q (r + 1) (ground arith) (omega arith) unknown)
                  ])
          ]

  -- A worker in its inner loop, with at most ten failed tries, whose node is there but does not know it,
  -- has an up-to-date copy again, and follows the node, after any twelve turns or more. The worker is a
  -- member of the node's cluster and reaches it at its address, the encodings give back what they
  -- were given, and what is pending for the worker agrees with what the node publishes.
  pub worker_run-recovers :
      (unrouted : Text → Text → ℕ × W) (st : Session) (ts : List (ℕ × ℕ)) (q r : ℕ)
      → WireTrips wire
      → ((d : MemNodeData) → NodeTrips json d)
      → ((l : List DataTransferNodeData) → ListTrips json l)
      → ((now : ℕ) (m : MemStore) (v : HaModule)
          → Reaches lib fqdn json wire unrouted now
              (send now)
              base
              addr
              (record me { storage = m })
              v)
      → is_empty me.node_id ≡ false
      → is_member st.node (identity me) ≡ true
      → IsSettled st.node.storage me.node_id
      → inner_url_resolve lib fqdn st.store addr ≡ ok base
      → st.phase ≡ following q r
      → r < 11
      → 12 ≤ length ts
      → lookup me.node_id st.node.client_peer_mapping ≡ none
      → UpToDate lib fqdn json wire send me addr peer base (worker_run st ts)
  worker_run-recovers unrouted st ts q r trips nodes lists reaches named member settled at e lt
        enough unknown =
      subst
        (λ ph.
          UpToDate lib fqdn json wire send me addr peer base
            (worker_run (record { node = st.node; store = st.store; phase = ph }) ts))
        (sym e)
        (recovers unrouted trips nodes lists reaches named st.node st.store member settled at ts q r
          lt (omega arith) unknown)
