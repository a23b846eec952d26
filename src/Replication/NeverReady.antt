-- ===== src/Replication/NeverReady.antt =====
-- A standby and the values that go-redis gives (internal/replication/communication.go, simpleps.go).
use nekoq_bootstrap.Base.{
  Bool-cases, IfOk, IfOk-bind, IfOk-ok, List, Outcome, Outcome-cases, Text, [], and_then, ap, false,
  inl, inr, none, ok, panic, refl, suc, zero, ℕ, ◌∙◌, ◌∷◌, ◌≡◌, ◌⊎◌,
}
use nekoq_bootstrap.Base.Io.{Io, continue-keeps}
use nekoq_bootstrap.Kv.Sole.{Cbor}
use nekoq_bootstrap.Kv.Storage.{Diskv}
use nekoq_bootstrap.Replication.Client.{
  RedisReply, Resp2Client, as_int, bytes_reply, client_role, do_connect, int64_reply, int_reply,
  other_reply, reconnect, role_of, string_reply,
}
use nekoq_bootstrap.Replication.PeerWorker.{PeerWorker, peer_alive, peer_worker, peer_worker_turns}
use nekoq_bootstrap.Replication.Protocol.{PeerCbor, command_role}

-- An integer of the protocol comes as an int64, and a simple string or a bulk string as a string.
abbrev pub IsGoRedis : RedisReply → Type 0
IsGoRedis (int_reply n) = ⊥
IsGoRedis (bytes_reply s) = ⊥
IsGoRedis (int64_reply n) = Unit
IsGoRedis (string_reply s) = Unit
IsGoRedis other_reply = Unit

abbrev Fails {ℓ} : {A : Type ℓ} → Outcome A → Type 0
Fails = IfOk (λ _. ⊥)

as_int-Fails : (res : RedisReply) → IsGoRedis res → Fails (and_then (as_int res) role_of)
as_int-Fails (int_reply n) g = elim g [ ]
as_int-Fails (bytes_reply s) g = tt
as_int-Fails (int64_reply n) g = tt
as_int-Fails (string_reply s) g = tt
as_int-Fails other_reply g = tt

module _ {N : Type 0} (exchange : Text → List Text → Io N RedisReply)
    (go_redis : (addr : Text) (args : List Text) (n : N)
      → IfOk IsGoRedis (exchange addr args n).1) where
  client_role-Fails : (addr : Text) (n : N) → Fails (client_role exchange addr n).1
  unfolding client_role
  client_role-Fails addr n =
      IfOk-bind IsGoRedis (λ _. ⊥) (exchange addr (command_role ∷ []) n).1 _
        (go_redis addr (command_role ∷ []) n) as_int-Fails

  do_connect-Fails : (c : Resp2Client) (n : N) → Fails (do_connect exchange (c, n)).1
  unfolding do_connect reconnect
  do_connect-Fails c n =
      let fails = client_role-Fails c.addr n in
      let fails' = client_role-Fails c.addr (client_role exchange c.addr n).0 in
      elim (Bool-cases c.has_client) [
        | inr e ↦ rw (do_connect, e) fails
        | inl e ↦ elim (Outcome-cases (client_role exchange c.addr n).1) [
          | inl (r, x) ↦ elim (IfOk-ok (λ _. ⊥) r (client_role exchange c.addr n).1 fails x) [ ]
          | inr (inl (e', x)) ↦ rw (do_connect, e) (rw (IfOk, x) fails')
          | inr (inr x) ↦ rw (do_connect, e) (rw (IfOk, x) tt)
        ]
      ]

module _ {D N : Type 0} (diskv : Diskv D) (cbor : Cbor) (peer_cbor : PeerCbor)
    (exchange : Text → List Text → Io N RedisReply) (node_name : Text)
    (go_redis : (addr : Text) (args : List Text) (n : N)
      → IfOk IsGoRedis (exchange addr args n).1) where
  -- Not ready, and with the store of before.
  abbrev IsBehind : PeerWorker D N → PeerWorker D N → Type 0
  IsBehind w w' = (w'.ready ≡ false) × (w'.store ≡ w.store)

  abbrev asked : PeerWorker D N → PeerWorker D N
  asked w = let r = do_connect exchange (w.peer, w.net) in record w { peer = r.0.0; net = r.0.1 }

  peer_alive-fails :
      (w : PeerWorker D N)
      → (peer_alive diskv cbor peer_cbor exchange node_name w ≡ (asked w, ok none))
        ⊎ (peer_alive diskv cbor peer_cbor exchange node_name w ≡ (asked w, panic))
  unfolding peer_alive
  peer_alive-fails w = elim (Outcome-cases (do_connect exchange (w.peer, w.net)).1) [
    | inl (r, x) ↦
        elim (IfOk-ok (λ _. ⊥) r (do_connect exchange (w.peer, w.net)).1
          (do_connect-Fails exchange go_redis w.peer w.net) x) [ ]
    | inr (inl (e, x)) ↦ inl (rw (peer_alive, x) refl)
    | inr (inr x) ↦ inr (rw (peer_alive, x) refl)
  ]

  peer_worker-IsBehind :
      (w w' : PeerWorker D N)
      → IsBehind w w'
      → IsBehind w (peer_worker diskv cbor peer_cbor exchange node_name w').0
  unfolding peer_worker
  peer_worker-IsBehind w w' h = elim (peer_alive-fails w') [
    | inl x ↦ rw (peer_worker, x) (refl, ap (λ r. r.0.store) x ∙ h.1)
    | inr x ↦ rw (peer_worker, x) (ap (λ r. r.0.ready) x ∙ h.0, ap (λ r. r.0.store) x ∙ h.1)
  ]

  turns-IsBehind :
      (k : ℕ) (w w' : PeerWorker D N)
      → IsBehind w w'
      → IsBehind w (peer_worker_turns diskv cbor peer_cbor exchange node_name k w').0
  unfolding peer_worker_turns
  turns-IsBehind zero w w' h = h
  turns-IsBehind (suc k) w w' h =
      continue-keeps (IsBehind w) (peer_worker diskv cbor peer_cbor exchange node_name w')
        (λ _. peer_worker_turns diskv cbor peer_cbor exchange node_name k)
        (peer_worker-IsBehind w w' h) (λ _ w''. turns-IsBehind k w w'')

  -- A standby that is not ready never becomes so, and takes nothing into its store, however often it
  -- looks for its peer and whatever the peer answers, where a client gives integers as int64 and never
  -- bytes, as go-redis does.
  pub peer_worker_turns-never_ready :
      (k : ℕ) (w : PeerWorker D N)
      → w.ready ≡ false
      → ((peer_worker_turns diskv cbor peer_cbor exchange node_name k w).0.ready ≡ false)
        × ((peer_worker_turns diskv cbor peer_cbor exchange node_name k w).0.store ≡ w.store)
  peer_worker_turns-never_ready k w h = turns-IsBehind k w w (h, refl)
