-- ===== src/Ha/Worker.antt =====
-- `PeerSyncWorker` and `ProcessSyncWorker` of core.ha.go: how a node follows one peer.
use nekoq_bootstrap.Base.{
  List, Option, Outcome, Text, [], err, if◌then◌else◌, ltb, none, ok, panic, some, ℕ, ◌%◌, ◌+◌,
}
use nekoq_bootstrap.Base.Maps.{Map}
use nekoq_bootstrap.MemStore.Model.{Json, MemStore}
use nekoq_bootstrap.MemStore.Peers.{abandon, full_from, sync_from}

-- SyncReq; `none` is a nil map.
pub record SyncReq (B : Type 0) : Type 0 where
  pub node_id : Text
  pub full : Option (Map Text B)
  pub add : Option (Map Text B)
  pub del : Option (Map Text B)

-- Where the worker stands: at the head of its main loop, in its inner loop, or waiting for an answer
-- that never comes.
pub data Phase : Type 0 where
  main_loop : Phase
  following : ℕ → ℕ → Phase
  waiting : Phase

-- What the peer and the random generator answer during one turn.
pub record Turn (B : Type 0) : Type 0 where
  pub connected : Outcome (Unit {0})
  pub full_data : Outcome (Option (Map Text B))
  pub changes : Outcome (Option (Map Text B) × Option (Map Text B))
  pub random : ℕ

-- A nil map reads like an empty one.
abbrev pub or_empty_map {ℓ} : {A : Type ℓ} → Option (List A) → List A
or_empty_map none = []
or_empty_map (some m) = m

module _ {B : Type 0} (json : Json B) where
  -- One request of ProcessSyncWorker: the answer on its channel, and `none` where it sends none.
  unfoldable pub process_sync : MemStore → SyncReq B → Option (Outcome MemStore)
  process_sync m req = elim req.full [
    | some payload ↦ some (full_from json m req.node_id payload)
    | none ↦ elim req.add [
      | some add ↦ some (sync_from json m req.node_id req.node_id add (or_empty_map req.del))
      | none ↦ elim req.del [
        | some del ↦ some (sync_from json m req.node_id req.node_id [] del)
        | none ↦ none
      ]
    ]
  ]

  -- The store and the phase after an answer: `next` if the request succeeded.
  unfoldable pub settle : MemStore → Phase → Option (Outcome MemStore) → Outcome (MemStore × Phase)
  settle m next none = ok (m, waiting)
  settle m next (some (ok m')) = ok (m', next)
  settle m next (some (err e)) = ok (m, main_loop)
  settle m next (some panic) = panic

  unfoldable pub full_request :
      Text → MemStore → Phase → Option (Map Text B) → Outcome (MemStore × Phase)
  full_request peer m next payload =
      settle m next
        (process_sync m (record { node_id = peer; full = payload; add = none; del = none }))

  -- One turn of the worker for `peer`: a round of the main loop up to its inner loop, or a round of
  -- the inner loop. A panic of the store ends the program.
  unfoldable pub worker_turn : Text → MemStore → Phase → Turn B → Outcome (MemStore × Phase)
  worker_turn peer m main_loop t =
      let m' = abandon m peer in
      elim t.connected [
        | ok _ ↦ elim t.full_data [
          | ok payload ↦ full_request peer m' (following 0 0) payload
          | err e ↦ ok (m', main_loop)
          | panic ↦ panic
        ]
        | err e ↦ ok (m', main_loop)
        | panic ↦ panic
      ]
  worker_turn peer m (following query_count retry_cnt) t =
      if ltb query_count (t.random % 20 + 590)
      then (elim t.changes [
        | ok (add, del) ↦
            settle m (following (query_count + 1) 0)
              (process_sync m (record { node_id = peer; full = none; add = add; del = del }))
        | err e ↦ ok (
          m,
          (if ltb 10 (retry_cnt + 1) then main_loop else following query_count (retry_cnt + 1)),
        )
        | panic ↦ panic
      ])
      else (elim t.full_data [
        | ok payload ↦ full_request peer m (following 0 retry_cnt) payload
        | err e ↦ ok (m, main_loop)
        | panic ↦ panic
      ])
  worker_turn peer m waiting t = ok (m, waiting)
