-- ===== src/Ha/Following.antt =====
-- The loops of PeerSyncWorker in core.ha.go, turn by turn.
use nekoq_bootstrap.Base.{
  Bool-cases, Option, Option-cases, Outcome, Text, [], and_then, arith, err, if◌then◌else◌, inl,
  inr, ltb, nat_key, no_add_data_found, no_del_data_found, node_not_exist, none, ok, panic, some,
  text_key, ℕ, ◌%◌, ◌+◌, ◌<◌, ◌≡◌,
}
use nekoq_bootstrap.Base.Maps.{Map, insert, lookup, lookup-insert_self}
use nekoq_bootstrap.Ha.Worker.{
  Phase, Turn, following, full_request, main_loop, or_empty_map, process_sync, settle, waiting,
  worker_turn,
}
use nekoq_bootstrap.MemStore.Model.{Json, MemNodeData, MemStore}
use nekoq_bootstrap.MemStore.Peers.{
  abandon, build_mem_data, default_data_key, full_from, json_error, or_fail, sync_add, sync_delete,
  sync_from,
}

-- The counters of the inner loop stay small, and the node holds a copy of a peer that it follows.
abbrev pub IsWorking : Text → MemStore → Phase → Type 0
IsWorking peer m main_loop = Unit {0}
IsWorking peer m (following query_count retry_cnt) =
    (query_count < 610) × (retry_cnt < 11) × ¬ (lookup peer m.data_from ≡ none)
IsWorking peer m waiting = Unit {0}

abbrev pub IsWell : Text → Outcome (MemStore × Phase) → Type 0
IsWell peer (ok (m, phase)) = IsWorking peer m phase
IsWell peer (err e) = ⊥
IsWell peer panic = Unit {0}

-- Where there is an answer with a store, it has a copy of the peer.
abbrev Follows : Text → Outcome MemStore → Type 0
Follows peer (ok m) = ¬ (lookup peer m.data_from ≡ none)
Follows peer (err e) = Unit {0}
Follows peer panic = Unit {0}

abbrev Answers : Text → Option (Outcome MemStore) → Type 0
Answers peer none = Unit {0}
Answers peer (some o) = Follows peer o

Follows-bind {ℓ} :
    {A : Type ℓ} (peer : Text) (o : Outcome A) (f : A → Outcome MemStore)
    → ((a : A) → Follows peer (f a))
    → Follows peer (and_then o f)
Follows-bind peer (ok a) f h = h a
Follows-bind peer (err e) f h = tt
Follows-bind peer panic f h = tt

built-Follows :
    (m : MemStore) (peer : Text) (dat : MemNodeData)
    → Follows peer (ok (build_mem_data (record m { data_from = insert peer dat m.data_from })))
unfolding build_mem_data
built-Follows m peer dat h = absurd (let found = lookup-insert_self peer dat m.data_from in cc)

module _ {B : Type 0} (json : Json B) (peer : Text) where
  full_from-Follows :
      (m : MemStore) (payload : Map Text B) → Follows peer (full_from json m peer payload)
  unfolding full_from
  full_from-Follows m payload = elim (Option-cases (lookup default_data_key payload)) [
    | inl e ↦ rw e tt
    | inr (d, e) ↦ rw e (elim (Option-cases (json.unmarshal_node_data d)) [
      | inl x ↦ rw x tt
      | inr (dat, x) ↦ rw x (built-Follows m peer dat)
    ])
  ]

  sync_from-Follows :
      (m : MemStore) (add del : Map Text B) → Follows peer (sync_from json m peer peer add del)
  unfolding sync_from
  sync_from-Follows m add del =
      Follows-bind peer (or_fail (lookup default_data_key add) no_add_data_found) _ (λ ad.
        Follows-bind peer (or_fail (json.unmarshal_list ad) json_error) _ (λ adata.
          Follows-bind peer (or_fail (lookup default_data_key del) no_del_data_found) _ (λ dd.
            Follows-bind peer (or_fail (json.unmarshal_list dd) json_error) _ (λ ddata.
              Follows-bind peer (or_fail (lookup peer m.data_from) node_not_exist) _ (λ mapping.
                Follows-bind peer (sync_add adata (sync_delete ddata mapping.service_mapping)) _
                  (λ mapping'. built-Follows m peer (record { service_mapping = mapping' })))))))

  process_sync-Answers :
      (m : MemStore) (full add del : Option (Map Text B))
      → Answers peer
          (process_sync json m (record { node_id = peer; full = full; add = add; del = del }))
  unfolding process_sync
  process_sync-Answers m (some payload) add del = full_from-Follows m payload
  process_sync-Answers m none (some add) del = sync_from-Follows m add (or_empty_map del)
  process_sync-Answers m none none (some del) = sync_from-Follows m [] del
  process_sync-Answers m none none none = tt

  settle-IsWell :
      (m : MemStore) (q r : ℕ) (o : Option (Outcome MemStore))
      → q < 610
      → r < 11
      → Answers peer o
      → IsWell peer (settle json m (following q r) o)
  unfolding settle
  settle-IsWell m q r none lt lt' a = tt
  settle-IsWell m q r (some (ok m')) lt lt' a = (lt, lt', a)
  settle-IsWell m q r (some (err e)) lt lt' a = tt
  settle-IsWell m q r (some panic) lt lt' a = tt

  -- A full copy that is asked for.
  full-IsWell :
      (m : MemStore) (r : ℕ) (o : Outcome (Option (Map Text B)))
      → r < 11
      → IsWell peer (elim o [
        | ok payload ↦ full_request json peer m (following 0 r) payload
        | err e ↦ ok (m, main_loop)
        | panic ↦ panic
      ])
  unfolding full_request
  full-IsWell m r (ok payload) lt =
      settle-IsWell m 0 r _ (omega arith) lt (process_sync-Answers m payload none none)
  full-IsWell m r (err e) lt = tt
  full-IsWell m r panic lt = tt

  connected-IsWell :
      (m : MemStore) (c : Outcome (Unit {0})) (o : Outcome (Option (Map Text B)))
      → IsWell peer (elim c [
        | ok _ ↦ elim o [
          | ok payload ↦ full_request json peer m (following 0 0) payload
          | err e ↦ ok (m, main_loop)
          | panic ↦ panic
        ]
        | err e ↦ ok (m, main_loop)
        | panic ↦ panic
      ])
  connected-IsWell m (ok c) o = full-IsWell m 0 o (omega arith)
  connected-IsWell m (err e) o = tt
  connected-IsWell m panic o = tt

  changes-IsWell :
      (m : MemStore) (q r : ℕ) (o : Outcome (Option (Map Text B) × Option (Map Text B)))
      → q < 609
      → r < 11
      → ¬ (lookup peer m.data_from ≡ none)
      → IsWell peer (elim o [
        | ok (add, del) ↦
            settle json m
              (following (q + 1) 0)
              (process_sync json m (record { node_id = peer; full = none; add = add; del = del }))
        | err e ↦ ok (m, (if ltb 10 (r + 1) then main_loop else following q (r + 1)))
        | panic ↦ panic
      ])
  changes-IsWell m q r (ok (add, del)) lt lt' w =
      settle-IsWell m (q + 1) 0 _ (omega arith) (omega arith) (process_sync-Answers m none add del)
  changes-IsWell m q r (err e) lt lt' w = elim (Bool-cases (ltb 10 (r + 1))) [
    | inl x ↦ rw x tt
    | inr x ↦ rw x (omega arith, ground arith, w)
  ]
  changes-IsWell m q r panic lt lt' w = tt

  -- A turn of the worker for a peer, from a phase with counters below 610 and 11 and, in its inner
  -- loop, a copy of the peer, never ends in an error, and unless it panics ends in such a phase:
  -- the worker enters and stays in its inner loop only with a copy of the peer.
  pub worker_turn-IsWell :
      (m : MemStore) (phase : Phase) (t : Turn B)
      → IsWorking peer m phase
      → IsWell peer (worker_turn json peer m phase t)
  unfolding worker_turn
  worker_turn-IsWell m main_loop t w = connected-IsWell (abandon m peer) t.connected t.full_data
  worker_turn-IsWell m (following q r) t (lt, lt', w) =
      elim (Bool-cases (ltb q (t.random % 20 + 590))) [
        | inl x ↦ rw x (changes-IsWell m q r t.changes (ground arith) lt' w)
        | inr x ↦ rw x (full-IsWell m r t.full_data lt')
      ]
  worker_turn-IsWell m waiting t w = tt
