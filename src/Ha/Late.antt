-- ===== src/Ha/Late.antt =====
-- What a health check of core.ha.go deletes: the peers whose time is too old.
use nekoq_bootstrap.Base.{
  Bool-cases, List, Text, [], arith, inl, inr, nat_key, none, refl, some, sym, text_key, true, ℕ,
  ◌==◌, ◌∙◌, ◌∷◌, ◌≡◌,
}
use nekoq_bootstrap.Base.Maps.{Map, delete, lookup, lookup-delete}
use nekoq_bootstrap.Ha.Module.{delete_all, is_late, late_nodes, unwatch_all}
use nekoq_bootstrap.MemStore.Model.{MemStore}
use nekoq_bootstrap.MemStore.Peers.{unwatch}

pub lookup-delete_all {ℓ} :
    {V : Type ℓ} (nodes : List Text) (peer : Text) (m : Map Text V)
    → lookup peer m ≡ none
    → lookup peer (delete_all nodes m) ≡ none
unfolding delete_all
lookup-delete_all [] peer m h = h
lookup-delete_all (node ∷ nodes) peer m h =
    lookup-delete_all nodes peer (delete node m) (ground (arith, lookup-delete node peer m, h))

-- Two maps from which the same nodes are deleted.
pub tracked-delete_all {ℓ κ} :
    {V : Type ℓ} {W : Type κ} (nodes : List Text) (peer : Text) (m : Map Text V) (n : Map Text W)
    → (lookup peer m ≡ none → lookup peer n ≡ none)
    → lookup peer (delete_all nodes m) ≡ none
    → lookup peer (delete_all nodes n) ≡ none
unfolding delete_all
tracked-delete_all [] peer m n f h = f h
tracked-delete_all (node ∷ nodes) peer m n f h =
    tracked-delete_all nodes peer (delete node m) (delete node n)
      (λ g. elim (Bool-cases (node == peer)) [
        | inl e ↦ lookup-delete node peer n ∙ rw e refl
        | inr e ↦
            lookup-delete node peer n ∙ rw e (f (sym (lookup-delete node peer m ∙ rw e refl) ∙ g))
      ])
      h

pub unwatch_all-data_to :
    (nodes : List Text) (m : MemStore) → (unwatch_all nodes m).data_to ≡ delete_all nodes m.data_to
unfolding unwatch_all delete_all unwatch
unwatch_all-data_to [] m = refl
unwatch_all-data_to (node ∷ nodes) m = unwatch_all-data_to nodes (unwatch m node)

-- A node whose time is too old is one of the late nodes, and after the check has no time.
pub late_nodes-delete_all {ℓ} :
    {V : Type ℓ} (now t : ℕ) (peer : Text) (times : Map Text ℕ) (m : Map Text V)
    → lookup peer times ≡ some t
    → is_late now t ≡ true
    → lookup peer (delete_all (late_nodes now times) m) ≡ none
unfolding late_nodes lookup delete_all
late_nodes-delete_all now t peer [] m h late = cc
late_nodes-delete_all now t peer ((node, u) ∷ times) m h late = elim (Bool-cases (node == peer)) [
  | inl e ↦
      let u_t : u ≡ t = ground (arith, h, e) in
      let late' : is_late now u ≡ true = rw u_t late in
      rw late' (
        lookup-delete_all (late_nodes now times) peer (delete node m)
          (ground (arith, lookup-delete node peer m, e)))
  | inr e ↦
      let h' : lookup peer times ≡ some t = ground (arith, h, e) in
      elim (Bool-cases (is_late now u)) [
        | inl l ↦ rw l (late_nodes-delete_all now t peer times (delete node m) h' late)
        | inr l ↦ rw l (late_nodes-delete_all now t peer times m h' late)
      ]
]
