-- ===== src/Replication/Reachable.antt =====
-- What SimplePrimaryStandby (internal/replication/simpleps.go) does with the maps that it never makes.
use nekoq_bootstrap.Base.{
  Bool, Bool-cases, IfOk, IfOk-bind, IfOk-ok, List, Outcome, Text, [], and_then, ap, arith, err,
  false, if◌then◌else◌, inl, inr, nat_key, node_not_found, none, not, ok, panic, refl, text_key,
  ◌==◌, ◌||◌, ◌∙◌, ◌∷◌, ◌≡◌, ◌⊎◌,
}
use nekoq_bootstrap.Base.Maps.{Map}
use nekoq_bootstrap.Replication.Standby.{
  SimplePrimaryStandby, SimplePrimaryStandbyConfig, add_peers, initialize, is_primary,
  new_simple_primary_standby, promote, ready_node, ship, writable,
}

-- The map names a node other than this one.
unfoldable pub has_other : Text → Map Text Text → Bool
has_other node [] = false
has_other node ((k, addr) ∷ nodes) = not (k == node) || has_other node nodes

pub data StandbyCall : Type 0 where
  initializes promotes : StandbyCall
  readies ships : Text → StandbyCall

-- The state after a call that may have returned an error; a panic ends the program.
abbrev pub after_error :
    SimplePrimaryStandby → Outcome SimplePrimaryStandby → Outcome SimplePrimaryStandby
after_error s (ok s') = ok s'
after_error s (err e) = ok s
after_error s panic = panic

module _ (wal_ship : Text → Text → Outcome (Unit {0})) where
  unfoldable pub standby_step : SimplePrimaryStandby → StandbyCall → Outcome SimplePrimaryStandby
  standby_step s initializes = after_error s (initialize s)
  standby_step s promotes = ok (promote s)
  standby_step s (readies node) = after_error s (ready_node s node)
  standby_step s (ships bytes) =
      let (s', o) = ship wal_ship s bytes in after_error s' (and_then o (λ _. ok s'))

  unfoldable pub standby_run :
      SimplePrimaryStandby → List StandbyCall → Outcome SimplePrimaryStandby
  standby_run s [] = ok s
  standby_run s (c ∷ cs) = and_then (standby_step s c) (λ s'. standby_run s' cs)

add_peers-nil :
    (nodes : Map Text Text) (s : SimplePrimaryStandby)
    → s.cluster_peers ≡ none
    → add_peers nodes s ≡ (if has_other s.config.node_name nodes then panic else ok s)
unfolding add_peers has_other
add_peers-nil [] s h = refl
add_peers-nil ((k, addr) ∷ nodes) s h = elim (Bool-cases (k == s.config.node_name)) [
  | inl e ↦ rw e (add_peers-nil nodes s h)
  | inr e ↦ rw e (rw h refl)
]

-- Initialize of a new node succeeds exactly where the configuration has a handler to register with and
-- names no node but this one, and then changes nothing; with no handler, or with any other node in
-- the configuration, it panics.
pub initialize-new :
    (c : SimplePrimaryStandbyConfig)
    → initialize (new_simple_primary_standby c) ≡ (
        if c.has_reg_handler
        then (if has_other c.node_name c.cluster_node_map
            then panic
            else ok (new_simple_primary_standby c))
        else panic)
unfolding initialize new_simple_primary_standby
initialize-new c =
    rw (initialize, add_peers-nil c.cluster_node_map (new_simple_primary_standby c) refl) refl

-- No peers, and no peers that are ready.
pub record IsAlone (s : SimplePrimaryStandby) : Type 0 where
  pub no_peers : s.cluster_peers ≡ none
  pub no_standby : s.standby_peers ≡ none
  pub no_ready : s.ready_node_count ≡ 0
  pub no_cluster : s.cluster_size ≡ 0

initialize-nil :
    (s : SimplePrimaryStandby)
    → s.cluster_peers ≡ none
    → (initialize s ≡ panic) ⊎ (initialize s ≡ ok s)
unfolding initialize
initialize-nil s h =
    let added = add_peers-nil s.config.cluster_node_map s h in
    elim (Bool-cases s.config.has_reg_handler) [
      | inr r ↦ inl (ap (λ b. if b then add_peers s.config.cluster_node_map s else panic) r)
      | inl r ↦
          let registered =
            ap (λ b. if b then add_peers s.config.cluster_node_map s else panic) r ∙ added in
          elim (Bool-cases (has_other s.config.node_name s.config.cluster_node_map)) [
            | inl e ↦ inl (registered ∙ ap (λ b. if b then panic else ok s) e)
            | inr e ↦ inr (registered ∙ ap (λ b. if b then panic else ok s) e)
          ]
    ]

ready_node-alone :
    (s : SimplePrimaryStandby) (node : Text)
    → s.standby_peers ≡ none
    → (ready_node s node ≡ panic) ⊎ (ready_node s node ≡ err node_not_found)
unfolding ready_node
ready_node-alone s node h = ground arith

ship-nil :
    (wal_ship : Text → Text → Outcome (Unit {0})) (s : SimplePrimaryStandby) (bytes : Text)
    → s.standby_peers ≡ none
    → ship wal_ship s bytes ≡ (s, ok tt)
unfolding ship
ship-nil wal_ship s bytes h = rw h refl

module _ (wal_ship : Text → Text → Outcome (Unit {0})) where
  step-IsAlone :
      (s : SimplePrimaryStandby) (c : StandbyCall)
      → IsAlone s
      → IfOk IsAlone (standby_step wal_ship s c)
  unfolding standby_step initialize promote ready_node ship
  step-IsAlone s initializes h = elim (initialize-nil s h.no_peers) [
    | inl e ↦ rw e tt
    | inr e ↦ rw e h
  ]
  step-IsAlone s promotes h = record {
    no_peers = h.no_peers;
    no_standby = h.no_standby;
    no_ready = h.no_ready;
    no_cluster = h.no_cluster;
  }
  step-IsAlone s (readies node) h = elim (ready_node-alone s node h.no_standby) [
    | inl e ↦ rw e tt
    | inr e ↦ rw e h
  ]
  step-IsAlone s (ships bytes) h = rw (standby_step, ship-nil wal_ship s bytes h.no_standby) h

  run-IsAlone :
      (s : SimplePrimaryStandby) (cs : List StandbyCall)
      → IsAlone s
      → IfOk IsAlone (standby_run wal_ship s cs)
  unfolding standby_run
  run-IsAlone s [] h = h
  run-IsAlone s (c ∷ cs) h =
      IfOk-bind IsAlone IsAlone (standby_step wal_ship s c) (λ z. standby_run wal_ship z cs)
        (step-IsAlone s c h) (λ s' h'. run-IsAlone s' cs h')

  -- After any history of a new node that does not panic, a ship succeeds and changes nothing, whatever a client would
  -- answer, no node can be made ready, and the node is writable exactly if it is the primary.
  pub ship-alone :
      (c : SimplePrimaryStandbyConfig) (cs : List StandbyCall) (bytes node : Text)
      → (s : SimplePrimaryStandby) → standby_run wal_ship (new_simple_primary_standby c) cs ≡ ok s
      → (ship wal_ship s bytes ≡ (s, ok tt))
        × (((s' : SimplePrimaryStandby) → ¬ (ready_node s node ≡ ok s')))
        × (writable s ≡ is_primary s.role)
  unfolding ship ready_node writable new_simple_primary_standby
  ship-alone c cs bytes node s e =
      let alone : IsAlone s =
        IfOk-ok IsAlone s (standby_run wal_ship (new_simple_primary_standby c) cs)
          (run-IsAlone (new_simple_primary_standby c) cs
            (record { no_peers = refl; no_standby = refl; no_ready = refl; no_cluster = refl }))
          e in
      (
        rw alone.no_standby refl,
        λ s' b. elim (ready_node-alone s node alone.no_standby) [ inl x ↦ cc | inr x ↦ cc ],
        (let z = alone.no_ready in let y = alone.no_cluster in ground arith),
      )
