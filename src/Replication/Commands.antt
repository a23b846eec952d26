-- ===== src/Replication/Commands.antt =====
-- What the server of RESP of a replicating store answers (internal/service/spskv.go, with
-- internal/service/respservice.go and internal/replication/communication.go).
use nekoq_bootstrap.Base.{
  List, Text, ap, codes, err, nat_key, none, ok, panic, refl, some, text_key, text_same, ◌∙◌, ◌∷◌,
  ◌≡◌,
}
use nekoq_bootstrap.Base.Maps.{insert, lookup}
use nekoq_bootstrap.Kv.Commands.{process_command-some, replied-got_result, replied-put_result}
use nekoq_bootstrap.Kv.Resp.{
  CommandMapping, RespCommandHandler, add_command_handler, error_result, int_result,
  new_command_mapping, nil_result, process_command, register_kv, replied, resp_get, resp_put,
  string_result, value_result,
}
use nekoq_bootstrap.Kv.Sole.{Cbor, Sole, sole_get, sole_put}
use nekoq_bootstrap.Kv.Storage.{Diskv}
use nekoq_bootstrap.MemStore.Domains.{to_lower}
use nekoq_bootstrap.MemStore.Services.{found}
use nekoq_bootstrap.Replication.Protocol.{
  Node, PeerCbor, WalLog, apply_wal_log, register_replicator, role_result, shipped, walship,
}
use nekoq_bootstrap.Replication.Service.{node_kv}
use nekoq_bootstrap.Replication.Standby.{
  ReplicatorRole, SimplePrimaryStandby, promote, role_primary, role_standby,
}

module _ {D : Type 0} (diskv : Diskv D) (cbor : Cbor) (peer_cbor : PeerCbor) where
  abbrev pub serving : CommandMapping (Node D)
  serving =
      register_replicator diskv cbor peer_cbor
        (register_kv (node_kv diskv cbor peer_cbor) new_command_mapping)

  put-serving : lookup (codes "put") serving ≡ some (resp_put (node_kv diskv cbor peer_cbor))
  unfolding register_replicator register_kv add_command_handler new_command_mapping lookup insert
      text_same to_lower
  put-serving = refl

  get-serving : lookup (codes "get") serving ≡ some (resp_get (node_kv diskv cbor peer_cbor))
  unfolding register_replicator register_kv add_command_handler new_command_mapping lookup insert
      text_same to_lower
  get-serving = refl

  role-serving :
      lookup (codes "replicator.role") serving ≡ some (λ args x. (x, ok (role_result x.1)))
  unfolding register_replicator register_kv add_command_handler new_command_mapping lookup insert
      text_same to_lower
  role-serving = refl

  promote-serving :
      lookup (codes "replicator.promote") serving
      ≡ some (λ args x. ((x.0, promote x.1), ok (string_result (codes "OK"))))
  unfolding register_replicator register_kv add_command_handler new_command_mapping lookup insert
      text_same to_lower
  promote-serving = refl

  walship-serving :
      lookup (codes "replicator.ship") serving
      ≡ some (λ args x. (
        ((x.0.0, (walship diskv cbor peer_cbor args x.0.1).0), x.1),
        (walship diskv cbor peer_cbor args x.0.1).1,
      ))
  unfolding register_replicator register_kv add_command_handler new_command_mapping lookup insert
      text_same to_lower
  walship-serving = refl

  role_result-role :
      (ps : SimplePrimaryStandby) (r : ReplicatorRole)
      → ps.role ≡ r
      → role_result ps ≡ int_result (elim ps.role [ role_primary ↦ 1 | role_standby ↦ 2 ])
  unfolding role_result
  role_result-role ps role_primary e = rw (role_result, e) refl
  role_result-role ps role_standby e = rw (role_result, e) refl

  answered_by :
      (h : RespCommandHandler (Node D)) (command name : Text) (rest : List Text) (x : Node D)
      → lookup command serving ≡ some h
      → to_lower name ≡ command
      → process_command serving (name ∷ rest) x ≡ replied (h (name ∷ rest) x)
  answered_by h command name rest x known e =
      process_command-some serving h name rest x (ap (λ k. lookup k serving) e ∙ known)

  apply_wal_log-panic :
      (dat : Text) (d : D) (log : WalLog)
      → peer_cbor.unmarshal_log dat ≡ ok log
      → (apply_wal_log diskv cbor peer_cbor dat d).1 ≡ panic
  unfolding apply_wal_log
  apply_wal_log-panic dat d log known = rw (apply_wal_log, known) refl

  -- Whatever the letters' case of the command and whatever the node's role, PUT puts into the store of
  -- the node and answers OK or an error message, GET reads that store and answers with the value, nil or
  -- an error message, and neither ships anything or looks at the replicator; the role is answered as 1
  -- for the primary and 2 for a standby; a promotion makes the node the primary, changes nothing else
  -- and answers OK; and a shipped log that unmarshals panics. Further arguments play no part.
  pub process_command-serving :
      (name k v : Text) (rest : List Text) (st : Sole D) (ps : SimplePrimaryStandby)
      → (to_lower name ≡ codes "put"
          → process_command serving (name ∷ k ∷ v ∷ rest) (st, ps) ≡ (
            ((sole_put diskv cbor k v st).0, ps),
            elim (sole_put diskv cbor k v st).1 [
              | ok _ ↦ ok (string_result (codes "OK"))
              | err e ↦ ok (error_result (codes "Put value failed"))
              | panic ↦ panic
            ],
          ))
        × (to_lower name ≡ codes "get"
            → process_command serving (name ∷ k ∷ rest) (st, ps) ≡ (
              (st, ps),
              elim (sole_get diskv cbor st k) [
                | ok found ↦ ok (elim found [ none ↦ nil_result | some w ↦ value_result w ])
                | err e ↦ ok (error_result (codes "Get value failed."))
                | panic ↦ panic
              ],
            ))
        × (to_lower name ≡ codes "replicator.role"
            → process_command serving (name ∷ rest) (st, ps)
              ≡ ((st, ps), ok (int_result (elim ps.role [ role_primary ↦ 1 | role_standby ↦ 2 ]))))
        × (to_lower name ≡ codes "replicator.promote"
            → process_command serving (name ∷ rest) (st, ps)
              ≡ ((st, record ps { role = role_primary }), ok (string_result (codes "OK"))))
        × (to_lower name ≡ codes "replicator.ship"
            → (log : WalLog) → peer_cbor.unmarshal_log k ≡ ok log
            → (process_command serving (name ∷ k ∷ rest) (st, ps)).1 ≡ panic)
  unfolding resp_get resp_put walship apply_wal_log promote
  process_command-serving name k v rest st ps = (
    λ e.
        answered_by _ (codes "put") name (k ∷ v ∷ rest) (st, ps) put-serving e
        ∙ replied-put_result (node_kv diskv cbor peer_cbor) ((sole_put diskv cbor k v st).0, ps)
            (sole_put diskv cbor k v st).1,
    (λ e.
        answered_by _ (codes "get") name (k ∷ rest) (st, ps) get-serving e
        ∙ replied-got_result (node_kv diskv cbor peer_cbor) (st, ps) (sole_get diskv cbor st k)),
    (λ e.
        answered_by _ (codes "replicator.role") name rest (st, ps) role-serving e
        ∙ ap (λ r. ((st, ps), ok r)) (role_result-role ps ps.role refl)),
    (λ e. answered_by _ (codes "replicator.promote") name rest (st, ps) promote-serving e),
    λ e log known.
        ap (λ r. r.1)
          (answered_by _ (codes "replicator.ship") name (k ∷ rest) (st, ps) walship-serving e)
        ∙ ap
            (λ o.
              (replied {S = Node D}
                (((st.0, (apply_wal_log diskv cbor peer_cbor k st.1).0), ps), shipped o)).1)
            (apply_wal_log-panic k st.1 log known),
  )
