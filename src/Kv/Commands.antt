-- ===== src/Kv/Commands.antt =====
-- What a client of the RESP side of the store is answered (internal/service/respservice.go and
-- internal/service/respservice.kv.go).
use nekoq_bootstrap.Base.{
  List, Option, Outcome, Text, ap, codes, err, nat_key, none, ok, panic, refl, some, text_key,
  text_same, ◌∙◌, ◌∷◌, ◌≡◌,
}
use nekoq_bootstrap.Base.Maps.{insert, lookup}
use nekoq_bootstrap.Kv.Resp.{
  CommandMapping, KvStorage, RespCommandHandler, add_command_handler, error_result, got_result,
  new_command_mapping, nil_result, process_command, put_result, register_kv, replied, resp_get,
  resp_put, string_result, value_result,
}
use nekoq_bootstrap.MemStore.Domains.{to_lower}
use nekoq_bootstrap.MemStore.Services.{found}

pub process_command-some :
    {S : Type 0}
    → (mapping : CommandMapping S) (h : RespCommandHandler S) (name : Text) (rest : List Text)
      (s : S)
    → lookup (to_lower name) mapping ≡ some h
    → process_command mapping (name ∷ rest) s ≡ replied (h (name ∷ rest) s)
unfolding process_command
process_command-some mapping h name rest s e = rw (process_command, e) refl

module _ {S : Type 0} (kv : KvStorage S) where
  abbrev pub served : CommandMapping S
  served = register_kv kv new_command_mapping

  get_served : lookup (codes "get") served ≡ some (resp_get kv)
  unfolding register_kv add_command_handler new_command_mapping lookup insert text_same to_lower
  get_served = refl

  put_served : lookup (codes "put") served ≡ some (resp_put kv)
  unfolding register_kv add_command_handler new_command_mapping lookup insert text_same to_lower
  put_served = refl

  pub replied-got_result :
      (s : S) (o : Outcome (Option Text))
      → replied (s, got_result o) ≡ (
        s,
        elim o [
          | ok found ↦ ok (elim found [ none ↦ nil_result | some val ↦ value_result val ])
          | err e ↦ ok (error_result (codes "Get value failed."))
          | panic ↦ panic
        ],
      )
  replied-got_result s (ok none) = refl
  replied-got_result s (ok (some val)) = refl
  replied-got_result s (err e) = refl
  replied-got_result s panic = refl

  pub replied-put_result :
      (s : S) (o : Outcome (Unit {0}))
      → replied (s, put_result o) ≡ (
        s,
        elim o [
          | ok _ ↦ ok (string_result (codes "OK"))
          | err e ↦ ok (error_result (codes "Put value failed"))
          | panic ↦ panic
        ],
      )
  replied-put_result s (ok v) = refl
  replied-put_result s (err e) = refl
  replied-put_result s panic = refl

  -- Whatever the letters' case of the command, GET of a key answers with what the store has under it,
  -- nil where it has nothing and the message "Get value failed." where the store gives an error, and
  -- leaves the state; PUT of a key and a value puts it, leaves the state that the store leaves, and
  -- answers OK, or the message "Put value failed" where the store gives an error. A panic of the store
  -- goes on; further arguments play no part.
  pub process_command-kv :
      (name key val : Text) (rest : List Text) (s : S)
      → (to_lower name ≡ codes "get"
          → process_command served (name ∷ key ∷ rest) s ≡ (
            s,
            elim (kv.get s key) [
              | ok found ↦ ok (elim found [ none ↦ nil_result | some v ↦ value_result v ])
              | err e ↦ ok (error_result (codes "Get value failed."))
              | panic ↦ panic
            ],
          ))
        × (to_lower name ≡ codes "put"
            → process_command served (name ∷ key ∷ val ∷ rest) s ≡ (
              (kv.put key val s).0,
              elim (kv.put key val s).1 [
                | ok _ ↦ ok (string_result (codes "OK"))
                | err e ↦ ok (error_result (codes "Put value failed"))
                | panic ↦ panic
              ],
            ))
  unfolding resp_get resp_put
  process_command-kv name key val rest s = (
    (λ e.
        process_command-some served (resp_get kv) name (key ∷ rest) s
          (ap (λ k. lookup k served) e ∙ get_served)
        ∙ replied-got_result s (kv.get s key)),
    λ e.
        process_command-some served (resp_put kv) name (key ∷ val ∷ rest) s
          (ap (λ k. lookup k served) e ∙ put_served)
        ∙ replied-put_result (kv.put key val s).0 (kv.put key val s).1,
  )
