-- ===== src/Kv/Resp.antt =====
-- The RESP side of the store: internal/iface/resp2.go, internal/service/respservice.go and
-- internal/service/respservice.kv.go. A result is what it writes to the connection
-- (github.com/tidwall/redcon); a write never fails.
use nekoq_bootstrap.Base.{
  List, Option, Outcome, Text, [], codes, err, nat_key, none, ok, panic, some, text_key, ℕ, ◌++◌,
  ◌∷◌,
}
use nekoq_bootstrap.Base.Io.{Io, pure}
use nekoq_bootstrap.Base.Maps.{Map, insert, lookup}
use nekoq_bootstrap.MemStore.Domains.{to_lower}

-- iface.RespResult: RespErrorResult, RespNilResult, RespValueResult, RespStringResult, RespIntResult
pub data RespResult : Type 0 where
  error_result : Text → RespResult
  nil_result : RespResult
  value_result : Text → RespResult
  string_result : Text → RespResult
  int_result : ℕ → RespResult

-- iface.RespCommandHandler, over the state that the handlers share
abbrev pub RespCommandHandler : Type 0 → Type 0
RespCommandHandler S = List Text → Io S RespResult

-- iface.KVStorage
pub record KvStorage (S : Type 0) : Type 0 where
  pub put : Text → Text → Io S (Unit {0})
  pub get : S → Text → Outcome (Option Text)

abbrev pub CommandMapping : Type 0 → Type 0
CommandMapping S = Map Text (RespCommandHandler S)

unfoldable pub add_command_handler :
    {S : Type 0} → Text → RespCommandHandler S → CommandMapping S → CommandMapping S
add_command_handler command h mapping = insert (to_lower command) h mapping

-- NewResp2Service
unfoldable pub new_command_mapping : {S : Type 0} → CommandMapping S
new_command_mapping =
    add_command_handler (codes "PING") (λ args. pure (string_result (codes "PONG"))) []

abbrev pub replied : {S : Type 0} → S × Outcome RespResult → S × Outcome RespResult
replied (s, ok result) = (s, ok result)
replied (s, err e) = (s, ok (error_result (codes "Failure")))
replied (s, panic) = (s, panic)

-- processCommand: what is written to the connection. A command has at least its name.
unfoldable pub process_command : {S : Type 0} → CommandMapping S → List Text → Io S RespResult
process_command mapping [] s = (s, panic)
process_command mapping (name ∷ rest) s = elim (lookup (to_lower name) mapping) [
  | none ↦ (s, ok (error_result (codes "Unknown Command:" ++ to_lower name)))
  | some h ↦ replied (h (name ∷ rest) s)
]

abbrev pub got_result : Outcome (Option Text) → Outcome RespResult
got_result (ok none) = ok nil_result
got_result (ok (some val)) = ok (value_result val)
got_result (err e) = ok (error_result (codes "Get value failed."))
got_result panic = panic

abbrev pub put_result : Outcome (Unit {0}) → Outcome RespResult
put_result (ok _) = ok (string_result (codes "OK"))
put_result (err e) = ok (error_result (codes "Put value failed"))
put_result panic = panic

abbrev lacking : RespResult
lacking = error_result (codes "lack arguments")

module _ {S : Type 0} (kv : KvStorage S) where
  unfoldable pub resp_get : RespCommandHandler S
  resp_get (name ∷ key ∷ rest) s = (s, got_result (kv.get s key))
  resp_get _ s = (s, ok lacking)

  unfoldable pub resp_put : RespCommandHandler S
  resp_put (name ∷ key ∷ val ∷ rest) s = let (s', o) = kv.put key val s in (s', put_result o)
  resp_put _ s = (s, ok lacking)

  -- RespKVHandler.Register
  unfoldable pub register_kv : CommandMapping S → CommandMapping S
  register_kv mapping =
      add_command_handler (codes "put") resp_put
        (add_command_handler (codes "get") resp_get mapping)
