-- ===== src/Replication/Client.antt =====
-- Resp2Client (internal/replication/communication.go), the client of another node. `exchange` is a
-- command sent by github.com/redis/go-redis over a network with the state `N`, to an address.
use nekoq_bootstrap.Base.{
  Bool, Error, List, Outcome, Text, [], and_then, codes, err, false, if◌then◌else◌, nat_key,
  nat_same, not_ok, ok, panic, suc, text_key, true, unknown_role, zero, ℕ, ◌==◌, ◌∷◌,
}
use nekoq_bootstrap.Base.Io.{Io, continue}
use nekoq_bootstrap.Kv.Sole.{Cbor}
use nekoq_bootstrap.Replication.Protocol.{command_role, command_sync_and_reg, command_wal_ship}
use nekoq_bootstrap.Replication.Standby.{ReplicatorRole, role_primary, role_standby}
use nekoq_bootstrap.Wal.Names.{SequenceId}

-- What a command comes to: a value of an interface type, with its dynamic type. Integers are not
-- negative, which is `other_reply`, as are the other types.
pub data RedisReply : Type 0 where
  int_reply int64_reply : ℕ → RedisReply
  string_reply bytes_reply : Text → RedisReply
  other_reply : RedisReply

-- The type assertions res.(int), res.([]byte) and res.(string)
abbrev pub as_int : RedisReply → Outcome ℕ
as_int (int_reply n) = ok n
as_int (int64_reply n) = panic
as_int (string_reply s) = panic
as_int (bytes_reply s) = panic
as_int other_reply = panic

abbrev pub as_bytes : RedisReply → Outcome Text
as_bytes (int_reply n) = panic
as_bytes (int64_reply n) = panic
as_bytes (string_reply s) = panic
as_bytes (bytes_reply s) = ok s
as_bytes other_reply = panic

abbrev pub as_string : RedisReply → Outcome Text
as_string (int_reply n) = panic
as_string (int64_reply n) = panic
as_string (string_reply s) = ok s
as_string (bytes_reply s) = panic
as_string other_reply = panic

abbrev pub role_of : ℕ → Outcome ReplicatorRole
role_of n =
    if nat_same n 1
    then ok role_primary
    else if nat_same n 2
    then ok role_standby
    else err unknown_role

-- `has_client` says that the field client is not nil.
pub record Resp2Client : Type 0 where
  pub addr : Text
  pub has_client : Bool

unfoldable pub new_resp2_client : Text → Resp2Client
new_resp2_client addr = record { addr = addr; has_client = false }

abbrev pub shipped_answer : Text → Outcome (Unit {0})
shipped_answer v = if v == codes "OK" then ok tt else err not_ok

module _ {N : Type 0} (exchange : Text → List Text → Io N RedisReply) where
  unfoldable pub client_role : Text → Io N ReplicatorRole
  client_role addr n =
      let (n', o) = exchange addr (command_role ∷ []) n in
      (n', and_then o (λ res. and_then (as_int res) role_of))

  -- A new connection, from the point at which there is none.
  unfoldable pub reconnect : Io (Resp2Client × N) ReplicatorRole
  reconnect (c, n) = let (n', o) = client_role c.addr n in ((record c { has_client = true }, n'), o)

  unfoldable pub do_connect : Io (Resp2Client × N) ReplicatorRole
  do_connect (c, n) =
      let (n', o) = client_role c.addr n in
      let fresh = reconnect (c, n) in
      let again = reconnect (c, n') in
      if c.has_client
      then (elim o [ ok r ↦ ((c, n'), ok r) | err e ↦ again | panic ↦ ((c, n'), panic) ])
      else fresh

  unfoldable pub sync_and_register : Cbor → Text → SequenceId → Text → Io N Text
  sync_and_register cbor addr seq node n =
      continue (cbor.marshal_sequence seq)
        (λ dat n'.
          let (n'', o) = exchange addr (command_sync_and_reg ∷ node ∷ dat ∷ []) n' in
          (n'', and_then o as_bytes))
        n

  -- The loop of walShip, which sleeps after a failure; `last` is the error of the attempt before.
  unfoldable pub ship_attempts : Text → Text → ℕ → Error → Io N (Unit {0})
  ship_attempts addr dat zero last n = (n, err last)
  ship_attempts addr dat (suc left) last n =
      let (n', o) = exchange addr (command_wal_ship ∷ dat ∷ []) n in
      elim o [
        | ok res ↦ (n', and_then (as_string res) shipped_answer)
        | err e ↦ ship_attempts addr dat left e n'
        | panic ↦ (n', panic)
      ]

  -- The first attempt is always made, so the error that is there before it is never the result.
  unfoldable pub wal_ship_to : Text → Text → Io N (Unit {0})
  wal_ship_to addr dat n = ship_attempts addr dat 3 not_ok n
