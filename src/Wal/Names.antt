-- ===== src/Wal/Names.antt =====
-- Names of log files: `filename` and `walfilename` of internal/wal/wal.go, with the parts of fmt that
-- they use. A name is the term and the collection of the file, in sixteen hexadecimal digits each.
use Prim.Native.Nat.{Ordering}
use nekoq_bootstrap.Base.{
  Option, Outcome, Text, [], err, if◌then◌else◌, leb, length, ltb, name_length_mismatch,
  name_scan_failed, nat_same, none, not, ok, sequence_less_than_one, some, suc, zero, ℕ, ◌%◌, ◌&&◌,
  ◌*◌, ◌++◌, ◌+◌, ◌-◌, ◌/◌, ◌^◌, ◌||◌, ◌∷◌,
}

-- iface.SequenceId; terms, collections and sequence numbers are never negative.
pub record SequenceId : Type 0 where
  pub term : ℕ
  pub collection : ℕ
  pub seq : ℕ

abbrev pub int64_limit : ℕ
int64_limit = 2 ^ 63

unfoldable pub hex_digit : ℕ → ℕ
hex_digit d = if ltb d 10 then b'0' + d else b'a' + (d - 10)

-- The last `k` hexadecimal digits of a number.
unfoldable pub hex_digits : ℕ → ℕ → Text
unfolding hex_digit
hex_digits zero n = []
hex_digits (suc k) n = hex_digits k (n / 16) ++ hex_digit (n % 16) ∷ []

-- fmt.Sprintf("%016x%016x", term, collection), for numbers that fit sixteen digits
unfoldable pub filename : ℕ → ℕ → ℕ → Text
unfolding hex_digits
filename term collection seq = hex_digits 16 term ++ hex_digits 16 collection

-- The value of a hexadecimal digit, in either case.
unfoldable pub digit_value : ℕ → Option ℕ
digit_value c =
    if leb b'0' c && leb c b'9'
    then some (c - b'0')
    else if leb b'a' c && leb c b'f'
    then some (c - b'a' + 10)
    else if leb b'A' c && leb c b'F'
    then some (c - b'A' + 10)
    else none

-- The digits at the front of a text, `width` at most: how many, their value, and the rest.
unfoldable pub scan_digits : ℕ → ℕ → ℕ → Text → ℕ × ℕ × Text
unfolding digit_value
scan_digits zero count acc s = (count, acc, s)
scan_digits (suc width) count acc [] = (count, acc, [])
scan_digits (suc width) count acc (c ∷ s) = elim (digit_value c) [
  | none ↦ (count, acc, c ∷ s)
  | some d ↦ scan_digits width (count + 1) (acc * 16 + d) s
]

-- An unsigned `%016x` of fmt.Sscanf into an int64, at a text without spaces or a sign.
unfoldable pub scan_hex : Text → Option (ℕ × Text)
unfolding scan_digits
scan_hex s =
    let (count, value, rest) = scan_digits 16 0 0 s in
    if nat_same count 0 || leb int64_limit value then none else some (value, rest)

unfoldable pub walfilename : Text → Outcome (Text × SequenceId)
unfolding scan_hex
walfilename name =
    if not (nat_same (length name) 32) then err name_length_mismatch else elim (scan_hex name) [
      | none ↦ err name_scan_failed
      | some (v1, rest) ↦ elim (scan_hex rest) [
        | none ↦ err name_scan_failed
        | some (v2, _) ↦
            if leb v1 0 || leb v2 0
            then err sequence_less_than_one
            else ok (name, record { term = v1; collection = v2; seq = 0 })
      ]
    ]

-- iface.SequenceId.Compare
unfoldable pub compare_sequence : SequenceId → SequenceId → Ordering
compare_sequence s to =
    if ltb s.term to.term
    then Ordering.lt
    else if ltb to.term s.term
    then Ordering.gt
    else if ltb s.collection to.collection
    then Ordering.lt
    else if ltb to.collection s.collection
    then Ordering.gt
    else if ltb s.seq to.seq
    then Ordering.lt
    else if nat_same s.seq to.seq
    then Ordering.eq
    else Ordering.gt
