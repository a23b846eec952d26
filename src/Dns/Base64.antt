-- ===== src/Dns/Base64.antt =====
-- encoding/base64 as internal/dnscore/service.httpdns.go uses it: RawURLEncoding.DecodeString.
use nekoq_bootstrap.Base.{
  List, Option, Text, [], if◌then◌else◌, leb, nat_same, none, some, ℕ, ◌%◌, ◌&&◌, ◌*◌, ◌+◌, ◌-◌,
  ◌/◌, ◌||◌, ◌∷◌,
}

-- The value of a digit of the URL alphabet.
unfoldable pub digit64 : ℕ → Option ℕ
digit64 c =
    if leb b'A' c && leb c b'Z'
    then some (c - b'A')
    else if leb b'a' c && leb c b'z'
    then some (c - b'a' + 26)
    else if leb b'0' c && leb c b'9'
    then some (c - b'0' + 52)
    else if nat_same c b'-'
    then some 62
    else if nat_same c b'_'
    then some 63
    else none

-- Line breaks are skipped wherever they stand.
unfoldable pub digits64 : Text → Option (List ℕ)
digits64 [] = some []
digits64 (c ∷ s) =
    let rest = digits64 s in
    if nat_same c 10 || nat_same c 13 then rest else elim (digit64 c) [
      | none ↦ none
      | some v ↦ elim rest [ none ↦ none | some vs ↦ some (v ∷ vs) ]
    ]

-- Four digits make three bytes. Without padding the last group may have two or three digits, whose
-- last bits are not looked at.
unfoldable pub quanta : List ℕ → Option Text
quanta [] = some []
quanta (a ∷ []) = none
quanta (a ∷ b ∷ []) = some ((a * 4 + b / 16) ∷ [])
quanta (a ∷ b ∷ c ∷ []) = some ((a * 4 + b / 16) ∷ (b % 16 * 16 + c / 4) ∷ [])
quanta (a ∷ b ∷ c ∷ d ∷ rest) = elim (quanta rest) [
  | none ↦ none
  | some bytes ↦ some ((a * 4 + b / 16) ∷ (b % 16 * 16 + c / 4) ∷ (c % 4 * 64 + d) ∷ bytes)
]

unfoldable pub decode_string : Text → Option Text
decode_string s = elim (digits64 s) [ none ↦ none | some vs ↦ quanta vs ]
