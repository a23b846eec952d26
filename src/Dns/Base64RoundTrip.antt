-- ===== src/Dns/Base64RoundTrip.antt =====
-- The unpadded base64url encoding of RFC 4648 is undone by the decoding of Go.
use nekoq_bootstrap.Base.{
  List, Text, [], arith, false, if◌then◌else◌, ltb, nat_same, refl, some, ℕ, ◌%◌, ◌*◌, ◌+◌, ◌-◌,
  ◌/◌, ◌<◌, ◌||◌, ◌∷◌, ◌≡◌,
}
use nekoq_bootstrap.Dns.Base64.{decode_string, digit64, digits64, quanta}

-- The digit of a value below 64.
unfoldable pub url_digit : ℕ → ℕ
url_digit v =
    if ltb v 26
    then v + b'A'
    else if ltb v 52
    then v - 26 + b'a'
    else if ltb v 62
    then v - 52 + b'0'
    else if nat_same v 62
    then b'-'
    else b'_'

unfoldable pub encode64 : Text → Text
encode64 [] = []
encode64 (x ∷ []) = url_digit (x / 4) ∷ url_digit (x % 4 * 16) ∷ []
encode64 (x ∷ y ∷ []) =
    url_digit (x / 4) ∷ url_digit (x % 4 * 16 + y / 16) ∷ url_digit (y % 16 * 4) ∷ []
encode64 (x ∷ y ∷ z ∷ rest) =
    url_digit (x / 4)
    ∷ url_digit (x % 4 * 16 + y / 16)
    ∷ url_digit (y % 16 * 4 + z / 64)
    ∷ url_digit (z % 64)
    ∷ encode64 rest

abbrev pub AllBytes : Text → Type 0
AllBytes [] = Unit {0}
AllBytes (x ∷ xs) = (x < 256) × AllBytes xs

-- The values of the digits.
values64 : Text → List ℕ
values64 [] = []
values64 (x ∷ []) = x / 4 ∷ x % 4 * 16 ∷ []
values64 (x ∷ y ∷ []) = x / 4 ∷ (x % 4 * 16 + y / 16) ∷ y % 16 * 4 ∷ []
values64 (x ∷ y ∷ z ∷ rest) =
    x / 4 ∷ (x % 4 * 16 + y / 16) ∷ (y % 16 * 4 + z / 64) ∷ z % 64 ∷ values64 rest

url_digit-digit64 :
    (v : ℕ)
    → v < 64
    → ((nat_same (url_digit v) 10 || nat_same (url_digit v) 13) ≡ false)
      × (digit64 (url_digit v) ≡ some v)
unfolding url_digit digit64
url_digit-digit64 v h = ground arith

digits64-cons :
    (v : ℕ) (s : Text) (vs : List ℕ)
    → v < 64
    → digits64 s ≡ some vs
    → digits64 (url_digit v ∷ s) ≡ some (v ∷ vs)
unfolding digits64
digits64-cons v s vs h e =
    let (no_break, value) = url_digit-digit64 v h in rw no_break (rw value (rw e refl))

digits64-encode64 :
    (bytes : Text) → AllBytes bytes → digits64 (encode64 bytes) ≡ some (values64 bytes)
unfolding encode64 values64
digits64-encode64 [] h = unfold digits64 in refl
digits64-encode64 (x ∷ []) h =
    digits64-cons _ _ _ (omega arith) (digits64-cons _ _ _ (omega arith) (unfold digits64 in refl))
digits64-encode64 (x ∷ y ∷ []) h = digits64-cons _ _ _ (omega arith) (
    digits64-cons _ _ _ (omega arith) (digits64-cons _ _ _ (omega arith) (unfold digits64 in refl)))
digits64-encode64 (x ∷ y ∷ z ∷ rest) (hx, (hy, (hz, h))) = digits64-cons _ _ _ (omega arith) (
    digits64-cons _ _ _ (omega arith) (
      digits64-cons _ _ _ (omega arith)
        (digits64-cons _ _ _ (omega arith) (digits64-encode64 rest h))))

quanta-values64 : (bytes : Text) → AllBytes bytes → quanta (values64 bytes) ≡ some bytes
unfolding values64 quanta
quanta-values64 [] h = refl
quanta-values64 (x ∷ []) h = ground arith
quanta-values64 (x ∷ y ∷ []) h = ground arith
quanta-values64 (x ∷ y ∷ z ∷ rest) (hx, (hy, (hz, h))) = ground (arith, quanta-values64 rest h)

-- The encoding of bytes decodes to them.
pub decode_string-encode64 :
    (bytes : Text) → AllBytes bytes → decode_string (encode64 bytes) ≡ some bytes
unfolding decode_string
decode_string-encode64 bytes h =
    rw (decode_string, digits64-encode64 bytes h) (quanta-values64 bytes h)
