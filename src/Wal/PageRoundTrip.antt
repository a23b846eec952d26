-- ===== src/Wal/PageRoundTrip.antt =====
-- A page that `prepareDataBufByPage` of internal/wal/wal.go makes is read back by `pageRecordsInfo`.
use Prim.Native.Nat.{bit_and, bit_or}
use nekoq_bootstrap.Base.{
  Text, [], ap, arith, length, length-append, length-replicate, length-take, ok, refl, replicate,
  suc, sym, take, take-append, zero, ℕ, ◌%◌, ◌+◌, ◌-◌, ◌/◌, ◌<◌, ◌^◌, ◌∙◌, ◌∷◌, ◌≡◌, ◌≤◌,
}
use nekoq_bootstrap.Wal.Page.{
  EntryType, be_uint16, be_uint32, broken_end, crc32, end, entry_header, entry_type_code,
  entry_type_mask, middle, page_body, page_records_info, page_with, prepare_data_buf_by_page,
  record_header_size, slice, start, whole,
}

be_uint16_of : (n : ℕ) → n < 2 ^ 16 → be_uint16 (n / 256) (n % 256) ≡ n
be_uint16_of n h = omega arith

be_uint32_of :
    (n : ℕ)
    → n < 2 ^ 32
    → be_uint32 (n / 2 ^ 24 % 256) (n / 2 ^ 16 % 256) (n / 2 ^ 8 % 256) (n % 256) ≡ n
be_uint32_of n h = omega arith

pub crc32-lt : (s : Text) → crc32 s < 2 ^ 32
unfolding crc32
crc32-lt s = omega arith

type_of :
    (t : EntryType)
    → bit_and (bit_or entry_header (entry_type_code t)) entry_type_mask ≡ entry_type_code t
type_of whole = refl
type_of start = refl
type_of middle = refl
type_of end = refl
type_of broken_end = refl

length-page_body : (room : ℕ) (dat : Text) → length (page_body room dat) ≡ room
length-page_body room dat = omega (
  arith,
  length-append (take room dat) (replicate (room - length dat) 0),
  length-take room dat,
  length-replicate {A = ℕ} (room - length dat) 0,
)

-- A page has exactly the page size.
pub length-prepare :
    (size : ℕ) (dat : Text) (t : EntryType)
    → record_header_size ≤ size
    → length (prepare_data_buf_by_page size dat t) ≡ size
unfolding prepare_data_buf_by_page
length-prepare size dat t h = omega (arith, length-page_body (size - record_header_size) dat)

take_all : (n : ℕ) (xs : Text) → length xs ≤ n → take n xs ≡ xs
take_all zero [] h = refl
take_all zero (x ∷ xs) h = absurd (omega arith)
take_all (suc n) [] h = refl
take_all (suc n) (x ∷ xs) h = ap (◌∷◌ x) (take_all n xs (omega arith))

slice-body :
    (room : ℕ) (dat : Text) (b0 b1 b2 b3 b4 b5 b6 b7 hi : ℕ)
    → length dat ≤ room
    → hi ≡ 8 + length dat
    → slice (b0 ∷ b1 ∷ b2 ∷ b3 ∷ b4 ∷ b5 ∷ b6 ∷ b7 ∷ page_body room dat) 8 hi ≡ ok dat
unfolding slice
slice-body room dat b0 b1 b2 b3 b4 b5 b6 b7 hi h e =
    let size = length-page_body room dat in
    let cut : take (hi - 8) (page_body room dat) ≡ dat =
      rw (take_all room dat h)
        (take-append (hi - 8) dat (replicate (room - length dat) 0) (omega arith)) in
    rw cut (ground (arith, size))

-- When the checksum, the length test and the slice pass.
page_records_info-ok :
    (b0 b1 b2 b3 b4 b5 b6 b7 n : ℕ) (body dat : Text)
    → be_uint16 b1 b2 ≡ n
    → crc32 (b0 ∷ b1 ∷ b2 ∷ 0 ∷ 0 ∷ 0 ∷ 0 ∷ b7 ∷ body) ≡ be_uint32 b3 b4 b5 b6
    → n + 8 < 2 ^ 16
    → n ≤ length body
    → slice (b0 ∷ b1 ∷ b2 ∷ 0 ∷ 0 ∷ 0 ∷ 0 ∷ b7 ∷ body) 8 ((8 + n) % 2 ^ 16) ≡ ok dat
    → page_records_info (b0 ∷ b1 ∷ b2 ∷ b3 ∷ b4 ∷ b5 ∷ b6 ∷ b7 ∷ body)
      ≡ ok (record { content = dat; code = bit_and b0 entry_type_mask } ∷ [])
unfolding page_records_info
page_records_info-ok b0 b1 b2 b3 b4 b5 b6 b7 n body dat e c lt le sl = rw e (rw sl (ground arith))

-- For pages of at least the header and less than 65536 bytes, the checksum, the length test and the
-- slice of `pageRecordsInfo` all pass on a page that was made from data that fits, and give back
-- the data and the type.
pub page_records_info-prepare :
    (size : ℕ) (dat : Text) (t : EntryType)
    → record_header_size ≤ size
    → size < 2 ^ 16
    → length dat ≤ size - record_header_size
    → page_records_info (prepare_data_buf_by_page size dat t)
      ≡ ok (record { content = dat; code = entry_type_code t } ∷ [])
unfolding prepare_data_buf_by_page
page_records_info-prepare size dat t h lt fits =
    let hd = bit_or entry_header (entry_type_code t) in
    let len = length dat % 2 ^ 16 in
    let crc = crc32 (page_with size 0 t dat) in
    page_records_info-ok hd (len / 256) (len % 256) (crc / 2 ^ 24 % 256) (crc / 2 ^ 16 % 256)
      (crc / 2 ^ 8 % 256) (crc % 256) 0 (length dat) (page_body (size - record_header_size) dat) dat
      (omega arith) (sym (be_uint32_of crc (crc32-lt (page_with size 0 t dat)))) (omega arith)
      (omega (arith, length-page_body (size - record_header_size) dat))
      (slice-body (size - record_header_size) dat hd (len / 256) (len % 256) 0 0 0 0 0
        ((8 + length dat) % 2 ^ 16) fits (omega arith))
    ∙ ap (λ c. ok (record { content = dat; code = c } ∷ [])) (type_of t)
