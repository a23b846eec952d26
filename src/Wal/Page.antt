-- ===== src/Wal/Page.antt =====
-- One page of a log file: `prepareDataBufByPage` and `pageRecordsInfo` of internal/wal/wal.go, with
-- hash/crc32. A page is `header | type`, the data length (2 bytes), the checksum of the page with the
-- checksum zeroed (4 bytes), a reserved byte, the data, and zeros.
use Prim.Native.Nat.{bit_and, bit_or, bit_xor}
use nekoq_bootstrap.Base.{
  List, Outcome, Text, [], drop, err, if◌then◌else◌, length, length_field_exceeded, ltb, nat_same,
  not, ok, page_crc_mismatch, panic, replicate, suc, take, zero, ℕ, ◌%◌, ◌*◌, ◌++◌, ◌+◌, ◌-◌, ◌/◌,
  ◌>>=◌, ◌^◌, ◌||◌, ◌∷◌,
}

pub data EntryType : Type 0 where
  whole start middle end broken_end : EntryType

abbrev pub entry_type_code : EntryType → ℕ
entry_type_code whole = 0b1001
entry_type_code start = 0b1010
entry_type_code middle = 0b1011
entry_type_code end = 0b1100
entry_type_code broken_end = 0b1101

abbrev pub entry_type_mask : ℕ
entry_type_mask = 0b1111

abbrev pub entry_header : ℕ
entry_header = 0b10100000

abbrev pub record_header_size : ℕ
record_header_size = 8

crc32_bits : ℕ → ℕ → ℕ
crc32_bits zero crc = crc
crc32_bits (suc k) crc =
    crc32_bits k (if nat_same (crc % 2) 1 then bit_xor (crc / 2) 0xedb88320 else crc / 2)

crc32_bytes : Text → ℕ → ℕ
unfolding crc32_bits
crc32_bytes [] crc = crc
crc32_bytes (b ∷ s) crc = crc32_bytes s (crc32_bits 8 (bit_xor crc b))

-- crc32.Checksum(s, crc32.IEEETable), a uint32
unfoldable pub crc32 : Text → ℕ
unfolding crc32_bytes
crc32 s = bit_xor (crc32_bytes s 0xffffffff) 0xffffffff % 2 ^ 32

-- binary.BigEndian
abbrev pub be_uint16 : ℕ → ℕ → ℕ
be_uint16 b1 b0 = b1 * 256 + b0

abbrev pub be_uint32 : ℕ → ℕ → ℕ → ℕ → ℕ
be_uint32 b3 b2 b1 b0 = b3 * 2 ^ 24 + b2 * 2 ^ 16 + b1 * 2 ^ 8 + b0

-- copy(buf[8:], dat): what fits, then the zeros that were there.
abbrev pub page_body : ℕ → Text → Text
page_body room dat = take room dat ++ replicate (room - length dat) 0

-- The page with the given checksum in place.
unfoldable pub page_with : ℕ → ℕ → EntryType → Text → Text
page_with size crc t dat =
    let len = length dat % 2 ^ 16 in
    bit_or entry_header (entry_type_code t)
    ∷ len / 256
    ∷ len % 256
    ∷ crc / 2 ^ 24 % 256
    ∷ crc / 2 ^ 16 % 256
    ∷ crc / 2 ^ 8 % 256
    ∷ crc % 256
    ∷ 0
    ∷ page_body (size - record_header_size) dat

-- For pages of at least `record_header_size` bytes; a smaller one would panic.
unfoldable pub prepare_data_buf_by_page : ℕ → Text → EntryType → Text
unfolding page_with
prepare_data_buf_by_page size dat t = page_with size (crc32 (page_with size 0 t dat)) t dat

-- The type of a record that was read is whatever number stands there.
pub record RecordInfo : Type 0 where
  pub content : Text
  pub code : ℕ

-- buf[lo:hi] of a slice
unfoldable pub slice : Text → ℕ → ℕ → Outcome Text
slice buf lo hi =
    if ltb hi lo || ltb (length buf) hi then panic else ok (take (hi - lo) (drop lo buf))

-- `length + 8` is a uint16 sum, in the test and in the slice.
unfoldable pub page_records_info : Text → Outcome (List RecordInfo)
page_records_info (b0 ∷ b1 ∷ b2 ∷ b3 ∷ b4 ∷ b5 ∷ b6 ∷ b7 ∷ body) =
    let buf : Text = b0 ∷ b1 ∷ b2 ∷ 0 ∷ 0 ∷ 0 ∷ 0 ∷ b7 ∷ body in
    let len = be_uint16 b1 b2 in
    if not (nat_same (crc32 buf) (be_uint32 b3 b4 b5 b6))
    then err page_crc_mismatch
    else if ltb (length buf) ((len + 8) % 2 ^ 16)
    then err length_field_exceeded
    else do
      content ← slice buf 8 ((8 + len) % 2 ^ 16)
      ok (record { content = content; code = bit_and b0 entry_type_mask } ∷ [])
page_records_info _ = panic
