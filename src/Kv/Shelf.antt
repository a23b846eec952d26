-- ===== src/Kv/Shelf.antt =====
-- A store that is a map, with a plain encoding and an open log, for examples.
use nekoq_bootstrap.Base.{Text, [], codes, false, nat_key, ok, some, text_key, ◌∷◌}
use nekoq_bootstrap.Base.Maps.{Map, insert, lookup}
use nekoq_bootstrap.Kv.Sole.{Cbor}
use nekoq_bootstrap.Kv.Storage.{Diskv}
use nekoq_bootstrap.Wal.Disk.{DiskWal, opened}

abbrev pub Shelf : Type 0
Shelf = Map Text Text

abbrev pub map_diskv : Diskv Shelf
map_diskv = record {
  write = λ k v d. (insert k v d, ok tt);
  read = λ d k. ok (lookup k d);
  keys = λ d. [];
}

-- An encoding by the value alone, of entries with one key.
abbrev pub value_cbor : Cbor
value_cbor = record {
  marshal_entry = λ e. ok e.value;
  unmarshal_entry = λ s. ok (record { key = codes "k"; value = s; deletion = false });
  marshal_sequence = λ s. ok [];
  unmarshal_sequence = λ s. ok (record { term = 0; collection = 0; seq = 0 });
}

abbrev pub open_log : DiskWal
open_log = record {
  cur_term = 1;
  cur_collection = 1;
  cur_seq = 0;
  page_occupied = 0;
  max_file_size = 64;
  max_page_size = 16;
  cur_file = some (opened (codes "f"));
  dirty = false;
  files = (codes "f", []) ∷ [];
  answers = [];
}
