-- ===== src/Kv/Tests.antt =====
-- Examples of the store with a map in place of the disk.
use nekoq_bootstrap.Base.{
  List, Text, [], arith, codes, drop, false, length, nat_key, none, ok, refl, some, text_key,
  text_same, true, ◌==◌, ◌∷◌, ◌≡◌, ◌≤◌,
}
use nekoq_bootstrap.Base.Maps.{insert, is_empty, lookup, lookup-insert}
use nekoq_bootstrap.Kv.Commands.{process_command-kv, served}
use nekoq_bootstrap.Kv.EndToEnd.{get_over_http, kv_get-http_get, kv_put-http_put, put_over_http}
use nekoq_bootstrap.Kv.Http.{client_path, kv_get, kv_put, trim_space}
use nekoq_bootstrap.Kv.PutHistory.{Encodes, ReadsBack, last_put, put_all}
use nekoq_bootstrap.Kv.Recovery.{sole_put-invalid}
use nekoq_bootstrap.Kv.Resp.{KvStorage, process_command, value_result}
use nekoq_bootstrap.Kv.Shelf.{Shelf, map_diskv, open_log, value_cbor}
use nekoq_bootstrap.Kv.Sole.{WalEntry, recover, sole_get, sole_put, write_wal_entry}
use nekoq_bootstrap.Kv.Storage.{storage_get, validate_key_format, version_key}
use nekoq_bootstrap.Kv.WholeRecovery.{put_all-recover}
use nekoq_bootstrap.MemStore.Domains.{to_lower}
use nekoq_bootstrap.Wal.Disk.{DiskWal, new_disk_wal}
use nekoq_bootstrap.Wal.Durable.{IsWriting}
use nekoq_bootstrap.Wal.ReplayPages.{pages_of}
use nekoq_bootstrap.Wal.WholeLog.{IsNew}

abbrev entry_of : Text → WalEntry
entry_of s = record { key = codes "k"; value = s; deletion = false }

abbrev empty_log : DiskWal
empty_log = new_disk_wal [] []

bad_key : validate_key_format (codes "a b") ≡ false
unfolding validate_key_format
bad_key = refl

sole_put-invalid_example :
    (sole_put map_diskv value_cbor (codes "a b") (codes "v") (empty_log, [])).0 ≡ (
      (write_wal_entry map_diskv value_cbor
          (record { key = codes "a b"; value = codes "v"; deletion = false })
          empty_log).0,
      [],
    )
    × ¬ ((sole_put map_diskv value_cbor (codes "a b") (codes "v") (empty_log, [])).1 ≡ ok tt)
sole_put-invalid_example =
    sole_put-invalid map_diskv value_cbor (codes "a b") (codes "v") empty_log [] bad_key

abbrev map_store : KvStorage Shelf
map_store = record { put = λ k v d. (insert k v d, ok tt); get = λ d k. ok (lookup k d) }

abbrev after_prefix : Text → Text
after_prefix path = drop 18 path

not_blank : is_empty (trim_space (codes " k")) ≡ false
unfolding trim_space
not_blank = refl

routed : trim_space (after_prefix (client_path (trim_space (codes " k")))) ≡ trim_space (codes " k")
unfolding trim_space
routed = refl

kv_get-http_get_example :
    kv_get (get_over_http map_store after_prefix ((codes "k", codes "v") ∷ [])) (codes " k")
    ≡ ok (some (codes "v"))
unfolding lookup text_same trim_space
kv_get-http_get_example =
    kv_get-http_get map_store after_prefix ((codes "k", codes "v") ∷ []) (codes " k") not_blank
      routed

kv_put-http_put_example :
    kv_put (put_over_http map_store after_prefix []) (codes " k") (codes "v") ≡ ok tt
kv_put-http_put_example =
    kv_put-http_put map_store after_prefix [] (codes " k") (codes "v") not_blank routed

log-IsWriting : IsWriting (codes "f") 16 (pages_of 16 []) 1 open_log
unfolding lookup pages_of text_same
log-IsWriting = record {
  open_handle = refl;
  no_failure = refl;
  page_size = refl;
  content_there = refl;
  room = omega arith;
}

get_lowered : to_lower (codes "GeT") ≡ codes "get"
unfolding to_lower
get_lowered = refl

process_command-kv_example :
    process_command (served map_store) (codes "GeT" ∷ codes "k" ∷ []) ((codes "k", codes "v") ∷ [])
    ≡ ((codes "k", codes "v") ∷ [], ok (value_result (codes "v")))
unfolding lookup text_same
process_command-kv_example =
    (process_command-kv map_store (codes "GeT") (codes "k") (codes "v") []
        ((codes "k", codes "v") ∷ [])).0
      get_lowered

map_diskv-ReadsBack : ReadsBack map_diskv
map_diskv-ReadsBack = record {
  written = λ k v d. refl;
  read_back = λ k v q d. ground (arith, lookup-insert k q v d);
}

abbrev two_puts : List (Text × Text)
two_puts = (codes "k", codes "v1") ∷ (codes "k", codes "v2") ∷ []

value-Encodes : (v : Text) → length v ≤ 8 → Encodes value_cbor 16 (codes "k", v)
value-Encodes v h = record { dat = v; marshalled = refl; unmarshalled = refl; short = omega arith }

k_valid : validate_key_format (codes "k") ≡ true
unfolding validate_key_format
k_valid = refl

-- A log whose files hold one page each.
abbrev new_log : DiskWal
new_log = record open_log { cur_collection = 0; cur_file = none; files = []; max_file_size = 16 }

new_log-IsNew : IsNew 16 new_log
new_log-IsNew = record {
  no_files = refl;
  no_handle = refl;
  no_failure = refl;
  page_size = refl;
  term = refl;
  collection = refl;
}

abbrev older_data : Shelf
older_data = (codes "j", codes "v0") ∷ (codes "k", codes "v0") ∷ []

no_version : storage_get map_diskv older_data version_key ≡ ok none
unfolding storage_get validate_key_format lookup text_same
no_version = refl

put_all-recover_example :
    (d' : Shelf) × (recover map_diskv value_cbor
        ((put_all map_diskv value_cbor two_puts (new_log, [])).0, older_data)
      ≡ (((put_all map_diskv value_cbor two_puts (new_log, [])).0, d'), ok tt))
    × ((q : Text)
        → validate_key_format q ≡ true
        → (version_key == q) ≡ false
        → (sole_get map_diskv value_cbor (put_all map_diskv value_cbor two_puts (new_log, [])) q
            ≡ last_put two_puts q (storage_get map_diskv [] q))
          × (storage_get map_diskv d' q ≡ last_put two_puts q (storage_get map_diskv older_data q)))
put_all-recover_example =
    put_all-recover map_diskv value_cbor map_diskv-ReadsBack (λ s. ([], refl)) 16 (omega arith)
      two_puts new_log [] older_data (omega arith) (omega arith) (omega arith)
      (
        k_valid,
        value-Encodes (codes "v1") (omega arith),
        (k_valid, value-Encodes (codes "v2") (omega arith), tt),
      )
      new_log-IsNew no_version
