-- ===== src/Object/Store/Examples.antt =====
-- src/object/store.rs and src/compress.rs at concrete inputs. The stand-ins for the crates: an XZ
-- codec that stores the bytes as they are, and a hash that counts them.
use gyt.Base.{
  ◌%◌, ◌≤◌, ◌≡◌, refl, true, if◌then◌else◌, none, some, ◌∷◌, ◌++◌, arith, length, take, ok, err,
  object, not_found, false,
}
use gyt.Text.Cuts.{Bytes, codes, eq_bytes, split_once}
use gyt.Text.Utf8.{is_utf8}
use gyt.Text.Radix.{print_radix, from_str_radix}
use gyt.Hash.{ObjectId, to_hex}
use gyt.Hash.Examples.{id_of}
use gyt.Compress.{Xz, encode, decode, max_decompressed_bytes}
use gyt.Object.{blob, tree, as_str, parse_kind}
use gyt.Object.Store.{
  Disk, Packs, build_raw, parse_raw, path_for, usize_max, new, write_bytes, write, write_blob,
  read_loose, read, exists, read_blob,
}
use gyt.Object.Store.Framing.{parse_raw-eq-ok}
use gyt.Object.Store.Reading.{IsIntact, read-write_bytes, write_bytes_keeps, read_verified}

abbrev pub stored_xz : Xz
stored_xz = record {
  write = λ payload. payload;
  read = λ body n. ok (take n body);
  read-write = λ payload n. refl;
}

abbrev pub count_hash : Bytes → ObjectId
count_hash raw = id_of 0 0 0 (length raw % 256)

abbrev pub no_packs : Packs
no_packs = record { read_from_packs = λ id. ok none; id_in_packs = λ id. false }

abbrev pub empty_disk : Disk
empty_disk = record { files = λ p. none }

abbrev hi : Bytes
hi = codes "hi"

build_raw_runs : build_raw blob hi ≡ codes "blob 2" ++ (0 ∷ hi)
unfolding build_raw print_radix
build_raw_runs = refl

-- A sign before the size is accepted, although `build_raw` never writes one.
parse_raw_signed : parse_raw (codes "blob +2" ++ (0 ∷ hi)) ≡ ok (blob, hi)
unfolding parse_raw split_once is_utf8 parse_kind eq_bytes from_str_radix
parse_raw_signed = refl

parse_raw_wrong_size :
    parse_raw (codes "blob 3" ++ (0 ∷ hi)) ≡ err (object "header size differs from payload")
unfolding parse_raw split_once is_utf8 parse_kind eq_bytes from_str_radix
parse_raw_wrong_size = refl

read_missing :
    read count_hash stored_xz no_packs empty_disk (id_of 1 2 3 4) ≡ err (not_found "object")
unfolding read
read_missing = refl

exists_after_write :
    exists count_hash stored_xz no_packs
      (write count_hash stored_xz empty_disk (new count_hash stored_xz blob hi)).1
      (new count_hash stored_xz blob hi).id
    ≡ true
unfolding exists write new path_for eq_bytes to_hex build_raw print_radix
exists_after_write = refl

blob_after_write :
    read_blob count_hash stored_xz no_packs
      (write_blob count_hash stored_xz empty_disk hi).1
      (id_of 0 0 0 9)
    ≡ ok hi
unfolding read_blob read_loose write_blob path_for eq_bytes to_hex build_raw print_radix encode
    decode parse_raw split_once is_utf8 parse_kind from_str_radix
blob_after_write = refl

tree_is_no_blob :
    read_blob count_hash stored_xz no_packs
      (write_bytes count_hash stored_xz empty_disk tree hi).1
      (id_of 0 0 0 9)
    ≡ err (object "expected blob")
unfolding read_blob read_loose write_bytes path_for eq_bytes to_hex build_raw print_radix encode
    decode parse_raw split_once is_utf8 parse_kind from_str_radix
tree_is_no_blob = refl

parse_raw-eq-ok_example :
    (size : Bytes) × (codes "blob +2" ++ (0 ∷ hi) ≡ (as_str blob ++ (b' ' ∷ size)) ++ (0 ∷ hi))
    × (from_str_radix 10 usize_max size ≡ some (length hi))
parse_raw-eq-ok_example = parse_raw-eq-ok (codes "blob +2" ++ (0 ∷ hi)) blob hi parse_raw_signed

empty_IsIntact : IsIntact count_hash stored_xz empty_disk (build_raw blob hi)
empty_IsIntact = record { copy = λ stored found. absurd (cc) }

small_raw : length (build_raw blob hi) ≤ max_decompressed_bytes
unfolding build_raw print_radix
small_raw = omega arith

abbrev one_blob : Disk
one_blob = (write_bytes count_hash stored_xz empty_disk blob hi).1

read-write_bytes_example :
    read count_hash stored_xz no_packs one_blob
      (write_bytes count_hash stored_xz empty_disk blob hi).0
    ≡ ok (record { id = count_hash (build_raw blob hi); kind = blob; payload = hi })
read-write_bytes_example =
    read-write_bytes count_hash stored_xz no_packs empty_disk blob hi (omega arith) small_raw
      empty_IsIntact

abbrev file_at : Bytes → Bytes → Disk
file_at path content = record { files = λ p. if eq_bytes p path then some content else none }

write_bytes_keeps_example :
    (write_bytes count_hash stored_xz (record { files = λ p. some hi }) blob hi).1.files
      (path_for (id_of 1 2 3 4))
    ≡ some hi
write_bytes_keeps_example =
    write_bytes_keeps count_hash stored_xz (record { files = λ p. some hi }) blob hi
      (path_for (id_of 1 2 3 4))

abbrev raw_hi : Bytes
raw_hi = codes "blob 2" ++ (0 ∷ hi)

raw_reads :
    read count_hash stored_xz no_packs (record { files = λ p. some raw_hi }) (id_of 0 0 0 9)
    ≡ ok (record { id = id_of 0 0 0 9; kind = blob; payload = hi })
unfolding read read_loose decode eq_bytes parse_raw split_once is_utf8 parse_kind from_str_radix
raw_reads = refl

read_verified_example :
    (raw : Bytes) × (decode stored_xz raw_hi ≡ ok raw)
    × (count_hash raw ≡ id_of 0 0 0 9)
    × (id_of 0 0 0 9 ≡ id_of 0 0 0 9)
    × (parse_raw raw ≡ ok (blob, hi))
read_verified_example =
    read_verified count_hash stored_xz no_packs (record { files = λ p. some raw_hi })
      (id_of 0 0 0 9) raw_hi (record { id = id_of 0 0 0 9; kind = blob; payload = hi }) refl
      raw_reads
