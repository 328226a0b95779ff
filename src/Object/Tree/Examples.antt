-- ===== src/Object/Tree/Examples.antt =====
-- src/object/tree.rs at concrete inputs.
use gyt.Base.{◌≡◌, refl, ◌≢◌, ◌↔◌, [], ◌∷◌, ◌++◌, arith, All, ok, err, stuck, object}
use gyt.Text.Cuts.{Bytes, codes, eq_bytes, split_once}
use gyt.Text.Utf8.{is_utf8}
use gyt.Text.Radix.{print_radix, from_str_radix}
use gyt.Text.Order.{lt_bytes, sort_by, IsAscending}
use gyt.Hash.{from_bytes}
use gyt.Hash.Examples.{id_of}
use gyt.Object.{tree}
use gyt.Object.Store.{build_raw}
use gyt.Object.Store.Reading.{IsIntact}
use gyt.Object.Store.Examples.{stored_xz, count_hash, no_packs, empty_disk}
use gyt.Object.Tree.Stored.{write_entries, read_entries, read_entries-write_entries}
use gyt.Object.Tree.{
  encode_entry, encode_entries, TreeEntry, mode_file, mode_dir, is_known_mode, is_dot_gyt,
  check_name_bytes, validate_entry_name, encode, not_above, decode_entry, decode_loop, decode,
}
use gyt.Object.Tree.Names.{IsSafeName, validate_entry_name_iff}
use gyt.Object.Tree.Entries.{IsValidEntry}
use gyt.Object.Tree.RoundTrip.{name_of, decode-encode_tree}
use gyt.Object.Tree.Canonical.{decode-eq-ok_tree, decode-ne-stuck_tree}

abbrev readme : TreeEntry
readme = record { mode = mode_file; name = codes "b"; hash = id_of 1 2 3 4 }

abbrev source : TreeEntry
source = record { mode = mode_dir; name = codes "a"; hash = id_of 5 6 7 8 }

abbrev payload : Bytes
payload = codes "40000 a" ++ (0 ∷ id_of 5 6 7 8) ++ codes "100644 b" ++ (0 ∷ id_of 1 2 3 4)

decode_runs : decode payload ≡ ok (source ∷ readme ∷ [])
unfolding decode decode_loop decode_entry not_above lt_bytes split_once is_utf8 from_str_radix
    eq_bytes print_radix is_known_mode validate_entry_name is_dot_gyt check_name_bytes from_bytes
decode_runs = refl

-- A mode with a zero in front is refused.
decode_padded :
    decode (codes "0100644 b" ++ (0 ∷ id_of 1 2 3 4))
    ≡ err (object "tree: non-canonical mode token")
unfolding decode decode_loop decode_entry not_above lt_bytes split_once is_utf8 from_str_radix
    eq_bytes print_radix is_known_mode validate_entry_name is_dot_gyt check_name_bytes from_bytes
decode_padded = refl

name_refused : validate_entry_name (codes ".GyT") ≡ err (object "tree: entry name is .gyt")
unfolding validate_entry_name eq_bytes is_dot_gyt
name_refused = refl

name_accepted : validate_entry_name (codes "a") ≡ ok tt
unfolding validate_entry_name eq_bytes is_dot_gyt check_name_bytes
name_accepted = refl

IsValidEntry-readme : IsValidEntry readme
unfolding is_known_mode
IsValidEntry-readme = record {
  known = refl;
  safe =
      (validate_entry_name_iff (codes "b")).0
        (unfold validate_entry_name eq_bytes is_dot_gyt check_name_bytes in refl);
  id = refl;
}

IsValidEntry-source : IsValidEntry source
unfolding is_known_mode
IsValidEntry-source = record {
  known = refl;
  safe = (validate_entry_name_iff (codes "a")).0 name_accepted;
  id = refl;
}

validate_entry_name_iff_example : (validate_entry_name (codes "a") ≡ ok tt) ↔ IsSafeName (codes "a")
validate_entry_name_iff_example = validate_entry_name_iff (codes "a")

decode-encode_tree_example :
    decode (encode (readme ∷ source ∷ [])) ≡ ok (sort_by name_of (readme ∷ source ∷ []))
decode-encode_tree_example =
    decode-encode_tree (readme ∷ source ∷ []) (IsValidEntry-readme, (IsValidEntry-source, tt))
      (((λ e. ground arith), tt), (tt, tt)) (omega arith)

decode-eq-ok_tree_example :
    (encode (source ∷ readme ∷ []) ≡ payload)
    × All IsValidEntry (source ∷ readme ∷ [])
    × IsAscending name_of (source ∷ readme ∷ [])
decode-eq-ok_tree_example = decode-eq-ok_tree payload (source ∷ readme ∷ []) decode_runs

decode-ne-stuck_tree_example : decode payload ≢ stuck
decode-ne-stuck_tree_example = decode-ne-stuck_tree payload

empty_IsIntact :
    IsIntact count_hash stored_xz empty_disk (build_raw tree (encode (readme ∷ source ∷ [])))
empty_IsIntact = record { copy = λ stored found. absurd (cc) }

read_entries-write_entries_example :
    read_entries count_hash stored_xz no_packs
      (write_entries count_hash stored_xz empty_disk (readme ∷ source ∷ [])).1
      (write_entries count_hash stored_xz empty_disk (readme ∷ source ∷ [])).0
    ≡ ok (sort_by name_of (readme ∷ source ∷ []))
unfolding encode sort_by lt_bytes encode_entries encode_entry print_radix build_raw
read_entries-write_entries_example =
    read_entries-write_entries count_hash stored_xz no_packs empty_disk (readme ∷ source ∷ [])
      (IsValidEntry-readme, (IsValidEntry-source, tt)) (((λ e. ground arith), tt), (tt, tt))
      (omega arith) (omega arith) (omega arith) empty_IsIntact
