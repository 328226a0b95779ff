-- ===== src/Protocol/Examples.antt =====
-- src/net/protocol.rs at concrete inputs.
use gyt.Base.{◌≡◌, refl, ◌≢◌, none, some, List, [], ◌∷◌, map, arith, ok, err, stuck, parse}
use gyt.Text.Cuts.{Bytes, codes, eq_bytes, split_once}
use gyt.Text.Lines.{split_inclusive, strip_suffix}
use gyt.Text.Utf8.{is_utf8}
use gyt.Text.Fields.{keyword-IsField}
use gyt.Hash.{ObjectId, to_hex, from_hex}
use gyt.Hash.Examples.{id_of}
use gyt.Protocol.{
  PackEntry, RefUpdate, zero_id, parse_wants, each_line, parse_want, encode_ref_updates,
  parse_ref_updates, parse_ref_update, update_line, encode_pack, parse_pack_entry, parse_pack_loop,
  parse_pack, parse_packfile, RefEntry, info_line, encode_info_refs, parse_info_ref,
  parse_info_refs, was_seen,
}
use gyt.Protocol.Pack.{without_id, parse_pack-encode_pack, parse_pack-ne-stuck}
use gyt.Protocol.InfoRefs.{IsEntry, parse_info_refs-encode_info_refs}
use gyt.Object.Store.Examples.{stored_xz}
use gyt.Protocol.Updates.{IsUpdate, parse_ref_updates-encode_ref_updates}

abbrev two_ids : List ObjectId
two_ids = id_of 1 2 3 4 ∷ id_of 5 6 7 8 ∷ []

short_want : parse_wants (codes "00ff") ≡ err (parse "wants line: expected 64-char hex")
unfolding parse_wants is_utf8 each_line split_inclusive strip_suffix parse_want
short_want = refl

empty_entry : parse_pack (0 ∷ 0 ∷ 0 ∷ 0 ∷ []) ≡ err (parse "pack: zero-length entry")
unfolding parse_pack parse_pack_loop parse_pack_entry
empty_entry = refl

truncated_entry :
    parse_pack (2 ∷ 0 ∷ 0 ∷ 0 ∷ 7 ∷ []) ≡ err (parse "pack: declared length exceeds remaining")
unfolding parse_pack parse_pack_loop parse_pack_entry
truncated_entry = refl

abbrev one_entry : List PackEntry
one_entry = record { id = id_of 1 2 3 4; bytes = 7 ∷ 8 ∷ [] } ∷ []

one_entry_encoded : encode_pack one_entry ≡ some (2 ∷ 0 ∷ 0 ∷ 0 ∷ 7 ∷ 8 ∷ [])
unfolding encode_pack
one_entry_encoded = refl

parse_pack-encode_pack_example :
    (body : Bytes) × (encode_pack one_entry ≡ some body)
    × (parse_pack body ≡ ok (map without_id one_entry))
parse_pack-encode_pack_example = parse_pack-encode_pack one_entry (omega arith) (omega arith)

parse_pack-ne-stuck_example : parse_pack (9 ∷ 9 ∷ []) ≢ stuck
parse_pack-ne-stuck_example = parse_pack-ne-stuck (9 ∷ 9 ∷ [])

abbrev create_main : RefUpdate
create_main = record { old = none; new = id_of 1 2 3 4; name = codes "refs/heads/main" }

create_main-IsUpdate : IsUpdate create_main
create_main-IsUpdate = record {
  old = λ id e. absurd (cc);
  new = omega arith;
  nonempty = λ e. cc;
  one_line = (keyword-IsField (codes "refs/heads/main") refl).one_line;
  utf8 = (keyword-IsField (codes "refs/heads/main") refl).utf8;
}

-- The zero id as an old value reads back as none.
zero_old :
    parse_ref_updates (
      encode_ref_updates
        (record { old = some zero_id; new = id_of 1 2 3 4; name = codes "r" } ∷ []))
    ≡ ok (record { old = none; new = id_of 1 2 3 4; name = codes "r" } ∷ [])
unfolding parse_ref_updates encode_ref_updates update_line to_hex from_hex is_utf8 each_line
    split_inclusive strip_suffix parse_ref_update split_once eq_bytes
zero_old = refl

parse_ref_updates-encode_ref_updates_example :
    parse_ref_updates (encode_ref_updates (create_main ∷ [])) ≡ ok (create_main ∷ [])
parse_ref_updates-encode_ref_updates_example =
    parse_ref_updates-encode_ref_updates (create_main ∷ []) (create_main-IsUpdate, tt)

unknown_version : parse_packfile stored_xz (3 ∷ []) ≡ err (parse "packfile: unknown version byte")
unfolding parse_packfile
unknown_version = refl

abbrev main_entry : RefEntry
main_entry = record { name = codes "refs/heads/main"; id = id_of 1 2 3 4 }

duplicate_name :
    parse_info_refs (encode_info_refs (main_entry ∷ main_entry ∷ []))
    ≡ err (parse "info/refs line: duplicate refname")
unfolding parse_info_refs encode_info_refs info_line parse_info_ref was_seen to_hex from_hex is_utf8
    each_line split_inclusive strip_suffix split_once eq_bytes
duplicate_name = refl

main_entry-IsEntry : IsEntry main_entry
main_entry-IsEntry = record {
  id = omega arith;
  nonempty = λ e. cc;
  short = omega arith;
  one_line = (keyword-IsField (codes "refs/heads/main") refl).one_line;
  utf8 = (keyword-IsField (codes "refs/heads/main") refl).utf8;
}

parse_info_refs-encode_info_refs_example :
    parse_info_refs (encode_info_refs (main_entry ∷ [])) ≡ ok (main_entry ∷ [])
unfolding was_seen
parse_info_refs-encode_info_refs_example =
    parse_info_refs-encode_info_refs (main_entry ∷ []) (main_entry-IsEntry, tt) (refl, tt)
      (omega arith)
