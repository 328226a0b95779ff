-- ===== src/RefsPolicy/IssueExamples.antt =====
-- src/net/refs_policy.rs at a concrete push of an issue that is there already.
use gyt.Base.{◌≡◌, refl, inl, Bool, true, false, none, some, [], ◌∷◌, ◌++◌}
use gyt.Text.Cuts.{Bytes, codes, eq_bytes, strip_prefix, split_once}
use gyt.Text.Utf8.{is_utf8}
use gyt.Text.Radix.{print_radix, from_str_radix}
use gyt.Text.Trim.{
  split, contains_pair, starts_with, ends_with, trim, trim_from, space_len, space_len_back,
  reversed,
}
use gyt.Hash.{ObjectId, to_hex, from_hex}
use gyt.Object.{blob, parse_kind}
use gyt.Object.Store.{Disk, build_raw, parse_raw, path_for, read, read_loose, write_bytes}
use gyt.Object.Store.Examples.{stored_xz, count_hash, no_packs, empty_disk}
use gyt.Refs.Directory.{file, GytDir, put}
use gyt.Refs.{
  validate_ref_name, check_ref_bytes, check_components, ends_in_lock, read_ref, parse_ref,
}
use gyt.Protocol.{RefUpdate}
use gyt.Text.Lines.{lines}
use gyt.Metadata.Limits.{check_text_field, check_bytes, check_ts, check_array, check_entries}
use gyt.Metadata.Toml.{
  read_line, parse_toml_string, parse_toml_string_array, unescape, unescape_char, escape_char, scan,
  scan_char, scan_quoted, chars, last_item, parse_u64,
}
use gyt.Metadata.Events.{keep_events, order_events, extend_events}
use gyt.Metadata.Issues as Issues
use gyt.Metadata.Issues.Codec as IssueCodec
use gyt.Metadata.Issues.Updates as IssueUpdates
use gyt.Metadata.Examples.{issue_blob}
use gyt.RefsPolicy.Evaluate.{
  force, is_null, is_metadata_ref, kind_fits, current, enforce_target_kind, extends_old,
  enforce_extends, enforce_by_name, enforce_metadata_monotonic, check_value, check_update,
  evaluate_with_mode,
}
use gyt.RefsPolicy.Histories.{Extended, clean_issue}

abbrev any_key : Unit {0} → Bytes → Bytes → Bool
any_key key payload sig = true

abbrev disk : Disk
disk = (write_bytes count_hash stored_xz empty_disk blob issue_blob).1

abbrev blob_id : ObjectId
blob_id = (write_bytes count_hash stored_xz empty_disk blob issue_blob).0

abbrev issue_ref : Bytes
issue_ref = codes "refs/issues/7"

abbrev dir : GytDir
dir = put (record { at = λ p. none }) issue_ref (some (file (to_hex blob_id ++ (b'\n' ∷ []))))

abbrev repetition : RefUpdate
repetition = record { old = none; new = blob_id; name = issue_ref }

repetition_passes :
    evaluate_with_mode any_key count_hash stored_xz no_packs dir disk
      (repetition ∷ [])
      force
      false
      []
    ≡ []
unfolding evaluate_with_mode check_update check_value enforce_target_kind enforce_metadata_monotonic
    enforce_by_name enforce_extends extends_old kind_fits is_null is_metadata_ref current read_ref
    put parse_ref strip_prefix validate_ref_name eq_bytes starts_with ends_with check_ref_bytes
    check_components split ends_in_lock contains_pair Issues.validate_extends extend_events
    keep_events order_events read read_loose write_bytes path_for to_hex from_hex build_raw
    print_radix parse_raw split_once is_utf8 parse_kind from_str_radix gyt.Compress.encode
    gyt.Compress.decode trim trim_from space_len space_len_back reversed IssueCodec.decode
    IssueCodec.decode_lines IssueCodec.decode_line IssueCodec.take_field IssueCodec.set_field
    IssueCodec.set_event_field IssueCodec.finish read_line parse_toml_string parse_toml_string_array
    unescape unescape_char escape_char scan scan_char scan_quoted chars last_item parse_u64 lines
    Issues.parse_issue_kind Issues.parse_issue_state Issues.parse_event_kind Issues.validate
    Issues.validate_events Issues.validate_event check_text_field check_bytes check_ts check_array
    check_entries
repetition_passes = refl

issue_there : current dir issue_ref ≡ some blob_id
unfolding current read_ref put parse_ref validate_ref_name eq_bytes starts_with ends_with
    check_ref_bytes check_components split ends_in_lock contains_pair from_hex to_hex is_utf8 trim
    trim_from space_len space_len_back reversed write_bytes build_raw print_radix
issue_there = refl

clean_issue_example :
    Extended
      (read count_hash stored_xz no_packs disk)
      IssueCodec.decode
      IssueUpdates.IsUpdateOf
      blob_id
      blob_id
unfolding strip_prefix is_null write_bytes build_raw print_radix
clean_issue_example =
    clean_issue any_key count_hash stored_xz no_packs dir disk (repetition ∷ []) force false []
      repetition blob_id repetition_passes (inl refl) refl refl issue_there
