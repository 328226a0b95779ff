-- ===== src/RefsPolicy/Examples.antt =====
-- src/net/refs_policy.rs at concrete inputs: a branch with two commits, and a push of one signed
-- commit. Every signature verifies here.
use gyt.Base.{
  ◌≡◌, ◌↔◌, ◌≢◌, refl, sym, inl, Bool, true, false, none, some, List, [], ◌∷◌, ◌++◌, arith,
  if◌then◌else◌, Result, ok, err, not_found,
}
use gyt.Text.Cuts.{Bytes, codes, eq_bytes, strip_prefix, split_once, split_once_blank}
use gyt.Text.Lines.{lines}
use gyt.Text.Utf8.{is_utf8}
use gyt.Text.Radix.{print_radix, from_str_radix}
use gyt.Text.Blocks.{unlines}
use gyt.Text.Trim.{
  split, contains_pair, starts_with, ends_with, trim, trim_from, space_len, space_len_back,
  reversed,
}
use gyt.Hash.{ObjectId, to_hex, from_hex}
use gyt.Hash.Examples.{id_of}
use gyt.Object.{parse_kind}
use gyt.Object.Store.{Disk, build_raw, parse_raw, path_for, read, read_loose, write_bytes}
use gyt.Object.Store.Examples.{stored_xz, count_hash, no_packs, empty_disk}
use gyt.Object.Commit.{
  Commit, encode, decode, header_lines, read_lines, read_line, advance_section, read_tree,
  read_author, read_committer, read_signature,
}
use gyt.Object.Commit.Stored.{write_commit, read_commit}
use gyt.Refs.Directory.{file, GytDir, put}
use gyt.Refs.{
  validate_ref_name, check_ref_bytes, check_components, ends_in_lock, read_ref, parse_ref,
}
use gyt.Protocol.{RefUpdate}
use gyt.RefsPolicy.{passed}
use gyt.RefsPolicy.Graph.{
  mem, push_all, next_unseen, next_new, search_ancestor, is_ancestor, excluded_by, exclude, collect,
  commits_new_since,
}
use gyt.RefsPolicy.Reachable.{Reach, here, link}
use gyt.RefsPolicy.Excluded.{IsOld}
use gyt.RefsPolicy.NewCommits.{commits_new_since_lem}
use gyt.RefsPolicy.Enough.{is_ancestor_decides}
use gyt.RefsPolicy.Signatures.{
  base64_decode, base64_loop, base64_value, base64_step, count_pad, contains, some_key_verifies,
  verify_commit_signed, commit_payload_without_sig, push_lines,
}
use gyt.RefsPolicy.Payload.{commit_payload_lem}
use gyt.RefsPolicy.Evaluate.{
  fast_forward, force, is_null, is_metadata_ref, kind_fits, current, enforce_target_kind,
  verify_all, check_old, check_signatures, check_value, check_update, evaluate_with_mode,
}
use gyt.RefsPolicy.Safety.{IsSigned, evaluate_with_mode-IsSigned}
use gyt.RefsPolicy.FastForward.{clean_fast_forward, no_keys_blocks}

abbrev root : ObjectId
root = id_of 0 0 0 1

abbrev tip : ObjectId
tip = id_of 0 0 0 2

abbrev with_parents : List ObjectId → Commit
with_parents ps = record {
  tree = id_of 0 0 0 0;
  parents = ps;
  authors = codes "A" ∷ [];
  committer = codes "A";
  ai_assists = [];
  reviewers = [];
  signature = none;
  message = [];
}

-- A tip with one parent, and nothing else that can be read.
abbrev two_commits : ObjectId → Result Commit
two_commits id =
    if eq_bytes id tip
    then ok (with_parents (root ∷ []))
    else if eq_bytes id root
    then ok (with_parents [])
    else err (not_found "object")

root_behind : is_ancestor two_commits root tip ≡ ok true
unfolding is_ancestor search_ancestor next_unseen push_all mem eq_bytes
root_behind = refl

tip_not_behind : is_ancestor two_commits tip root ≡ ok false
unfolding is_ancestor search_ancestor next_unseen push_all mem eq_bytes
tip_not_behind = refl

tip_is_new : commits_new_since two_commits (some root) tip ≡ ok (tip ∷ [])
unfolding commits_new_since excluded_by exclude collect next_unseen next_new push_all mem eq_bytes
tip_is_new = refl

commits_new_since_lem_example :
    (mem tip (tip ∷ []) ≡ true) ↔ (Reach two_commits tip tip × ¬ IsOld two_commits (some root) tip)
unfolding eq_bytes
commits_new_since_lem_example =
    commits_new_since_lem two_commits (some root) tip (tip ∷ []) tip_is_new tip
      (with_parents (root ∷ []), refl)

root_reaches : (x : ObjectId) → Reach two_commits root x → mem x (root ∷ []) ≡ true
unfolding mem eq_bytes
root_reaches x (here a) = refl
root_reaches x (link c p e m r) =
    let same : with_parents [] ≡ c = cc in absurd (let k : false ≡ true = rw (sym same) at m in cc)

is_ancestor_decides_example :
    (answer : Bool) × (is_ancestor two_commits tip root ≡ ok answer)
    × ((answer ≡ true) ↔ Reach two_commits root tip)
is_ancestor_decides_example =
    is_ancestor_decides two_commits tip root (root ∷ []) root_reaches (omega arith)

-- 86 times `A` and two `=`: 64 zero bytes.
abbrev zero_signature : Bytes
zero_signature =
    codes "AAAAAAAAAAAAAAAAAAAAAAAAAAAAAAAAAAAAAAAAAAAAAAAAAAAAAAAAAAAAAAAAAAAAAAAAAAAAAAAAAAAAAA=="

abbrev signed_commit : Commit
signed_commit = record (with_parents []) { signature = some zero_signature }

commit_payload_lem_example : commit_payload_without_sig signed_commit ≡ encode (with_parents [])
commit_payload_lem_example = commit_payload_lem signed_commit

abbrev any_key : Unit {0} → Bytes → Bytes → Bool
any_key key payload sig = true

abbrev disk : Disk
disk = (write_commit count_hash stored_xz empty_disk signed_commit).1

abbrev pushed_id : ObjectId
pushed_id = (write_commit count_hash stored_xz empty_disk signed_commit).0

abbrev main : Bytes
main = codes "refs/heads/main"

abbrev empty_dir : GytDir
empty_dir = record { at = λ p. none }

abbrev creation : RefUpdate
creation = record { old = none; new = pushed_id; name = main }

pushed_reads : read_commit count_hash stored_xz no_packs disk pushed_id ≡ ok signed_commit
unfolding read_commit read read_loose write_commit write_bytes path_for eq_bytes to_hex build_raw
    print_radix parse_raw split_once is_utf8 parse_kind from_str_radix gyt.Compress.encode
    gyt.Compress.decode encode header_lines unlines decode split_once_blank read_lines read_line
    lines strip_prefix advance_section read_tree read_author read_committer read_signature from_hex
pushed_reads = refl

creation_passes :
    evaluate_with_mode any_key count_hash stored_xz no_packs empty_dir disk
      (creation ∷ [])
      fast_forward
      true
      (tt ∷ [])
    ≡ []
unfolding evaluate_with_mode check_update check_value check_old check_signatures enforce_target_kind
    kind_fits is_null is_metadata_ref current read_ref validate_ref_name eq_bytes starts_with
    ends_with check_ref_bytes check_components split ends_in_lock contains_pair strip_prefix
    verify_all verify_commit_signed commits_new_since excluded_by exclude collect next_unseen
    next_new push_all mem read_commit read read_loose write_commit write_bytes path_for to_hex
    build_raw print_radix parse_raw split_once is_utf8 parse_kind from_str_radix gyt.Compress.encode
    gyt.Compress.decode encode header_lines unlines decode split_once_blank read_lines read_line
    lines advance_section read_tree read_author read_committer read_signature from_hex base64_decode
    base64_loop base64_value base64_step count_pad contains some_key_verifies
    commit_payload_without_sig push_lines trim trim_from space_len gyt.Text.Trim.space_len_back
    reversed
creation_passes = refl

no_branch_yet :
    (id : ObjectId)
    → ¬ IsOld (read_commit count_hash stored_xz no_packs disk) (current empty_dir main) id
unfolding current read_ref validate_ref_name eq_bytes starts_with ends_with check_ref_bytes
    check_components split ends_in_lock contains_pair
no_branch_yet id h = h

evaluate_with_mode-IsSigned_example :
    IsSigned any_key (read_commit count_hash stored_xz no_packs disk) (tt ∷ []) pushed_id
unfolding is_metadata_ref strip_prefix
evaluate_with_mode-IsSigned_example =
    evaluate_with_mode-IsSigned any_key count_hash stored_xz no_packs empty_dir disk (creation ∷ [])
      fast_forward (tt ∷ []) creation pushed_id creation_passes (inl refl) refl (here pushed_id)
      (no_branch_yet pushed_id) (signed_commit, pushed_reads)

-- The branch stands at the commit, and an update names it as old and as new value.
abbrev with_main : GytDir
with_main = put empty_dir main (some (file (to_hex pushed_id ++ (b'\n' ∷ []))))

abbrev repetition : RefUpdate
repetition = record { old = some pushed_id; new = pushed_id; name = main }

repetition_passes :
    evaluate_with_mode any_key count_hash stored_xz no_packs with_main disk
      (repetition ∷ [])
      fast_forward
      false
      []
    ≡ []
unfolding is_ancestor put parse_ref evaluate_with_mode check_update check_value check_old
    check_signatures enforce_target_kind kind_fits is_null is_metadata_ref current read_ref
    validate_ref_name eq_bytes starts_with ends_with check_ref_bytes check_components split
    ends_in_lock contains_pair strip_prefix verify_all verify_commit_signed commits_new_since
    excluded_by exclude collect next_unseen next_new push_all mem read_commit read read_loose
    write_commit write_bytes path_for to_hex build_raw print_radix parse_raw split_once is_utf8
    parse_kind from_str_radix gyt.Compress.encode gyt.Compress.decode encode header_lines unlines
    decode split_once_blank read_lines read_line lines advance_section read_tree read_author
    read_committer read_signature from_hex base64_decode base64_loop base64_value base64_step
    count_pad contains some_key_verifies commit_payload_without_sig push_lines trim trim_from
    space_len gyt.Text.Trim.space_len_back reversed
repetition_passes = refl

clean_fast_forward_example :
    (current with_main main ≡ some pushed_id)
    × Reach (read_commit count_hash stored_xz no_packs disk) pushed_id pushed_id
unfolding is_metadata_ref strip_prefix
clean_fast_forward_example =
    clean_fast_forward any_key count_hash stored_xz no_packs with_main disk (repetition ∷ []) false
      [] repetition pushed_id repetition_passes (inl refl) refl refl

main_accepted : validate_ref_name main ≡ ok tt
unfolding validate_ref_name eq_bytes starts_with ends_with check_ref_bytes check_components split
    ends_in_lock contains_pair
main_accepted = refl

commit_fits : enforce_target_kind count_hash stored_xz no_packs disk main pushed_id ≡ passed tt
unfolding evaluate_with_mode check_update check_value check_old check_signatures enforce_target_kind
    kind_fits is_null is_metadata_ref current read_ref validate_ref_name eq_bytes starts_with
    ends_with check_ref_bytes check_components split ends_in_lock contains_pair strip_prefix
    verify_all verify_commit_signed commits_new_since excluded_by exclude collect next_unseen
    next_new push_all mem read_commit read read_loose write_commit write_bytes path_for to_hex
    build_raw print_radix parse_raw split_once is_utf8 parse_kind from_str_radix gyt.Compress.encode
    gyt.Compress.decode encode header_lines unlines decode split_once_blank read_lines read_line
    lines advance_section read_tree read_author read_committer read_signature from_hex base64_decode
    base64_loop base64_value base64_step count_pad contains some_key_verifies
    commit_payload_without_sig push_lines trim trim_from space_len gyt.Text.Trim.space_len_back
    reversed
commit_fits = refl

-- The branch is there already, and an update that does not say so is let through.
creation_over_branch :
    evaluate_with_mode any_key count_hash stored_xz no_packs with_main disk
      (creation ∷ [])
      fast_forward
      false
      []
    ≡ []
unfolding evaluate_with_mode check_update check_value check_old check_signatures enforce_target_kind
    kind_fits is_null is_metadata_ref current read_ref validate_ref_name eq_bytes starts_with
    ends_with check_ref_bytes check_components split ends_in_lock contains_pair strip_prefix
    verify_all verify_commit_signed commits_new_since excluded_by exclude collect next_unseen
    next_new push_all mem read_commit read read_loose write_commit write_bytes path_for to_hex
    build_raw print_radix parse_raw split_once is_utf8 parse_kind from_str_radix gyt.Compress.encode
    gyt.Compress.decode encode header_lines unlines decode split_once_blank read_lines read_line
    lines advance_section read_tree read_author read_committer read_signature from_hex base64_decode
    base64_loop base64_value base64_step count_pad contains some_key_verifies
    commit_payload_without_sig push_lines trim trim_from space_len gyt.Text.Trim.space_len_back
    reversed
creation_over_branch = refl

no_keys_blocks_example :
    evaluate_with_mode any_key count_hash stored_xz no_packs empty_dir disk
      (creation ∷ [])
      force
      true
      []
    ≢ []
unfolding is_metadata_ref strip_prefix
no_keys_blocks_example =
    no_keys_blocks any_key count_hash stored_xz no_packs empty_dir disk force creation refl
