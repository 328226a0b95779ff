-- ===== src/RefsPolicy/Evaluate.antt =====
-- src/net/refs_policy.rs: the checks of one update, and of a batch of them. The objects and the
-- references of `.gyt` are two stores; the parameters are BLAKE3, XZ, the pack files and ed25519.
use gyt.Base.{
  Bool, true, false, not, ◌&&◌, ◌||◌, Option, none, some, List, [], ◌∷◌, ◌==◌, if◌then◌else◌,
  Result, ok,
}
use gyt.Text.Cuts.{Bytes, codes, eq_bytes, strip_prefix}
use gyt.Hash.{ObjectId}
use gyt.Compress.{Xz}
use gyt.Object.{ObjectKind, blob, tag, commit, same_kind}
use gyt.Object.Store.{Disk, Packs, read}
use gyt.Object.Commit.Stored.{read_commit}
use gyt.Refs.Directory.{GytDir}
use gyt.Refs.{validate_ref_name, read_ref}
use gyt.Protocol.{RefUpdate}
use gyt.Metadata.Issues
use gyt.Metadata.Issues.Codec as IssueCodec
use gyt.Metadata.Prs
use gyt.Metadata.Prs.Codec as PrCodec
use gyt.Metadata.Incidents
use gyt.Metadata.Incidents.Codec as IncidentCodec
use gyt.RefsPolicy.{
  PolicyError, not_fast_forward, missing_allowed_signers, bad_ref_name, internal, Checked, passed,
  refused, ◌>>=◌, ◌>>◌, refuse_when, or_refuse,
}
use gyt.RefsPolicy.Graph.{is_ancestor, commits_new_since}
use gyt.RefsPolicy.Signatures.{verify_commit_signed}

pub data Mode : Type 0 where
  fast_forward force_with_lease force : Mode

abbrev is_there : Option Bytes → Bool
is_there none = false
is_there (some rest) = true

-- `name.starts_with(prefix)`
abbrev pub has_prefix : Bytes → Bytes → Bool
has_prefix name prefix = is_there (strip_prefix name prefix)

-- The id that stands for "delete this reference".
unfoldable pub is_null : ObjectId → Bool
is_null [] = true
is_null (b ∷ bs) = b == 0 && is_null bs

unfoldable pub is_metadata_ref : Bytes → Bool
is_metadata_ref name =
    has_prefix name (codes "refs/issues/")
    || has_prefix name (codes "refs/prs/")
    || has_prefix name (codes "refs/incidents/")

-- Whether an object of this kind may stand in the namespace of the name.
unfoldable pub kind_fits : Bytes → ObjectKind → Bool
kind_fits name kind =
    if has_prefix name (codes "refs/heads/") || has_prefix name (codes "refs/remotes/")
    then same_kind kind commit
    else if has_prefix name (codes "refs/tags/")
    then same_kind kind commit || same_kind kind tag
    else if is_metadata_ref name
    then same_kind kind blob
    else same_kind kind commit

-- `read_ref(…).unwrap_or_default()`: a reference that is missing or cannot be read is none.
abbrev pub or_default : Result ObjectId → Option ObjectId
or_default (ok id) = some id
or_default _ = none

unfoldable pub current : GytDir → Bytes → Option ObjectId
current dir name = or_default (read_ref dir name)

-- `allowed_signers.is_empty()`
abbrev pub no_keys {ℓ} : {Key : Type ℓ} → List Key → Bool
no_keys [] = true
no_keys (key ∷ keys) = false

-- `blocked.push((name, e))` where the checks refuse.
abbrev pub push_blocked :
    Bytes → Checked (Unit {0}) → List (Bytes × PolicyError) → List (Bytes × PolicyError)
push_blocked name (passed u) rest = rest
push_blocked name (refused e) rest = (name, e) ∷ rest

module _ (blake3 : Bytes → ObjectId) (xz : Xz) (packs : Packs) where
  -- The object must be there, and of the kind of its namespace.
  unfoldable pub enforce_target_kind : Disk → Bytes → ObjectId → Checked (Unit {0})
  enforce_target_kind d name new_id = if is_null new_id then passed tt else (do
    obj ← or_refuse (read blake3 xz packs d new_id) (bad_ref_name name)
    refuse_when (not (kind_fits name obj.kind)) (bad_ref_name name))

  module _ {A : Type 0} (decode : Bytes → Result A)
      (validate_extends : A → A → Result (Unit {0})) where
    unfoldable pub extends_old : Disk → Option ObjectId → A → Checked (Unit {0})
    extends_old d none new = passed tt
    extends_old d (some old_id) new = do
      old_obj ← or_refuse (read blake3 xz packs d old_id) internal
      old ← or_refuse (decode old_obj.payload) internal
      or_refuse (validate_extends old new) internal

    -- One of the three branches: the new record decodes, and extends the old one if there is one.
    unfoldable pub enforce_extends : Disk → Option ObjectId → Bytes → Checked (Unit {0})
    enforce_extends d old_id payload = do
      new ← or_refuse (decode payload) internal
      extends_old d old_id new

  unfoldable pub enforce_by_name : Disk → Bytes → Option ObjectId → Bytes → Checked (Unit {0})
  enforce_by_name d name old_id payload =
      if has_prefix name (codes "refs/issues/")
      then enforce_extends IssueCodec.decode Issues.validate_extends d old_id payload
      else if has_prefix name (codes "refs/prs/")
      then enforce_extends PrCodec.decode Prs.validate_extends d old_id payload
      else if has_prefix name (codes "refs/incidents/")
      then enforce_extends IncidentCodec.decode Incidents.validate_extends d old_id payload
      else passed tt

  unfoldable pub enforce_metadata_monotonic :
      Disk → Bytes → Option ObjectId → ObjectId → Checked (Unit {0})
  enforce_metadata_monotonic d name old_id new_id = if is_null new_id then passed tt else (do
    new_obj ← or_refuse (read blake3 xz packs d new_id) internal
    enforce_by_name d name old_id new_obj.payload)

  -- The client's old value is the one on disk, and behind the new one but under a lease.
  unfoldable pub check_old :
      Disk → Mode → Bytes → Option ObjectId → Option ObjectId → ObjectId → Checked (Unit {0})
  check_old d mode name cur none new = passed tt
  check_old d force name cur (some old) new = passed tt
  check_old d mode name none (some old) new = refused (not_fast_forward name)
  check_old d force_with_lease name (some actual) (some old) new =
      refuse_when (not (eq_bytes actual old)) (not_fast_forward name)
  check_old d fast_forward name (some actual) (some old) new = do
    refuse_when (not (eq_bytes actual old)) (not_fast_forward name)
    descends ←
        or_refuse (is_ancestor (read_commit blake3 xz packs d) old new) (not_fast_forward name)
    refuse_when (not descends) (not_fast_forward name)

module _ {Key : Type 0} (verify_strict : Key → Bytes → Bytes → Bool) (blake3 : Bytes → ObjectId)
    (xz : Xz) (packs : Packs) where
  unfoldable pub verify_all : Disk → List Key → List ObjectId → Checked (Unit {0})
  verify_all d allowed [] = passed tt
  verify_all d allowed (id ∷ ids) = do
    verify_commit_signed verify_strict (read_commit blake3 xz packs d) allowed id
    verify_all d allowed ids

  unfoldable pub check_signatures :
      Disk → List Key → Option ObjectId → ObjectId → Checked (Unit {0})
  check_signatures d allowed cur new = do
    refuse_when (no_keys allowed) missing_allowed_signers
    new_commits ← or_refuse (commits_new_since (read_commit blake3 xz packs d) cur new) internal
    verify_all d allowed new_commits

  -- The checks against the value on disk.
  unfoldable pub check_value :
      Disk → Mode → Bool → List Key → RefUpdate → Option ObjectId → Checked (Unit {0})
  check_value d mode sign_required allowed u cur =
      if is_metadata_ref u.name
      then enforce_metadata_monotonic blake3 xz packs d u.name cur u.new
      else (check_old blake3 xz packs d mode u.name cur u.old u.new
          >> (if sign_required then check_signatures d allowed cur u.new else passed tt))

  -- One round of the loop; a refusal is what it pushes on `blocked`.
  unfoldable pub check_update :
      GytDir → Disk → Mode → Bool → List Key → RefUpdate → Checked (Unit {0})
  check_update dir d mode sign_required allowed u = do
    or_refuse (validate_ref_name u.name) (bad_ref_name u.name)
    refuse_when (not (has_prefix u.name (codes "refs/"))) (bad_ref_name u.name)
    enforce_target_kind blake3 xz packs d u.name u.new
    check_value d mode sign_required allowed u (current dir u.name)

  -- The updates that are blocked, in order.
  unfoldable pub evaluate_with_mode :
      GytDir → Disk → List RefUpdate → Mode → Bool → List Key → List (Bytes × PolicyError)
  evaluate_with_mode dir d [] mode sign_required allowed = []
  evaluate_with_mode dir d (u ∷ updates) mode sign_required allowed =
      push_blocked u.name (check_update dir d mode sign_required allowed u)
        (evaluate_with_mode dir d updates mode sign_required allowed)

  unfoldable pub evaluate :
      GytDir → Disk → List RefUpdate → Bool → Bool → List Key → List (Bytes × PolicyError)
  evaluate dir d updates forced sign_required allowed =
      evaluate_with_mode dir d updates (if forced then force else fast_forward) sign_required
        allowed
