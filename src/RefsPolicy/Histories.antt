-- ===== src/RefsPolicy/Histories.antt =====
-- src/net/refs_policy.rs: updates of issues, pull requests and incidents.
use gyt.Base.{
  ◌≡◌, ◌↔◌, inl, inr, refl, sym, Bool, true, false, not, some, List, [], ◌++◌, Result, ok, err,
  Option-cases,
}
use gyt.Text.Cuts.{Bytes, codes, strip_prefix, strip_prefix-eq-some}
use gyt.Hash.{ObjectId}
use gyt.Compress.{Xz}
use gyt.Object.Store.{Object, Disk, Packs, read}
use gyt.Refs.Directory.{GytDir}
use gyt.Refs.{validate_ref_name}
use gyt.Protocol.{RefUpdate}
use gyt.RefsPolicy.{PolicyError, passed, or_refuse, after_passed, after_or_refuse, after_refuse}
use gyt.RefsPolicy.Stack.{Any}
use gyt.RefsPolicy.Evaluate.{
  Mode, has_prefix, is_null, is_metadata_ref, current, enforce_target_kind, enforce_extends,
  extends_old, enforce_by_name, enforce_metadata_monotonic, check_value, check_update,
  evaluate_with_mode,
}
use gyt.RefsPolicy.Safety.{clean_passed}
use gyt.Metadata.Issues.Codec as IssueCodec
use gyt.Metadata.Issues.Updates as IssueUpdates
use gyt.Metadata.Prs.Codec as PrCodec
use gyt.Metadata.Prs.Updates as PrUpdates
use gyt.Metadata.Incidents.Codec as IncidentCodec
use gyt.Metadata.Incidents.Updates as IncidentUpdates

-- The objects of both ids decode, and the newer record is an update of the older one.
pub record Extended {A : Type 0} (fetch : ObjectId → Result Object) (decode : Bytes → Result A)
    (Update : A → A → Type 0) (old_id new_id : ObjectId) : Type 0 where
  pub old_obj : Object
  pub old_found : fetch old_id ≡ ok old_obj
  pub new_obj : Object
  pub new_found : fetch new_id ≡ ok new_obj
  pub old : A
  pub old_decoded : decode old_obj.payload ≡ ok old
  pub new : A
  pub new_decoded : decode new_obj.payload ≡ ok new
  pub update : Update old new

or_refuse-passed : (m : Result (Unit {0})) (e : PolicyError) → or_refuse m e ≡ passed tt → m ≡ ok tt
or_refuse-passed (ok v) e h = refl
or_refuse-passed (err x) e h = absurd (cc)
or_refuse-passed Result.stuck e h = absurd (cc)

has_prefix_lem : (name p : Bytes) → has_prefix name p ≡ true → (rest : Bytes) × (name ≡ p ++ rest)
has_prefix_lem name p h = elim (Option-cases (strip_prefix name p)) [
  | inl e ↦ absurd (let k : false ≡ true = rw e at h in cc)
  | inr (rest, e) ↦ (rest, strip_prefix-eq-some name p rest e)
]

prs_no_issues :
    (name : Bytes)
    → has_prefix name (codes "refs/prs/") ≡ true
    → has_prefix name (codes "refs/issues/") ≡ false
unfolding strip_prefix
prs_no_issues name h = let (rest, e) = has_prefix_lem name (codes "refs/prs/") h in rw e refl

incidents_no_issues :
    (name : Bytes)
    → has_prefix name (codes "refs/incidents/") ≡ true
    → has_prefix name (codes "refs/issues/") ≡ false
unfolding strip_prefix
incidents_no_issues name h =
    let (rest, e) = has_prefix_lem name (codes "refs/incidents/") h in rw e refl

incidents_no_prs :
    (name : Bytes)
    → has_prefix name (codes "refs/incidents/") ≡ true
    → has_prefix name (codes "refs/prs/") ≡ false
unfolding strip_prefix
incidents_no_prs name h =
    let (rest, e) = has_prefix_lem name (codes "refs/incidents/") h in rw e refl

module _ {Key : Type 0} (verify_strict : Key → Bytes → Bytes → Bool) (blake3 : Bytes → ObjectId)
    (xz : Xz) (packs : Packs) where
  enforce_extends_lem :
      {A : Type 0} (decode : Bytes → Result A) (validate_extends : A → A → Result (Unit {0}))
      (Update : A → A → Type 0)
      → ((old new : A) → (validate_extends old new ≡ ok tt) ↔ Update old new)
      → (d : Disk) (old_id new_id : ObjectId) (new_obj : Object)
      → read blake3 xz packs d new_id ≡ ok new_obj
      → enforce_extends blake3 xz packs decode validate_extends d (some old_id) new_obj.payload
        ≡ passed tt
      → Extended (read blake3 xz packs d) decode Update old_id new_id
  unfolding enforce_extends extends_old
  enforce_extends_lem decode validate_extends Update iff d old_id new_id new_obj found h =
      after_or_refuse (decode new_obj.payload) _ _ h λ new new_decoded h₁.
        after_or_refuse (read blake3 xz packs d old_id) _ _ h₁ λ old_obj old_found h₂.
          after_or_refuse (decode old_obj.payload) _ _ h₂ λ old old_decoded h₃. record {
            old_obj = old_obj;
            old_found = old_found;
            new_obj = new_obj;
            new_found = found;
            old = old;
            old_decoded = old_decoded;
            new = new;
            new_decoded = new_decoded;
            update = (iff old new).0 (or_refuse-passed (validate_extends old new) _ h₃);
          }

  -- The object that the branch of the name passed, where no update of the batch is blocked.
  clean_metadata :
      (dir : GytDir) (d : Disk) (updates : List RefUpdate) (mode : Mode) (sign_required : Bool)
      (allowed : List Key) (u : RefUpdate) (old_id : ObjectId)
      → evaluate_with_mode verify_strict blake3 xz packs dir d updates mode sign_required allowed
        ≡ []
      → Any (λ v. v ≡ u) updates
      → is_metadata_ref u.name ≡ true
      → is_null u.new ≡ false
      → current dir u.name ≡ some old_id
      → (new_obj : Object) × (read blake3 xz packs d u.new ≡ ok new_obj)
        × (enforce_by_name blake3 xz packs d u.name (some old_id) new_obj.payload ≡ passed tt)
  unfolding check_update check_value enforce_metadata_monotonic
  clean_metadata dir d updates mode sign_required allowed u old_id h m meta kept there =
      after_or_refuse (validate_ref_name u.name) _ _
        (clean_passed verify_strict blake3 xz packs dir d updates mode sign_required allowed u h m)
        λ v valid h₁. after_refuse (not (has_prefix u.name (codes "refs/"))) _ _ h₁ λ below h₂.
          after_passed (enforce_target_kind blake3 xz packs d u.name u.new) _ h₂ λ v' fits h₃.
            after_or_refuse (read blake3 xz packs d u.new) _ _ (rw (meta, kept) at h₃)
              λ new_obj found h₄. (new_obj, found, rw (sym there) h₄)

  -- The history of an issue only grows: if no update of a batch is blocked, then an update of an
  -- issue that is there, unless it deletes it, replaces it by an update of it, in every mode.
  pub clean_issue :
      (dir : GytDir) (d : Disk) (updates : List RefUpdate) (mode : Mode) (sign_required : Bool)
      (allowed : List Key) (u : RefUpdate) (old_id : ObjectId)
      → evaluate_with_mode verify_strict blake3 xz packs dir d updates mode sign_required allowed
        ≡ []
      → Any (λ v. v ≡ u) updates
      → has_prefix u.name (codes "refs/issues/") ≡ true
      → is_null u.new ≡ false
      → current dir u.name ≡ some old_id
      → Extended (read blake3 xz packs d) IssueCodec.decode IssueUpdates.IsUpdateOf old_id u.new
  unfolding enforce_by_name is_metadata_ref
  clean_issue dir d updates mode sign_required allowed u old_id h m issue kept there =
      let (new_obj, found, passed_by) =
        clean_metadata dir d updates mode sign_required allowed u old_id h m (rw issue refl) kept
          there in
      enforce_extends_lem IssueCodec.decode _ IssueUpdates.IsUpdateOf
        IssueUpdates.validate_extends_iff d old_id u.new new_obj found (rw issue at passed_by)

  -- The same of a pull request.
  pub clean_pr :
      (dir : GytDir) (d : Disk) (updates : List RefUpdate) (mode : Mode) (sign_required : Bool)
      (allowed : List Key) (u : RefUpdate) (old_id : ObjectId)
      → evaluate_with_mode verify_strict blake3 xz packs dir d updates mode sign_required allowed
        ≡ []
      → Any (λ v. v ≡ u) updates
      → has_prefix u.name (codes "refs/prs/") ≡ true
      → is_null u.new ≡ false
      → current dir u.name ≡ some old_id
      → Extended (read blake3 xz packs d) PrCodec.decode PrUpdates.IsUpdateOf old_id u.new
  unfolding enforce_by_name is_metadata_ref
  clean_pr dir d updates mode sign_required allowed u old_id h m pr kept there =
      let other = prs_no_issues u.name pr in
      let (new_obj, found, passed_by) =
        clean_metadata dir d updates mode sign_required allowed u old_id h m (rw (other, pr) refl)
          kept there in
      enforce_extends_lem PrCodec.decode _ PrUpdates.IsUpdateOf PrUpdates.validate_pr_extends_iff d
        old_id u.new new_obj found (rw (other, pr) at passed_by)

  -- The same of an incident.
  pub clean_incident :
      (dir : GytDir) (d : Disk) (updates : List RefUpdate) (mode : Mode) (sign_required : Bool)
      (allowed : List Key) (u : RefUpdate) (old_id : ObjectId)
      → evaluate_with_mode verify_strict blake3 xz packs dir d updates mode sign_required allowed
        ≡ []
      → Any (λ v. v ≡ u) updates
      → has_prefix u.name (codes "refs/incidents/") ≡ true
      → is_null u.new ≡ false
      → current dir u.name ≡ some old_id
      → Extended
          (read blake3 xz packs d)
          IncidentCodec.decode
          IncidentUpdates.IsUpdateOf
          old_id
          u.new
  unfolding enforce_by_name is_metadata_ref
  clean_incident dir d updates mode sign_required allowed u old_id h m inc kept there =
      let other = incidents_no_issues u.name inc in
      let other' = incidents_no_prs u.name inc in
      let (new_obj, found, passed_by) =
        clean_metadata dir d updates mode sign_required allowed u old_id h m
          (rw (other, other', inc) refl) kept there in
      enforce_extends_lem IncidentCodec.decode _ IncidentUpdates.IsUpdateOf
        IncidentUpdates.validate_incident_extends_iff d old_id u.new new_obj found
        (rw (other, other', inc) at passed_by)
