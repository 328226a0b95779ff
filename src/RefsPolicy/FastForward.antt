-- ===== src/RefsPolicy/FastForward.antt =====
-- src/net/refs_policy.rs: fast-forward updates, and what the modes leave out.
use gyt.Base.{
  ◌≡◌, ◌≢◌, inl, refl, sym, ap, Bool, true, false, not, Option, none, some, List, [], ◌∷◌,
  not_false→true,
}
use gyt.Text.Cuts.{Bytes, codes, eq_bytes, eq_bytes→eq}
use gyt.Hash.{ObjectId}
use gyt.Compress.{Xz}
use gyt.Object.Store.{Disk, Packs}
use gyt.Object.Commit.Stored.{read_commit}
use gyt.Refs.Directory.{GytDir}
use gyt.Refs.{validate_ref_name}
use gyt.Protocol.{RefUpdate}
use gyt.RefsPolicy.{passed, after_passed, after_or_refuse, after_refuse}
use gyt.RefsPolicy.Graph.{is_ancestor}
use gyt.RefsPolicy.Stack.{Any}
use gyt.RefsPolicy.Reachable.{Reach, is_ancestor_lem}
use gyt.RefsPolicy.Evaluate.{
  Mode, fast_forward, has_prefix, is_metadata_ref, current, enforce_target_kind, check_old,
  check_signatures, check_value, check_update, evaluate_with_mode,
}
use gyt.RefsPolicy.Safety.{not_refused_when, clean_passed}

module _ {Key : Type 0} (verify_strict : Key → Bytes → Bytes → Bool) (blake3 : Bytes → ObjectId)
    (xz : Xz) (packs : Packs) where
  check_old_lem :
      (d : Disk) (name : Bytes) (cur : Option ObjectId) (old new : ObjectId)
      → check_old blake3 xz packs d fast_forward name cur (some old) new ≡ passed tt
      → (cur ≡ some old) × Reach (read_commit blake3 xz packs d) new old
  unfolding check_old
  check_old_lem d name none old new h = absurd (cc)
  check_old_lem d name (some actual) old new h =
      after_refuse (not (eq_bytes actual old)) _ _ h λ same h₁.
        after_or_refuse (is_ancestor (read_commit blake3 xz packs d) old new) _ _ h₁
          λ descends answer h₂. (
            ap some (eq_bytes→eq actual old (not_false→true _ same)),
            (is_ancestor_lem (read_commit blake3 xz packs d) old new descends answer).0
                (not_false→true _ (not_refused_when (not descends) _ h₂)),
          )

  -- Fast-forward: if no update of a batch is blocked in the default mode, then an update of a branch
  -- or tag that names an old value names the one on disk, and parent links lead from the new value
  -- to it.
  pub clean_fast_forward :
      (dir : GytDir) (d : Disk) (updates : List RefUpdate) (sign_required : Bool)
      (allowed : List Key) (u : RefUpdate) (old : ObjectId)
      → evaluate_with_mode verify_strict blake3 xz packs dir d updates fast_forward sign_required
          allowed
        ≡ []
      → Any (λ v. v ≡ u) updates
      → is_metadata_ref u.name ≡ false
      → u.old ≡ some old
      → (current dir u.name ≡ some old) × Reach (read_commit blake3 xz packs d) u.new old
  unfolding check_update check_value
  clean_fast_forward dir d updates sign_required allowed u old h m plain named =
      after_or_refuse (validate_ref_name u.name) _ _
        (clean_passed verify_strict blake3 xz packs dir d updates fast_forward sign_required allowed
          u h m)
        λ v valid h₁. after_refuse (not (has_prefix u.name (codes "refs/"))) _ _ h₁ λ below h₂.
          after_passed (enforce_target_kind blake3 xz packs d u.name u.new) _ h₂ λ v' fits h₃.
            after_passed
              (check_old blake3 xz packs d fast_forward u.name (current dir u.name) u.old u.new) _
              (rw plain at h₃)
              λ v'' follows h₄.
                check_old_lem d u.name (current dir u.name) old u.new (rw (sym named) follows)

  -- Fail closed: where signatures are required and no key is allowed, every update of a branch or tag
  -- is blocked.
  pub no_keys_blocks :
      (dir : GytDir) (d : Disk) (mode : Mode) (u : RefUpdate)
      → is_metadata_ref u.name ≡ false
      → evaluate_with_mode verify_strict blake3 xz packs dir d (u ∷ []) mode true [] ≢ []
  unfolding check_update check_value check_signatures
  no_keys_blocks dir d mode u plain h =
      after_or_refuse (validate_ref_name u.name) _ _
        (clean_passed verify_strict blake3 xz packs dir d (u ∷ []) mode true [] u h (inl refl))
        λ v valid h₁. after_refuse (not (has_prefix u.name (codes "refs/"))) _ _ h₁ λ below h₂.
          after_passed (enforce_target_kind blake3 xz packs d u.name u.new) _ h₂ λ v' fits h₃.
            after_passed (check_old blake3 xz packs d mode u.name (current dir u.name) u.old u.new)
              _ (rw plain at h₃) λ v'' follows h₄. cc
