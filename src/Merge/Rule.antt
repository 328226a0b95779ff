-- ===== src/Merge/Rule.antt =====
-- src/merge3.rs: the rule of a three-way merge, as one that does not know about maps, and one step of
-- the merge of trees as an application of it.
use gyt.Base.{
  ◌≡◌, inl, inr, refl, sym, ap, Bool, true, false, not, ◌&&◌, Option, none, some, List, [], ◌∷◌,
  ◌++◌, ◌==◌, if◌then◌else◌, Bool-cases,
}
use gyt.Merge.Maps.{PathOrd, insert}
use gyt.Merge.{
  Entry, eq_entry, ConflictKind, add_add, modify_delete, content, mode_change, TreeConflict,
  ContentResult, resolved, unresolved, TreeMerge, take_content, merge_both, merge_path,
}

-- Whether a path has the same entry, or none, on two sides.
abbrev pub agree : Option Entry → Option Entry → Bool
agree none none = true
agree none (some b) = false
agree (some a) none = false
agree (some a) (some b) = eq_entry a b

-- The rule: where both sides agree their entry, and else that of the side which changed it, if only
-- one did; `none` where both changed it.
abbrev pub rule : Option Entry → Option Entry → Option Entry → Option (Option Entry)
rule b o t =
    if agree o t then some o else if agree b o then some t else if agree b t then some o else none

module _ {PathLike : Type 0} (order : PathOrd PathLike)
    (resolve_content : PathLike → Entry → Entry → Option Entry → ContentResult) where
  abbrev conflict :
      PathLike
      → ConflictKind
      → Option Entry
      → Option Entry
      → Option Entry
      → Option Entry × Option (TreeConflict PathLike)
  conflict p kind b o t =
      (none, some (record { path = p; kind = kind; base = b; ours = o; theirs = t }))

  abbrev pub by_content :
      PathLike
      → Entry
      → Entry
      → Entry
      → ContentResult
      → Option Entry × Option (TreeConflict PathLike)
  by_content p b o t (resolved hash) = (some ((if o.0 == b.0 then t.0 else o.0), hash), none)
  by_content p b o t (unresolved ours_hash theirs_hash) =
      conflict p content (some b) (some (o.0, ours_hash)) (some (t.0, theirs_hash))

  -- What comes of a path that both sides changed: its entry, or its conflict.
  abbrev pub contested :
      PathLike
      → Option Entry
      → Option Entry
      → Option Entry
      → Option Entry × Option (TreeConflict PathLike)
  contested p (some b) (some o) (some t) =
      if not (o.0 == t.0) && (not (o.0 == b.0) && not (t.0 == b.0))
      then conflict p mode_change (some b) (some o) (some t)
      else by_content p b o t (resolve_content p o t (some b))
  contested p none o t = conflict p add_add none o t
  contested p b o t = conflict p modify_delete b o t

  abbrev pub decided :
      PathLike
      → Option Entry
      → Option Entry
      → Option Entry
      → Option (Option Entry)
      → Option Entry × Option (TreeConflict PathLike)
  decided p b o t (some e) = (e, none)
  decided p b o t none = contested p b o t

  -- What comes of a path, from its entries in the base, in ours and in theirs.
  unfoldable pub outcome :
      PathLike
      → Option Entry
      → Option Entry
      → Option Entry
      → Option Entry × Option (TreeConflict PathLike)
  outcome p b o t = decided p b o t (rule b o t)

  abbrev with_entry : PathLike → Option Entry → List (PathLike × Entry) → List (PathLike × Entry)
  with_entry p none m = m
  with_entry p (some e) m = insert order p e m

  abbrev with_conflict :
      Option (TreeConflict PathLike) → List (TreeConflict PathLike) → List (TreeConflict PathLike)
  with_conflict none cs = cs
  with_conflict (some c) cs = cs ++ (c ∷ [])

  abbrev pub apply :
      TreeMerge PathLike
      → PathLike
      → Option Entry × Option (TreeConflict PathLike)
      → TreeMerge PathLike
  apply m p r = record {
    merged = with_entry p r.0 m.merged;
    conflicts = with_conflict r.1 m.conflicts;
  }

  take_content_lem :
      (m : TreeMerge PathLike) (p : PathLike) (b o t : Entry) (r : ContentResult)
      → take_content order resolve_content m p b o t r ≡ apply m p (by_content p b o t r)
  take_content_lem m p b o t (resolved hash) = refl
  take_content_lem m p b o t (unresolved x y) = refl

  merge_both_lem :
      (m : TreeMerge PathLike) (p : PathLike) (b o t : Entry)
      → merge_both order resolve_content m p b o t
        ≡ apply m p (contested p (some b) (some o) (some t))
  unfolding merge_both
  merge_both_lem m p b o t =
      elim (Bool-cases (not (o.0 == t.0) && (not (o.0 == b.0) && not (t.0 == b.0)))) [
        | inl collide ↦ rw collide refl
        | inr free ↦ rw free (take_content_lem m p b o t (resolve_content p o t (some b)))
      ]

  -- The match of the code does what the rule says.
  pub merge_path_lem :
      (m : TreeMerge PathLike) (p : PathLike) (b o t : Option Entry)
      → merge_path order resolve_content m p b o t ≡ apply m p (outcome p b o t)
  unfolding merge_path outcome
  merge_path_lem m p none none none = refl
  merge_path_lem m p none none (some t) = refl
  merge_path_lem m p none (some o) none = refl
  merge_path_lem m p none (some o) (some t) = elim (Bool-cases (eq_entry o t)) [
    | inl e ↦ rw e refl
    | inr e ↦ rw e refl
  ]
  merge_path_lem m p (some b) none none = refl
  merge_path_lem m p (some b) none (some t) = elim (Bool-cases (eq_entry b t)) [
    | inl e ↦ rw e refl
    | inr e ↦ rw e refl
  ]
  merge_path_lem m p (some b) (some o) none = elim (Bool-cases (eq_entry b o)) [
    | inl e ↦ rw e refl
    | inr e ↦ rw e refl
  ]
  merge_path_lem m p (some b) (some o) (some t) = elim (Bool-cases (eq_entry o t)) [
    | inl e ↦ rw e refl
    | inr e ↦ elim (Bool-cases (eq_entry b o)) [
      | inl e' ↦ rw (e, e') refl
      | inr e' ↦ elim (Bool-cases (eq_entry b t)) [
        | inl e'' ↦ rw (e, e', e'') refl
        | inr e'' ↦ rw (e, e', e'') (merge_both_lem m p b o t)
      ]
    ]
  ]

  named :
      (p : PathLike) (kind : ConflictKind) (b o t : Option Entry) (c : TreeConflict PathLike)
      → (conflict p kind b o t).1 ≡ some c
      → c.path ≡ p
  named p kind b o t c h =
      let same_one : ◌≡◌ {A = TreeConflict PathLike}
          (record { path = p; kind = kind; base = b; ours = o; theirs = t }) c =
        cc in
      ap (λ (x : TreeConflict PathLike). x.path) (sym same_one)

  by_content_path :
      (p : PathLike) (b o t : Entry) (r : ContentResult) (c : TreeConflict PathLike)
      → (by_content p b o t r).1 ≡ some c
      → c.path ≡ p
  by_content_path p b o t (resolved hash) c h = absurd (cc)
  by_content_path p b o t (unresolved x y) c h = named p _ _ _ _ c h

  contested_path :
      (p : PathLike) (b o t : Option Entry) (c : TreeConflict PathLike)
      → (contested p b o t).1 ≡ some c
      → c.path ≡ p
  contested_path p (some b) (some o) (some t) c h =
      elim (Bool-cases (not (o.0 == t.0) && (not (o.0 == b.0) && not (t.0 == b.0)))) [
        | inl collide ↦ named p _ _ _ _ c (rw collide at h)
        | inr free ↦ by_content_path p b o t (resolve_content p o t (some b)) c (rw free at h)
      ]
  contested_path p none o t c h = named p _ _ _ _ c h
  contested_path p (some b) none t c h = named p _ _ _ _ c h
  contested_path p (some b) (some o) none c h = named p _ _ _ _ c h

  decided_path :
      (p : PathLike) (b o t : Option Entry) (d : Option (Option Entry)) (c : TreeConflict PathLike)
      → (decided p b o t d).1 ≡ some c
      → c.path ≡ p
  decided_path p b o t (some e) c h = absurd (cc)
  decided_path p b o t none c h = contested_path p b o t c h

  -- A conflict names the path that it is about.
  pub outcome_path :
      (p : PathLike) (b o t : Option Entry) (c : TreeConflict PathLike)
      → (outcome p b o t).1 ≡ some c
      → c.path ≡ p
  unfolding outcome
  outcome_path p b o t c h = decided_path p b o t (rule b o t) c h
