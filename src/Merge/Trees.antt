-- ===== src/Merge/Trees.antt =====
-- src/merge3.rs: the merge of trees is the rule at every path.
use gyt.Base.{
  ◌≡◌, inl, inr, refl, sym, ap, ◌∙◌, Bool, true, false, ◌||◌, Option, none, some, List, [], ◌∷◌,
  ◌++◌, if◌then◌else◌, Bool-cases,
}
use gyt.Merge.Maps.{
  PathOrd, same, same→eq, get, get-insert, keys, has, has-insert_all, get-keys, has_append,
}
use gyt.Merge.{
  Entry, TreeConflict, ContentResult, TreeMerge, merge_path, merge_paths, all_paths, merge_trees,
}
use gyt.Merge.Rule.{outcome, apply, outcome_path, merge_path_lem}

-- The first of two options that is there.
abbrev pub or_else {ℓ} : {A : Type ℓ} → Option A → Option A → Option A
or_else none b = b
or_else (some a) b = some a

or_else_assoc {ℓ} :
    {A : Type ℓ} (a b c : Option A) → or_else (or_else a b) c ≡ or_else a (or_else b c)
or_else_assoc none b c = refl
or_else_assoc (some a) b c = refl

or_else_twice {ℓ} : {A : Type ℓ} (a b : Option A) → or_else a (or_else a b) ≡ or_else a b
or_else_twice none b = refl
or_else_twice (some a) b = refl

or_else_self {ℓ} : {A : Type ℓ} (a : Option A) → or_else a a ≡ a
or_else_self none = refl
or_else_self (some a) = refl

or_else-none {ℓ} : {A : Type ℓ} (a : Option A) → or_else a none ≡ a
or_else-none none = refl
or_else-none (some a) = refl

no_or :
    (a b c : Bool) → ((a || (b || c)) || false) ≡ false → (a ≡ false) × (b ≡ false) × (c ≡ false)
no_or true b c h = absurd (cc)
no_or false true c h = absurd (cc)
no_or false false true h = absurd (cc)
no_or false false false h = (refl, refl, refl)

-- One more round, for the entries and for the conflicts.
one_more {ℓ} :
    {A : Type ℓ} (s h : Bool) (a a' x : Option A)
    → (s ≡ true → a' ≡ a)
    → or_else (if h then a else none) (or_else (if s then a' else none) x)
      ≡ or_else (if s || h then a else none) x
one_more true true a a' x e = rw (e refl) (or_else_twice a x)
one_more true false a a' x e = rw (e refl) refl
one_more false h a a' x e = refl

one_less {ℓ} :
    {A : Type ℓ} (s h : Bool) (a a' x : Option A)
    → (s ≡ true → a' ≡ a)
    → or_else (or_else x (if s then a' else none)) (if h then a else none)
      ≡ or_else x (if s || h then a else none)
one_less true true a a' x e = rw (e refl, or_else_assoc x a a) (ap (or_else x) (or_else_self a))
one_less true false a a' x e = rw (e refl) (or_else-none (or_else x a))
one_less false h a a' x e = rw (or_else-none x) refl

module _ {PathLike : Type 0} (order : PathOrd PathLike) where
  -- The conflict of a path.
  unfoldable pub find : PathLike → List (TreeConflict PathLike) → Option (TreeConflict PathLike)
  find p [] = none
  find p (c ∷ cs) = let rest = find p cs in if same order p c.path then some c else rest

  find-append :
      (p : PathLike) (xs ys : List (TreeConflict PathLike))
      → find p (xs ++ ys) ≡ or_else (find p xs) (find p ys)
  unfolding find
  find-append p [] ys = refl
  find-append p (c ∷ xs) ys = elim (Bool-cases (same order p c.path)) [
    | inl e ↦ rw e refl
    | inr e ↦ rw e (find-append p xs ys)
  ]

module _ {PathLike : Type 0} (order : PathOrd PathLike)
    (resolve_content : PathLike → Entry → Entry → Option Entry → ContentResult) where
  -- What the step at `q` says of the path `p`.
  abbrev at_path : {A : Type 0} → PathLike → PathLike → Option A → Option A
  at_path p q x = if same order p q then x else none

  get-apply :
      (p q : PathLike) (m : TreeMerge PathLike) (r : Option Entry × Option (TreeConflict PathLike))
      → get order p (apply order resolve_content m q r).merged
        ≡ or_else (at_path p q r.0) (get order p m.merged)
  get-apply p q m (none, c) = elim (Bool-cases (same order p q)) [
    | inl e ↦ rw e refl
    | inr e ↦ rw e refl
  ]
  get-apply p q m (some e', c) = elim (Bool-cases (same order p q)) [
    | inl e ↦ rw (get-insert order p q e' m.merged, e) refl
    | inr e ↦ rw (get-insert order p q e' m.merged, e) refl
  ]

  find-apply :
      (p q : PathLike) (m : TreeMerge PathLike) (r : Option Entry × Option (TreeConflict PathLike))
      → ((c : TreeConflict PathLike) → r.1 ≡ some c → c.path ≡ q)
      → find order p (apply order resolve_content m q r).conflicts
        ≡ or_else (find order p m.conflicts) (at_path p q r.1)
  unfolding find
  find-apply p q m (e, none) named = elim (Bool-cases (same order p q)) [
    | inl s ↦ rw (s, or_else-none (find order p m.conflicts)) refl
    | inr s ↦ rw (s, or_else-none (find order p m.conflicts)) refl
  ]
  find-apply p q m (e, some c) named =
      rw (find-append order p m.conflicts (c ∷ []), named c refl) refl

  absent :
      (base ours theirs : List (PathLike × Entry)) (p : PathLike)
      → has order p (all_paths order base ours theirs) ≡ false
      → (get order p base ≡ none) × (get order p ours ≡ none) × (get order p theirs ≡ none)
  unfolding all_paths has
  absent base ours theirs p h =
      let (b, o, t) =
        no_or (has order p (keys base)) (has order p (keys ours)) (has order p (keys theirs)) (
          rw
            (
              has-insert_all order p (keys base ++ (keys ours ++ keys theirs)) [],
              has_append order p (keys base) (keys ours ++ keys theirs),
              has_append order p (keys ours) (keys theirs),
            )
            at h) in
      (get-keys order p base b, get-keys order p ours o, get-keys order p theirs t)

  -- All rounds of the loop, at one path.
  merge_paths_lem :
      (base ours theirs : List (PathLike × Entry)) (paths : List PathLike) (m : TreeMerge PathLike)
      (p : PathLike)
      → let r =
          outcome order resolve_content p
            (get order p base)
            (get order p ours)
            (get order p theirs) in
        let m' = merge_paths order resolve_content base ours theirs m paths in
        (get order p m'.merged
          ≡ or_else (if has order p paths then r.0 else none) (get order p m.merged))
        × (find order p m'.conflicts
            ≡ or_else (find order p m.conflicts) (if has order p paths then r.1 else none))
  unfolding merge_paths has
  merge_paths_lem base ours theirs [] m p = (refl, sym (or_else-none (find order p m.conflicts)))
  merge_paths_lem base ours theirs (q ∷ paths) m p =
      let out = λ (x : PathLike).
        outcome order resolve_content x (get order x base) (get order x ours)
          (get order x theirs) in
      let m' =
        merge_path order resolve_content m q (get order q base) (get order q ours)
          (get order q theirs) in
      let step =
        merge_path_lem order resolve_content m q (get order q base) (get order q ours)
          (get order q theirs) in
      let (entry, found) = merge_paths_lem base ours theirs paths m' p in
      (
        entry
            ∙ ap
                (λ (x : TreeMerge PathLike).
                  or_else (if has order p paths then (out p).0 else none) (get order p x.merged))
                step
            ∙ ap (or_else (if has order p paths then (out p).0 else none)) (get-apply p q m (out q))
            ∙ one_more (same order p q) (has order p paths) (out p).0 (out q).0
                (get order p m.merged) (λ e. rw (same→eq order p q e) refl),
        found
            ∙ ap
                (λ (x : TreeMerge PathLike).
                  or_else (find order p x.conflicts)
                    (if has order p paths then (out p).1 else none))
                step
            ∙ ap (λ x. or_else x (if has order p paths then (out p).1 else none))
                (find-apply p q m (out q) (
                  outcome_path order resolve_content q (get order q base) (get order q ours)
                    (get order q theirs)))
            ∙ one_less (same order p q) (has order p paths) (out p).1 (out q).1
                (find order p m.conflicts) (λ e. rw (same→eq order p q e) refl),
      )

  -- At every path, the merged map has the entry and the list of conflicts the conflict that the
  -- outcome of the path's three entries names.
  pub merge_trees_lem :
      (base ours theirs : List (PathLike × Entry)) (p : PathLike)
      → let r =
          outcome order resolve_content p
            (get order p base)
            (get order p ours)
            (get order p theirs) in
        let m = merge_trees order resolve_content base ours theirs in
        (get order p m.merged ≡ r.0) × (find order p m.conflicts ≡ r.1)
  unfolding merge_trees get find outcome
  merge_trees_lem base ours theirs p =
      let r =
        outcome order resolve_content p (get order p base) (get order p ours)
          (get order p theirs) in
      let (entry, found) =
        merge_paths_lem base ours theirs (all_paths order base ours theirs)
          (record { merged = []; conflicts = [] }) p in
      elim (Bool-cases (has order p (all_paths order base ours theirs))) [
        | inl there ↦ (entry ∙ rw there (or_else-none r.0), found ∙ rw there refl)
        | inr nowhere ↦
            let (b, o, t) = absent base ours theirs p nowhere in
            (entry ∙ rw (nowhere, b, o, t) refl, found ∙ rw (nowhere, b, o, t) refl)
      ]
