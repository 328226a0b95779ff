-- ===== src/Merge/Symmetry.antt =====
-- src/merge3.rs: the merge of trees with ours and theirs exchanged.
use gyt.Base.{
  ℕ, ◌≡◌, inl, inr, refl, sym, ap, ◌∙◌, Bool, true, false, not, ◌&&◌, Option, none, some, List,
  ◌==◌, ==_iff, if◌then◌else◌, arith, Bool-cases,
}
use gyt.Text.Cuts.{eq_bytes, eq_bytes→eq, eq_bytes_refl}
use gyt.Metadata.Events.{and-fst, and-snd}
use gyt.Merge.Maps.{PathOrd, get}
use gyt.Merge.{Entry, eq_entry, TreeConflict, ContentResult, resolved, unresolved, merge_trees}
use gyt.Merge.Rule.{agree, rule, by_content, contested, decided, outcome}
use gyt.Merge.Trees.{find, merge_trees_lem}

eq_entry→eq : (a b : Entry) → eq_entry a b ≡ true → a ≡ b
eq_entry→eq (m, h) (n, k) e =
    let mode = (==_iff m n).0 (and-fst (m == n) (eq_bytes h k) e) in
    let hash = eq_bytes→eq h k (and-snd (m == n) (eq_bytes h k) e) in cc

agree→eq : (a b : Option Entry) → agree a b ≡ true → a ≡ b
agree→eq none none h = refl
agree→eq none (some b) h = absurd (cc)
agree→eq (some a) none h = absurd (cc)
agree→eq (some a) (some b) h = ap some (eq_entry→eq a b h)

agree_refl : (a : Option Entry) → agree a a ≡ true
agree_refl none = refl
agree_refl (some e) = rw ((==_iff e.0 e.0).1 refl, eq_bytes_refl e.1) refl

agree_comm : (a b : Option Entry) → agree a b ≡ agree b a
agree_comm a b = elim (Bool-cases (agree a b)) [
  | inl h ↦ rw (agree→eq a b h) refl
  | inr h ↦ elim (Bool-cases (agree b a)) [
    | inl k ↦ rw (agree→eq b a k) refl
    | inr k ↦ rw (h, k) refl
  ]
]

-- The rule does not know which side is ours.
rule_comm : (b o t : Option Entry) → rule b t o ≡ rule b o t
rule_comm b o t = elim (Bool-cases (agree o t)) [
  | inl h ↦ rw (agree→eq o t h) refl
  | inr h ↦ elim (Bool-cases (agree b o)) [
    | inl k ↦ elim (Bool-cases (agree b t)) [
      | inl l ↦ absurd (let f : agree o t ≡ true = rw (sym (agree→eq b o k)) l in cc)
      | inr l ↦ rw (agree_comm t o, h, k, l) refl
    ]
    | inr k ↦ elim (Bool-cases (agree b t)) [
      | inl l ↦ rw (agree_comm t o, h, k, l) refl
      | inr l ↦ rw (agree_comm t o, h, k, l) refl
    ]
  ]
]

-- A conflict seen from the other side.
abbrev pub flip :
    {PathLike : Type 0} → Option (TreeConflict PathLike) → Option (TreeConflict PathLike)
flip none = none
flip (some c) = some (record c { ours = c.theirs; theirs = c.ours })

abbrev flip_result : ContentResult → ContentResult
flip_result (resolved h) = resolved h
flip_result (unresolved x y) = unresolved y x

collide : ℕ → ℕ → ℕ → Bool
collide b o t = not (o == t) && (not (o == b) && not (t == b))

collide_comm : (b o t : ℕ) → collide b t o ≡ collide b o t
unfolding collide
collide_comm b o t = ground arith

mode_comm :
    (b o t : ℕ) → collide b o t ≡ false → (if t == b then o else t) ≡ (if o == b then t else o)
unfolding collide
mode_comm b o t h = ground arith

module _ {PathLike : Type 0} (order : PathOrd PathLike)
    (resolve_content : PathLike → Entry → Entry → Option Entry → ContentResult) where
  by_content-flip :
      (p : PathLike) (b o t : Entry) (r : ContentResult)
      → collide b.0 o.0 t.0 ≡ false
      → by_content order resolve_content p b t o (flip_result r) ≡ (
        (by_content order resolve_content p b o t r).0,
        flip (by_content order resolve_content p b o t r).1,
      )
  by_content-flip p b o t (resolved hash) h = rw (mode_comm b.0 o.0 t.0 h) refl
  by_content-flip p b o t (unresolved x y) h = refl

  contested-flip :
      ((p : PathLike) (o t : Entry) (b : Option Entry)
        → resolve_content p t o b ≡ flip_result (resolve_content p o t b))
      → (p : PathLike) (b o t : Option Entry)
      → contested order resolve_content p b t o ≡ (
        (contested order resolve_content p b o t).0,
        flip (contested order resolve_content p b o t).1,
      )
  unfolding collide
  contested-flip fair p none o t = refl
  contested-flip fair p (some b) none none = refl
  contested-flip fair p (some b) none (some t) = refl
  contested-flip fair p (some b) (some o) none = refl
  contested-flip fair p (some b) (some o) (some t) = elim (Bool-cases (collide b.0 o.0 t.0)) [
    | inl h ↦ rw (collide_comm b.0 o.0 t.0, h) refl
    | inr h ↦
        rw (collide_comm b.0 o.0 t.0, h, fair p o t (some b))
          (by_content-flip p b o t (resolve_content p o t (some b)) h)
  ]

  decided-flip :
      ((p : PathLike) (o t : Entry) (b : Option Entry)
        → resolve_content p t o b ≡ flip_result (resolve_content p o t b))
      → (p : PathLike) (b o t : Option Entry) (d : Option (Option Entry))
      → decided order resolve_content p b t o d ≡ (
        (decided order resolve_content p b o t d).0,
        flip (decided order resolve_content p b o t d).1,
      )
  decided-flip fair p b o t (some e) = refl
  decided-flip fair p b o t none = contested-flip fair p b o t

  -- If the merge of contents is fair to both sides, then exchanging ours and theirs gives every path
  -- the same entry, and the same conflict with its sides exchanged.
  pub merge_trees_comm :
      (base ours theirs : List (PathLike × Entry)) (p : PathLike)
      → ((p : PathLike) (o t : Entry) (b : Option Entry)
          → resolve_content p t o b ≡ flip_result (resolve_content p o t b))
      → let m = merge_trees order resolve_content base ours theirs in
        let m' = merge_trees order resolve_content base theirs ours in
        (get order p m'.merged ≡ get order p m.merged)
        × (find order p m'.conflicts ≡ flip (find order p m.conflicts))
  unfolding outcome
  merge_trees_comm base ours theirs p fair =
      let b = get order p base in
      let o = get order p ours in
      let t = get order p theirs in
      let (entry, found) = merge_trees_lem order resolve_content base ours theirs p in
      let (entry', found') = merge_trees_lem order resolve_content base theirs ours p in
      let swapped : outcome order resolve_content p b t o ≡ (
        (outcome order resolve_content p b o t).0,
        flip (outcome order resolve_content p b o t).1,
      ) =
        rw (rule_comm b o t) (decided-flip fair p b o t (rule b o t)) in
      (
        entry'
            ∙ ap (λ (x : Option Entry × Option (TreeConflict PathLike)). x.0) swapped
            ∙ sym entry,
        found'
            ∙ ap (λ (x : Option Entry × Option (TreeConflict PathLike)). x.1) swapped
            ∙ ap flip (sym found),
      )
