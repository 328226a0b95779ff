-- ===== src/RefsPolicy/Excluded.antt =====
-- src/net/refs_policy.rs: the set that the first walk of `commits_new_since` collects.
use gyt.Base.{
  ℕ, zero, suc, ◌≡◌, refl, sym, ◌↔◌, ◌⊎◌, inl, inr, true, false, Option, none, some, List, [], ◌∷◌,
  Result, ok,
}
use gyt.Text.Cuts.{eq_bytes, eq_bytes→eq, eq_bytes_refl}
use gyt.Hash.{ObjectId}
use gyt.Object.Commit.{Commit}
use gyt.RefsPolicy.Graph.{
  max_walk_commits, mem, next_unseen, readable_parents, push_parents, exclude, excluded_by,
}
use gyt.RefsPolicy.Stack.{or-cases, or-inl, next_unseen-some, next_unseen-none, mem-push_all}
use gyt.RefsPolicy.Reachable.{
  Reach, here, parent-Reach, Closed, visit-Closed, visit-keeps, Closed-Reach, Reach-trans,
}

module _ (read_commit : ObjectId → Result Commit) where
  -- `x` is behind the reference value that is there already.
  abbrev pub IsOld : Option ObjectId → ObjectId → Type 0
  IsOld none x = ⊥
  IsOld (some old) x = Reach read_commit old x

  exclude_complete :
      (n : ℕ) (seen stack : List ObjectId) (t : Option (ObjectId × List ObjectId))
      (out : List ObjectId)
      → next_unseen seen stack ≡ t
      → Closed read_commit seen stack
      → exclude read_commit n seen t ≡ ok out
      → (x y : ObjectId) → (mem x seen ≡ true) ⊎ (mem x stack ≡ true)
      → Reach read_commit x y
      → mem y out ≡ true
  unfolding exclude
  exclude_complete n seen stack none out e closed h x y hx path =
      let first : mem x seen ≡ true = elim hx [
        | inl s ↦ s
        | inr s ↦ next_unseen-none seen stack e x s
      ] in
      let same : seen ≡ out = cc in
      rw (sym same) (Closed-Reach read_commit seen stack e closed first path)
  exclude_complete zero seen stack (some (id, rest)) out e closed h x y hx path = absurd (cc)
  exclude_complete (suc n) seen stack (some (id, rest)) out e closed h x y hx path =
      let next = next_unseen-some seen stack id rest e in
      exclude_complete n (id ∷ seen) (push_parents read_commit id rest) _ out refl
        (visit-Closed read_commit seen stack id rest next closed) h x y
        (visit-keeps read_commit seen stack id rest next x hx) path

  exclude_sound :
      (n : ℕ) (seen stack : List ObjectId) (t : Option (ObjectId × List ObjectId))
      (out : List ObjectId)
      → next_unseen seen stack ≡ t
      → exclude read_commit n seen t ≡ ok out
      → (y : ObjectId) → mem y out ≡ true
      → (mem y seen ≡ true) ⊎ ((x : ObjectId) × (mem x stack ≡ true) × Reach read_commit x y)
  unfolding exclude mem
  exclude_sound n seen stack none out e h y hy = let same : seen ≡ out = cc in inl (rw same hy)
  exclude_sound zero seen stack (some (id, rest)) out e h y hy = absurd (cc)
  exclude_sound (suc n) seen stack (some (id, rest)) out e h y hy =
      let next = next_unseen-some seen stack id rest e in
      elim (exclude_sound n (id ∷ seen) (push_parents read_commit id rest) _ out refl h y hy) [
        | inl s ↦ elim (or-cases (eq_bytes y id) (mem y seen) s) [
          | inl same ↦ inr (id, next.here, rw (eq_bytes→eq y id same) (here id))
          | inr old ↦ inl old
        ]
        | inr (x, m, path) ↦ elim ((mem-push_all (readable_parents (read_commit id)) rest x).0 m) [
          | inl parent ↦ inr (id, next.here, parent-Reach read_commit id x y parent path)
          | inr below ↦ inr (x, next.later x below, path)
        ]
      ]

  -- The excluded set holds exactly what stands behind the old value.
  pub excluded_by_lem :
      (old : Option ObjectId) (out : List ObjectId)
      → excluded_by read_commit old ≡ ok out
      → (y : ObjectId) → (mem y out ≡ true) ↔ IsOld old y
  unfolding excluded_by mem
  excluded_by_lem none out h y = (
    λ m. let e : [] ≡ out = cc in let k : mem y [] ≡ true = rw (sym e) at m in absurd (cc),
    λ m. absurd m,
  )
  excluded_by_lem (some old) out h y = (
    λ m. elim (exclude_sound max_walk_commits [] (old ∷ []) _ out refl h y m) [
      | inl k ↦ absurd (cc)
      | inr (x, k, path) ↦ elim (or-cases (eq_bytes x old) false k) [
        | inl same ↦ rw (sym (eq_bytes→eq x old same)) path
        | inr nowhere ↦ absurd (cc)
      ]
    ],
    λ path.
        exclude_complete max_walk_commits [] (old ∷ []) _ out refl (λ x p hx hp. absurd (cc)) h old
          y (inr (or-inl _ _ (eq_bytes_refl old))) path,
  )

  pub IsOld-Reach :
      (old : Option ObjectId) (x y : ObjectId) → IsOld old x → Reach read_commit x y → IsOld old y
  IsOld-Reach none x y h path = h
  IsOld-Reach (some old) x y h path = Reach-trans read_commit h path
