-- ===== src/RefsPolicy/NewCommits.antt =====
-- src/net/refs_policy.rs: which commits `commits_new_since` lists.
use gyt.Base.{
  ℕ, zero, suc, ◌≡◌, refl, sym, ◌↔◌, inl, inr, Bool, true, false, ◌||◌, Option, none, some, List,
  [], ◌∷◌, Result, ok, after_ok,
}
use gyt.Text.Cuts.{eq_bytes, eq_bytes→eq, eq_bytes_refl}
use gyt.Hash.{ObjectId}
use gyt.Object.Commit.{Commit}
use gyt.RefsPolicy.Graph.{
  max_walk_commits, mem, push_all, next_new, readable_parents, excluded_by, collect,
  commits_new_since,
}
use gyt.RefsPolicy.Excluded.{IsOld, excluded_by_lem, IsOld-Reach}
use gyt.RefsPolicy.Stack.{or-cases, or-inl}
use gyt.RefsPolicy.Reachable.{Reach, here, parent-Reach, only_seed}
use gyt.RefsPolicy.NextNew.{ids, pushed, NextNew, next_new-some}
use gyt.RefsPolicy.Visited.{visit_new-ok, IsReadable, collect-Visited, Visited-Reach}

module _ (read_commit : ObjectId → Result Commit) where
  behind :
      (excluded seen : List ObjectId) (stack : List (ObjectId × Bool)) (id : ObjectId) (step : Bool)
      (rest : List (ObjectId × Bool)) (ps : List ObjectId)
      → NextNew excluded seen stack id step rest
      → readable_parents (read_commit id) ≡ ps
      → (x y : ObjectId) → mem x (ids (push_all (λ p. (p, true)) ps rest)) ≡ true
      → Reach read_commit x y
      → (x : ObjectId) × (mem x (ids stack) ≡ true) × Reach read_commit x y
  behind excluded seen stack id step rest ps next r x y m path = elim ((pushed ps rest x).0 m) [
    | inl parent ↦ (id, next.here, parent-Reach read_commit id x y (rw r parent) path)
    | inr below ↦ (x, next.later x below, path)
  ]

  collect_sound :
      (excluded : List ObjectId) (n : ℕ) (seen : List ObjectId) (stack : List (ObjectId × Bool))
      (t : Option ((ObjectId × Bool) × List (ObjectId × Bool))) (out : List ObjectId)
      → next_new excluded seen stack ≡ t
      → collect read_commit excluded n seen t ≡ ok out
      → (y : ObjectId) → mem y out ≡ true
      → (mem y excluded ≡ false)
        × IsReadable read_commit y
        × ((x : ObjectId) × (mem x (ids stack) ≡ true) × Reach read_commit x y)
  unfolding collect mem
  collect_sound excluded n seen stack none out e h y hy =
      let same : [] ≡ out = cc in let k : mem y [] ≡ true = rw (sym same) at hy in absurd (cc)
  collect_sound excluded zero seen stack (some (top, rest)) out e h y hy = absurd (cc)
  collect_sound excluded (suc n) seen stack (some ((id, step), rest)) out e h y hy =
      let next = next_new-some excluded seen stack id step rest e in
      let walk : List ObjectId → Result (List ObjectId) = λ ps.
        collect read_commit excluded n (id ∷ seen)
          (next_new excluded (id ∷ seen) (push_all (λ p. (p, true)) ps rest)) in
      elim (visit_new-ok id step (read_commit id) walk out h) [
        | inl (c, r, listed, h', same) ↦
            let there : (eq_bytes y id || mem y listed) ≡ true = rw same at hy in
            elim (or-cases (eq_bytes y id) (mem y listed) there) [
              | inl it ↦ rw (eq_bytes→eq y id it) (next.included, (c, r), (id, next.here, here id))
              | inr later ↦
                  let (out_of, readable, (x, m, path)) =
                    collect_sound excluded n (id ∷ seen) (push_all (λ p. (p, true)) c.parents rest)
                      _ listed refl h' y later in
                  (
                    out_of,
                    readable,
                    behind excluded seen stack id step rest c.parents next (rw r refl) x y m path,
                  )
            ]
        | inr (way, e', r, h') ↦
            let (out_of, readable, (x, m, path)) =
              collect_sound excluded n (id ∷ seen) (push_all (λ p. (p, true)) [] rest) _ out refl h'
                y hy in
            (
              out_of,
              readable,
              behind excluded seen stack id step rest [] next (rw r refl) x y m path,
            )
      ]

  -- Where `commits_new_since` gives a list, it holds exactly the readable commits that parent links
  -- lead to from the new value and not from the old one.
  pub commits_new_since_lem :
      (old : Option ObjectId) (new : ObjectId) (out : List ObjectId)
      → commits_new_since read_commit old new ≡ ok out
      → (y : ObjectId) → IsReadable read_commit y
      → (mem y out ≡ true) ↔ (Reach read_commit new y × ¬ IsOld read_commit old y)
  unfolding commits_new_since mem
  commits_new_since_lem old new out h y readable =
      after_ok (excluded_by read_commit old) _ h λ excluded h₁ h₂.
        let v =
          collect-Visited read_commit excluded max_walk_commits [] ((new, false) ∷ []) _ out refl
            (λ x p hx hp. absurd (cc)) h₂ in
        let old_ids = excluded_by_lem read_commit old excluded h₁ in
        (
          λ m.
              let (out_of, again, (x, k, path)) =
                collect_sound excluded max_walk_commits [] ((new, false) ∷ []) _ out refl h₂ y m in
              (only_seed read_commit new x y k path, λ o. let t = (old_ids y).1 o in cc),
          λ r.
              elim (Visited-Reach read_commit excluded [] ((new, false) ∷ []) out v
                (λ x z m path.
                  (old_ids z).1 (IsOld-Reach read_commit old x z ((old_ids x).0 m) path))
                (v.stacked new (or-inl _ _ (eq_bytes_refl new))) r.0) [
                  | inl k ↦ absurd (r.1 ((old_ids y).0 k))
                  | inr k ↦ elim (v.listed y k) [
                    | inl s ↦ absurd (cc)
                    | inr (inl s) ↦ s
                    | inr (inr s) ↦ absurd (s.1 readable)
                  ]
                ],
        )
