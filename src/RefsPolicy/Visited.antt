-- ===== src/RefsPolicy/Visited.antt =====
-- src/net/refs_policy.rs: what the walk that lists the new commits has visited.
use gyt.Base.{
  ℕ, zero, suc, ◌≡◌, refl, sym, ◌⊎◌, inl, inr, Bool, true, false, Option, none, some, List, [], ◌∷◌,
  Result, ok, err, GytError, after_ok,
}
use gyt.Text.Cuts.{eq_bytes, eq_bytes→eq, eq_bytes_refl}
use gyt.Hash.{ObjectId}
use gyt.Object.Commit.{Commit}
use gyt.RefsPolicy.Graph.{mem, push_all, next_new, visit_new, readable_parents, collect}
use gyt.RefsPolicy.Stack.{or-cases, or-inl, or-inr}
use gyt.RefsPolicy.Reachable.{Reach, here, link}
use gyt.RefsPolicy.NextNew.{
  ids, pushed, IsSeed, push_all-IsSeed, NextNew, next_new-some, next_new-none,
}

-- The two ways through a round.
pub visit_new-ok :
    (id : ObjectId) (step : Bool) (r : Result Commit)
    (next : List ObjectId → Result (List ObjectId)) (out : List ObjectId)
    → visit_new id step r next ≡ ok out
    → ((c : Commit) × (r ≡ ok c)
        × (listed : List ObjectId) × (next c.parents ≡ ok listed)
        × (out ≡ id ∷ listed))
      ⊎ ((step ≡ false) × (x : GytError) × (r ≡ err x) × (next [] ≡ ok out))
visit_new-ok id step (ok c) next out h =
    after_ok (next c.parents) _ h λ listed h' e. inl (c, refl, listed, h', cc)
visit_new-ok id true (err x) next out h = absurd (cc)
visit_new-ok id false (err x) next out h = inr (refl, x, refl, h)
visit_new-ok id step Result.stuck next out h = absurd (cc)

module _ (read_commit : ObjectId → Result Commit) where
  abbrev pub IsReadable : ObjectId → Type 0
  IsReadable x = (c : Commit) × (read_commit x ≡ ok c)

  -- The ids that a walk has visited in the end, with what it says of them.
  pub record Visited (excluded seen : List ObjectId) (stack : List (ObjectId × Bool))
      (out : List ObjectId) : Type 0 where
    pub visited : List ObjectId
    pub kept : (x : ObjectId) → mem x seen ≡ true → mem x visited ≡ true
    pub stacked :
        (x : ObjectId) → mem x (ids stack) ≡ true → (mem x excluded ≡ true) ⊎ (mem x visited ≡ true)
    pub closed :
        (x p : ObjectId)
        → mem x visited ≡ true
        → mem p (readable_parents (read_commit x)) ≡ true
        → (mem p excluded ≡ true) ⊎ (mem p visited ≡ true)
    pub listed :
        (x : ObjectId)
        → mem x visited ≡ true
        → (mem x seen ≡ true) ⊎ (mem x out ≡ true) ⊎ (IsSeed x stack × ¬ IsReadable x)

  abbrev pub ClosedNew : List ObjectId → List ObjectId → List (ObjectId × Bool) → Type 0
  ClosedNew excluded seen stack =
      (x p : ObjectId)
      → mem x seen ≡ true
      → mem p (readable_parents (read_commit x)) ≡ true
      → (mem p excluded ≡ true) ⊎ (mem p seen ≡ true) ⊎ (mem p (ids stack) ≡ true)

  visit-split :
      (excluded seen : List ObjectId) (stack : List (ObjectId × Bool)) (id : ObjectId) (step : Bool)
      (rest : List (ObjectId × Bool)) (ps : List ObjectId)
      → NextNew excluded seen stack id step rest
      → (p : ObjectId) → (mem p excluded ≡ true) ⊎ (mem p seen ≡ true) ⊎ (mem p (ids stack) ≡ true)
      → (mem p excluded ≡ true)
        ⊎ (mem p (id ∷ seen) ≡ true)
        ⊎ (mem p (ids (push_all (λ p. (p, true)) ps rest)) ≡ true)
  unfolding mem
  visit-split excluded seen stack id step rest ps next p (inl k) = inl k
  visit-split excluded seen stack id step rest ps next p (inr (inl k)) =
      inr (inl (or-inr (eq_bytes p id) _ k))
  visit-split excluded seen stack id step rest ps next p (inr (inr k)) = elim (next.split p k) [
    | inl t ↦ inl t
    | inr (inl t) ↦ inr (inl (or-inr (eq_bytes p id) _ t))
    | inr (inr (inl t)) ↦ inr (inl (or-inl (eq_bytes p id) (mem p seen) (rw t (eq_bytes_refl id))))
    | inr (inr (inr t)) ↦ inr (inr ((pushed ps rest p).1 (inr t)))
  ]

  -- The invariant of the walk, one commit on.
  visit-ClosedNew :
      (excluded seen : List ObjectId) (stack : List (ObjectId × Bool)) (id : ObjectId) (step : Bool)
      (rest : List (ObjectId × Bool)) (ps : List ObjectId)
      → NextNew excluded seen stack id step rest
      → ClosedNew excluded seen stack
      → readable_parents (read_commit id) ≡ ps
      → ClosedNew excluded (id ∷ seen) (push_all (λ p. (p, true)) ps rest)
  unfolding mem
  visit-ClosedNew excluded seen stack id step rest ps next closed r x p hx hp =
      elim (or-cases (eq_bytes x id) (mem x seen) hx) [
        | inl same ↦
            let parent : mem p (readable_parents (read_commit id)) ≡ true =
              rw (sym (eq_bytes→eq x id same)) hp in
            inr (inr ((pushed ps rest p).1 (inl (rw (sym r) parent))))
        | inr old ↦ visit-split excluded seen stack id step rest ps next p (closed x p old hp)
      ]

  -- What the walk has visited in the end, from what it has visited one commit on.
  visit-Visited :
      (excluded seen : List ObjectId) (stack : List (ObjectId × Bool)) (id : ObjectId) (step : Bool)
      (rest : List (ObjectId × Bool)) (ps : List ObjectId) (out out' : List ObjectId)
      → NextNew excluded seen stack id step rest
      → readable_parents (read_commit id) ≡ ps
      → ((x : ObjectId) → mem x out ≡ true → mem x out' ≡ true)
      → (mem id out' ≡ true) ⊎ (IsSeed id stack × ¬ IsReadable id)
      → Visited excluded (id ∷ seen) (push_all (λ p. (p, true)) ps rest) out
      → Visited excluded seen stack out'
  unfolding mem
  visit-Visited excluded seen stack id step rest ps out out' next r grown mine v = record {
    visited = v.visited;
    kept = λ x s. v.kept x (or-inr (eq_bytes x id) _ s);
    stacked = λ x s. elim (visit-split excluded seen stack id step rest ps next x (inr (inr s))) [
      | inl k ↦ inl k
      | inr (inl k) ↦ inr (v.kept x k)
      | inr (inr k) ↦ v.stacked x k
    ];
    closed = v.closed;
    listed = λ x s. elim (v.listed x s) [
      | inl k ↦ elim (or-cases (eq_bytes x id) (mem x seen) k) [
        | inl same ↦ inr (rw (eq_bytes→eq x id same) mine)
        | inr old ↦ inl old
      ]
      | inr (inl k) ↦ inr (inl (grown x k))
      | inr (inr k) ↦ inr (inr (next.seeds x (push_all-IsSeed ps rest x k.0), k.1))
    ];
  }

  pub collect-Visited :
      (excluded : List ObjectId) (n : ℕ) (seen : List ObjectId) (stack : List (ObjectId × Bool))
      (t : Option ((ObjectId × Bool) × List (ObjectId × Bool))) (out : List ObjectId)
      → next_new excluded seen stack ≡ t
      → ClosedNew excluded seen stack
      → collect read_commit excluded n seen t ≡ ok out
      → Visited excluded seen stack out
  unfolding collect
  collect-Visited excluded n seen stack none out e closed h = record {
    visited = seen;
    kept = λ x s. s;
    stacked = next_new-none excluded seen stack e;
    closed = λ x p s m. elim (closed x p s m) [
      | inl k ↦ inl k
      | inr (inl k) ↦ inr k
      | inr (inr k) ↦ next_new-none excluded seen stack e p k
    ];
    listed = λ x s. inl s;
  }
  collect-Visited excluded zero seen stack (some (top, rest)) out e closed h = absurd (cc)
  collect-Visited excluded (suc n) seen stack (some ((id, step), rest)) out e closed h =
      let next = next_new-some excluded seen stack id step rest e in
      let next = next_new-some excluded seen stack id step rest e in
      let walk : List ObjectId → Result (List ObjectId) = λ ps.
        collect read_commit excluded n (id ∷ seen)
          (next_new excluded (id ∷ seen) (push_all (λ p. (p, true)) ps rest)) in
      elim (visit_new-ok id step (read_commit id) walk out h) [
        | inl (c, r, listed, h', same) ↦
            let parents : readable_parents (read_commit id) ≡ c.parents = rw r refl in
            visit-Visited excluded seen stack id step rest c.parents listed out next parents
              (λ x m. rw same (unfold mem in or-inr (eq_bytes x id) _ m))
              (inl (rw same (unfold mem in or-inl _ _ (eq_bytes_refl id))))
              (collect-Visited excluded n (id ∷ seen) (push_all (λ p. (p, true)) c.parents rest) _
                listed refl
                (visit-ClosedNew excluded seen stack id step rest c.parents next closed parents) h')
        | inr (way, x, r, h') ↦
            let parents : readable_parents (read_commit id) ≡ [] = rw r refl in
            visit-Visited excluded seen stack id step rest [] out out next parents (λ x m. m)
              (inr (next.seed way, λ readable. let (c, k) = readable in cc))
              (collect-Visited excluded n (id ∷ seen) (push_all (λ p. (p, true)) [] rest) _ out refl
                (visit-ClosedNew excluded seen stack id step rest [] next closed parents) h')
      ]

  -- From a visited id the walk visits all that it reaches, up to the excluded ids.
  pub Visited-Reach :
      (excluded seen : List ObjectId) (stack : List (ObjectId × Bool)) (out : List ObjectId)
      → (v : Visited excluded seen stack out)
      → ((x y : ObjectId) → mem x excluded ≡ true → Reach read_commit x y → mem y excluded ≡ true)
      → {x y : ObjectId} → (mem x excluded ≡ true) ⊎ (mem x (v.visited) ≡ true)
      → Reach read_commit x y
      → (mem y excluded ≡ true) ⊎ (mem y (v.visited) ≡ true)
  Visited-Reach excluded seen stack out v shut hx (here a) = hx
  Visited-Reach excluded seen stack out v shut {x} hx (link c p r m path) =
      Visited-Reach excluded seen stack out v shut
        (elim hx [
          | inl k ↦ inl (shut x p k (link c p r m (here p)))
          | inr k ↦ v.closed x p k (rw r m)
        ])
        path
