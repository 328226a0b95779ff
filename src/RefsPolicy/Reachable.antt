-- ===== src/RefsPolicy/Reachable.antt =====
-- src/net/refs_policy.rs: what `is_ancestor` answers.
use gyt.Base.{
  ℕ, zero, suc, ◌≡◌, refl, sym, ◌↔◌, ◌⊎◌, inl, inr, Bool, true, false, ◌||◌, Option, none, some,
  List, [], ◌∷◌, Result, ok, Bool-cases, Result-cases,
}
use gyt.Text.Cuts.{eq_bytes, eq_bytes→eq, eq_bytes_refl}
use gyt.Hash.{ObjectId}
use gyt.Object.Commit.{Commit}
use gyt.RefsPolicy.Graph.{
  max_walk_commits, mem, next_unseen, readable_parents, push_parents, search_ancestor, is_ancestor,
}
use gyt.RefsPolicy.Stack.{
  or-cases, or-inl, or-inr, other_way, lacks-visit, Next, next_unseen-some, next_unseen-none,
  mem-push_all,
}

module _ (read_commit : ObjectId → Result Commit) where
  -- `a` has `b` among the commits that parent links lead to, itself included.
  pub data Reach : ObjectId → ObjectId → Type 0 where
    here : (a : ObjectId) → Reach a a
    link :
        {a b : ObjectId} (c : Commit) (p : ObjectId)
        → read_commit a ≡ ok c
        → mem p c.parents ≡ true
        → Reach p b
        → Reach a b

  pub Reach-trans : {x y z : ObjectId} → Reach x y → Reach y z → Reach x z
  Reach-trans (here a) path = path
  Reach-trans (link c p r m first) path = link c p r m (Reach-trans first path)

  pub parent-Reach :
      (a p b : ObjectId) → mem p (readable_parents (read_commit a)) ≡ true → Reach p b → Reach a b
  unfolding mem
  parent-Reach a p b m r = elim (Result-cases (read_commit a)) [
    | inl (c, e) ↦ link c p e (rw e at m) r
    | inr (inl (x, e)) ↦ absurd (let k : false ≡ true = rw e at m in cc)
    | inr (inr e) ↦ absurd (let k : false ≡ true = rw e at m in cc)
  ]

  -- Behind the only id of a stack.
  pub only_seed : (new x y : ObjectId) → (eq_bytes x new || false) ≡ true → Reach x y → Reach new y
  only_seed new x y k path = elim (or-cases (eq_bytes x new) false k) [
    | inl same ↦ rw (sym (eq_bytes→eq x new same)) path
    | inr nowhere ↦ absurd (cc)
  ]

  -- A hit stands behind some id of the stack.
  search_ancestor_sound :
      (a : ObjectId) (n : ℕ) (seen stack : List ObjectId) (t : Option (ObjectId × List ObjectId))
      → next_unseen seen stack ≡ t
      → search_ancestor read_commit a n seen t ≡ ok true
      → (x : ObjectId) × (mem x stack ≡ true) × Reach x a
  unfolding search_ancestor
  search_ancestor_sound a n seen stack none e h = absurd (cc)
  search_ancestor_sound a zero seen stack (some (id, rest)) e h = absurd (cc)
  search_ancestor_sound a (suc n) seen stack (some (id, rest)) e h =
      let next = next_unseen-some seen stack id rest e in
      elim (Bool-cases (eq_bytes id a)) [
        | inl found ↦ (id, next.here, rw (eq_bytes→eq id a found) (here a))
        | inr other ↦
            let (x, m, r) =
              search_ancestor_sound a n (id ∷ seen) (push_parents read_commit id rest) _ refl
                (rw other at h) in
            elim ((mem-push_all (readable_parents (read_commit id)) rest x).0 m) [
              | inl parent ↦ (id, next.here, parent-Reach id x a parent r)
              | inr below ↦ (x, next.later x below, r)
            ]
      ]

  pub visit-keeps :
      (seen stack : List ObjectId) (id : ObjectId) (rest : List ObjectId)
      → Next seen stack id rest
      → (x : ObjectId) → (mem x seen ≡ true) ⊎ (mem x stack ≡ true)
      → (mem x (id ∷ seen) ≡ true) ⊎ (mem x (push_parents read_commit id rest) ≡ true)
  unfolding mem
  visit-keeps seen stack id rest next x (inl s) = inl (or-inr (eq_bytes x id) _ s)
  visit-keeps seen stack id rest next x (inr s) = elim (next.split x s) [
    | inl t ↦ inl (or-inr (eq_bytes x id) _ t)
    | inr (inl t) ↦ inl (or-inl (eq_bytes x id) (mem x seen) (rw t (eq_bytes_refl id)))
    | inr (inr t) ↦ inr ((mem-push_all (readable_parents (read_commit id)) rest x).1 (inr t))
  ]

  -- The parents of the visited ids are visited or on the stack.
  abbrev pub Closed : List ObjectId → List ObjectId → Type 0
  Closed seen stack =
      (x p : ObjectId)
      → mem x seen ≡ true
      → mem p (readable_parents (read_commit x)) ≡ true
      → (mem p seen ≡ true) ⊎ (mem p stack ≡ true)

  pub visit-Closed :
      (seen stack : List ObjectId) (id : ObjectId) (rest : List ObjectId)
      → Next seen stack id rest
      → Closed seen stack
      → Closed (id ∷ seen) (push_parents read_commit id rest)
  unfolding mem
  visit-Closed seen stack id rest next closed x p hx hp =
      elim (or-cases (eq_bytes x id) (mem x seen) hx) [
        | inl same ↦ inr (
            (mem-push_all (readable_parents (read_commit id)) rest p).1
              (inl (rw (sym (eq_bytes→eq x id same)) hp)))
        | inr old ↦ visit-keeps seen stack id rest next p (closed x p old hp)
      ]

  -- With nothing left to visit, the visited ids hold all that they reach.
  pub Closed-Reach :
      (seen stack : List ObjectId)
      → next_unseen seen stack ≡ none
      → Closed seen stack
      → {x y : ObjectId} → mem x seen ≡ true
      → Reach x y
      → mem y seen ≡ true
  Closed-Reach seen stack e closed hx (here a) = hx
  Closed-Reach seen stack e closed {x} hx (link c p r m path) =
      let parent : mem p seen ≡ true = elim (closed x p hx (rw r m)) [
        | inl s ↦ s
        | inr s ↦ next_unseen-none seen stack e p s
      ] in
      Closed-Reach seen stack e closed parent path

  -- A miss leaves a set of visited ids that holds the stack, is closed and lacks `a`.
  search_ancestor_complete :
      (a : ObjectId) (n : ℕ) (seen stack : List ObjectId) (t : Option (ObjectId × List ObjectId))
      → next_unseen seen stack ≡ t
      → Closed seen stack
      → mem a seen ≡ false
      → search_ancestor read_commit a n seen t ≡ ok false
      → (x : ObjectId) → (mem x seen ≡ true) ⊎ (mem x stack ≡ true)
      → ¬ Reach x a
  unfolding search_ancestor
  search_ancestor_complete a n seen stack none e closed lacks h x hx path =
      let first : mem x seen ≡ true = elim hx [
        | inl s ↦ s
        | inr s ↦ next_unseen-none seen stack e x s
      ] in
      let found = Closed-Reach seen stack e closed first path in cc
  search_ancestor_complete a zero seen stack (some (id, rest)) e closed lacks h x hx path = cc
  search_ancestor_complete a (suc n) seen stack (some (id, rest)) e closed lacks h x hx path =
      let next = next_unseen-some seen stack id rest e in
      elim (Bool-cases (eq_bytes id a)) [
        | inl found ↦
            absurd (let k : ◌≡◌ {A = Result Bool} (ok true) (ok false) = rw found at h in cc)
        | inr other ↦
            search_ancestor_complete a n (id ∷ seen) (push_parents read_commit id rest) _ refl
              (visit-Closed seen stack id rest next closed)
              (lacks-visit a id seen (other_way id a other) lacks) (rw other at h) x
              (visit-keeps seen stack id rest next x hx) path
      ]

  pub is_ancestor_sound : (a d : ObjectId) → is_ancestor read_commit a d ≡ ok true → Reach d a
  unfolding is_ancestor mem
  is_ancestor_sound a d h = elim (Bool-cases (eq_bytes a d)) [
    | inl same ↦ rw (eq_bytes→eq a d same) (here d)
    | inr other ↦
        let (x, m, r) =
          search_ancestor_sound a max_walk_commits [] (d ∷ []) _ refl (rw other at h) in
        elim (or-cases (eq_bytes x d) false m) [
          | inl same ↦ rw (sym (eq_bytes→eq x d same)) r
          | inr k ↦ absurd (cc)
        ]
  ]

  is_ancestor_complete : (a d : ObjectId) → is_ancestor read_commit a d ≡ ok false → ¬ Reach d a
  unfolding is_ancestor mem
  is_ancestor_complete a d h = elim (Bool-cases (eq_bytes a d)) [
    | inl same ↦ absurd (let k : ◌≡◌ {A = Result Bool} (ok true) (ok false) = rw same at h in cc)
    | inr other ↦
        search_ancestor_complete a max_walk_commits [] (d ∷ []) _ refl (λ x p hx hp. absurd (cc))
          refl (rw other at h) d (inr (or-inl _ _ (eq_bytes_refl d)))
  ]

  -- Where `is_ancestor` gives an answer, it is whether parent links lead from the descendant to the
  -- ancestor, through the commits that can be read.
  pub is_ancestor_lem :
      (ancestor descendant : ObjectId) (answer : Bool)
      → is_ancestor read_commit ancestor descendant ≡ ok answer
      → (answer ≡ true) ↔ Reach descendant ancestor
  is_ancestor_lem a d true h = (λ e. is_ancestor_sound a d h, λ r. refl)
  is_ancestor_lem a d false h = (λ e. absurd (cc), λ r. absurd (is_ancestor_complete a d h r))
