-- ===== src/RefsPolicy/Enough.antt =====
-- src/net/refs_policy.rs: how many commits a walk can visit before it gives up.
use gyt.Base.{
  ℕ, zero, suc, ◌≤◌, ◌<◌, ◌≡◌, ◌↔◌, refl, inl, inr, Bool, true, false, Option, none, some, List, [],
  ◌∷◌, arith, if◌then◌else◌, length, Result, ok, Bool-cases,
}
use gyt.Text.Cuts.{eq_bytes, eq_bytes→eq, eq_bytes_refl}
use gyt.Hash.{ObjectId}
use gyt.Object.Commit.{Commit}
use gyt.RefsPolicy.Graph.{
  max_walk_commits, mem, next_unseen, readable_parents, push_parents, search_ancestor, is_ancestor,
}
use gyt.RefsPolicy.Stack.{next_unseen-some, mem-push_all}
use gyt.RefsPolicy.Reachable.{Reach, here, parent-Reach, Reach-trans, only_seed, is_ancestor_lem}

-- How many of the ids are not visited yet.
unseen : List ObjectId → List ObjectId → ℕ
unseen [] seen = 0
unseen (u ∷ us) seen = if mem u seen then unseen us seen else suc (unseen us seen)

unseen-length : (us seen : List ObjectId) → unseen us seen ≤ length us
unfolding unseen
unseen-length [] seen = omega arith
unseen-length (u ∷ us) seen = ground (arith, unseen-length us seen)

unseen-visit_le : (us seen : List ObjectId) (id : ObjectId) → unseen us (id ∷ seen) ≤ unseen us seen
unfolding unseen mem
unseen-visit_le [] seen id = omega arith
unseen-visit_le (u ∷ us) seen id = ground (arith, unseen-visit_le us seen id)

unseen-visit :
    (us seen : List ObjectId) (id : ObjectId)
    → mem id us ≡ true
    → mem id seen ≡ false
    → unseen us (id ∷ seen) < unseen us seen
unfolding unseen mem
unseen-visit [] seen id h new = absurd (cc)
unseen-visit (u ∷ us) seen id h new = elim (Bool-cases (eq_bytes id u)) [
  | inl same ↦ ground (arith, eq_bytes→eq id u same, eq_bytes_refl u, unseen-visit_le us seen id)
  | inr other ↦ ground (arith, eq_bytes→eq u id, eq_bytes_refl id, unseen-visit us seen id)
]

module _ (read_commit : ObjectId → Result Commit) where
  search_ancestor_ok :
      (a d : ObjectId) (us : List ObjectId)
      → ((x : ObjectId) → Reach read_commit d x → mem x us ≡ true)
      → (n : ℕ) (seen stack : List ObjectId) (t : Option (ObjectId × List ObjectId))
      → next_unseen seen stack ≡ t
      → ((x : ObjectId) → mem x stack ≡ true → Reach read_commit d x)
      → unseen us seen ≤ n
      → (answer : Bool) × (search_ancestor read_commit a n seen t ≡ ok answer)
  unfolding search_ancestor
  search_ancestor_ok a d us all n seen stack none e within fuel = (false, refl)
  search_ancestor_ok a d us all zero seen stack (some (id, rest)) e within fuel =
      let next = next_unseen-some seen stack id rest e in
      absurd (omega (arith, fuel, unseen-visit us seen id (all id (within id next.here)) next.new))
  search_ancestor_ok a d us all (suc n) seen stack (some (id, rest)) e within fuel =
      let next = next_unseen-some seen stack id rest e in
      elim (Bool-cases (eq_bytes id a)) [
        | inl found ↦ (true, rw found refl)
        | inr other ↦
            let (answer, h) =
              search_ancestor_ok a d us all n (id ∷ seen) (push_parents read_commit id rest) _ refl
                (λ x m. elim ((mem-push_all (readable_parents (read_commit id)) rest x).0 m) [
                  | inl parent ↦
                      Reach-trans read_commit (within id next.here)
                        (parent-Reach read_commit id x x parent (here x))
                  | inr below ↦ within x (next.later x below)
                ])
                (omega
                  (arith, fuel, unseen-visit us seen id (all id (within id next.here)) next.new)) in
            (answer, rw other h)
      ]

  -- Where no more than `MAX_WALK_COMMITS` ids can be reached from the descendant, `is_ancestor` gives
  -- an answer, also where some of their commits cannot be read, and the answer says whether the
  -- parent links of the commits that can be read lead from the descendant to the ancestor.
  pub is_ancestor_decides :
      (ancestor descendant : ObjectId) (us : List ObjectId)
      → ((x : ObjectId) → Reach read_commit descendant x → mem x us ≡ true)
      → length us ≤ max_walk_commits
      → (answer : Bool) × (is_ancestor read_commit ancestor descendant ≡ ok answer)
        × ((answer ≡ true) ↔ Reach read_commit descendant ancestor)
  unfolding is_ancestor mem
  is_ancestor_decides a d us all few =
      let (answer, h) = answered in (answer, h, is_ancestor_lem read_commit a d answer h)
    where
      answered : (answer : Bool) × (is_ancestor read_commit a d ≡ ok answer)
      answered = elim (Bool-cases (eq_bytes a d)) [
        | inl same ↦ (true, rw same refl)
        | inr other ↦
            let (answer, h) =
              search_ancestor_ok a d us all max_walk_commits [] (d ∷ []) _ refl
                (λ x m. only_seed read_commit d x x m (here x))
                (omega (arith, few, unseen-length us [])) in
            (answer, rw other h)
      ]
