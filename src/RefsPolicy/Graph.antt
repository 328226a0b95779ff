-- ===== src/RefsPolicy/Graph.antt =====
-- src/net/refs_policy.rs: the walks over the commit graph. The stack is a list with its top in front,
-- a set the list of its members. The fuel of a walk is the number of commits it may still visit, so
-- that running out of it is the error of `MAX_WALK_COMMITS`.
use gyt.Base.{
  ℕ, zero, suc, Bool, true, false, ◌||◌, Option, none, some, List, [], ◌∷◌, if◌then◌else◌, Result,
  ok, err, repo, ◌>>=◌,
}
use gyt.Text.Cuts.{eq_bytes}
use gyt.Hash.{ObjectId}
use gyt.Object.Commit.{Commit}

abbrev pub max_walk_commits : ℕ
max_walk_commits = 1_000_000

-- `set.contains(&id)`
unfoldable pub mem : ObjectId → List ObjectId → Bool
mem id [] = false
mem id (x ∷ xs) = eq_bytes id x || mem id xs

-- `for p in c.parents { stack.push(p); }`
unfoldable pub push_all {ℓ} : {A : Type ℓ} → (ObjectId → A) → List ObjectId → List A → List A
push_all f [] stack = stack
push_all f (p ∷ ps) stack = push_all f ps (f p ∷ stack)

-- Pop until an id comes that was not there before; what is left of the stack comes with it.
unfoldable pub next_unseen : List ObjectId → List ObjectId → Option (ObjectId × List ObjectId)
next_unseen seen [] = none
next_unseen seen (id ∷ stack) =
    let rest = next_unseen seen stack in if mem id seen then rest else some (id, stack)

-- The same where the stack says of an id whether a parent link led to it.
unfoldable pub next_new :
    List ObjectId
    → List ObjectId
    → List (ObjectId × Bool)
    → Option ((ObjectId × Bool) × List (ObjectId × Bool))
next_new excluded seen [] = none
next_new excluded seen ((id, is_parent_step) ∷ stack) =
    let rest = next_new excluded seen stack in
    if mem id excluded || mem id seen then rest else some ((id, is_parent_step), stack)

-- What is pushed for a commit that may be unreadable.
abbrev pub readable_parents : Result Commit → List ObjectId
readable_parents (ok c) = c.parents
readable_parents _ = []

-- One round of the second loop, `next` being the rounds behind it once these parents are pushed. An
-- unreadable commit is an error where a parent link led to it; the seed may be no commit at all.
abbrev pub visit_new :
    ObjectId
    → Bool
    → Result Commit
    → (List ObjectId → Result (List ObjectId))
    → Result (List ObjectId)
visit_new id is_parent_step (ok c) next = do rest ← next c.parents; ok (id ∷ rest)
visit_new id true (err e) next = err (repo "missing or unreadable ancestor")
visit_new id false (err e) next = next []
visit_new id is_parent_step Result.stuck next = Result.stuck

module _ (read_commit : ObjectId → Result Commit) where
  abbrev pub push_parents : ObjectId → List ObjectId → List ObjectId
  push_parents id stack = push_all (λ p. p) (readable_parents (read_commit id)) stack

  -- The loop of `is_ancestor`.
  unfoldable pub search_ancestor :
      ObjectId → ℕ → List ObjectId → Option (ObjectId × List ObjectId) → Result Bool
  search_ancestor ancestor n seen none = ok false
  search_ancestor ancestor zero seen (some (id, stack)) = err (repo "commit graph walk exceeded")
  search_ancestor ancestor (suc n) seen (some (id, stack)) =
      let rest =
        search_ancestor ancestor n (id ∷ seen) (next_unseen (id ∷ seen) (push_parents id stack)) in
      if eq_bytes id ancestor then ok true else rest

  unfoldable pub is_ancestor : ObjectId → ObjectId → Result Bool
  is_ancestor ancestor descendant =
      if eq_bytes ancestor descendant
      then ok true
      else search_ancestor ancestor max_walk_commits [] (next_unseen [] (descendant ∷ []))

  -- The loop over the commits reachable from `old`.
  unfoldable pub exclude :
      ℕ → List ObjectId → Option (ObjectId × List ObjectId) → Result (List ObjectId)
  exclude n excluded none = ok excluded
  exclude zero excluded (some (id, stack)) = err (repo "excluded-commit walk exceeded")
  exclude (suc n) excluded (some (id, stack)) =
      exclude n (id ∷ excluded) (next_unseen (id ∷ excluded) (push_parents id stack))

  unfoldable pub excluded_by : Option ObjectId → Result (List ObjectId)
  excluded_by none = ok []
  excluded_by (some old) = exclude max_walk_commits [] (next_unseen [] (old ∷ []))

  -- The loop over the commits reachable from `new`.
  unfoldable pub collect :
      List ObjectId
      → ℕ
      → List ObjectId
      → Option ((ObjectId × Bool) × List (ObjectId × Bool))
      → Result (List ObjectId)
  collect excluded n seen none = ok []
  collect excluded zero seen (some (top, stack)) = err (repo "new-commit walk exceeded")
  collect excluded (suc n) seen (some ((id, is_parent_step), stack)) =
      let next = λ (parents : List ObjectId).
        collect excluded n (id ∷ seen)
          (next_new excluded (id ∷ seen) (push_all (λ p. (p, true)) parents stack)) in
      visit_new id is_parent_step (read_commit id) next

  unfoldable pub commits_new_since : Option ObjectId → ObjectId → Result (List ObjectId)
  commits_new_since old new = do
    excluded ← excluded_by old
    collect excluded max_walk_commits [] (next_new excluded [] ((new, false) ∷ []))
