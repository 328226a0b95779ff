-- ===== src/RefsPolicy/NextNew.antt =====
-- src/net/refs_policy.rs: the stack of the walk that lists the new commits.
use gyt.Base.{
  ◌≡◌, refl, sym, ◌↔◌, ◌⊎◌, inl, inr, Bool, true, false, ◌||◌, Option, none, some, List, [], ◌∷◌,
  map, Bool-cases,
}
use gyt.Text.Cuts.{eq_bytes, eq_bytes→eq, eq_bytes_refl}
use gyt.Hash.{ObjectId}
use gyt.RefsPolicy.Graph.{mem, push_all, next_new}
use gyt.RefsPolicy.Stack.{Any, or-cases, or-inl, or-inr, mem-push_all}

abbrev pub ids : List (ObjectId × Bool) → List ObjectId
ids = map (λ (e : ObjectId × Bool). e.0)

ids-push_all :
    (ps : List ObjectId) (stack : List (ObjectId × Bool))
    → ids (push_all (λ p. (p, true)) ps stack) ≡ push_all (λ p. p) ps (ids stack)
unfolding push_all
ids-push_all [] stack = refl
ids-push_all (p ∷ ps) stack = ids-push_all ps ((p, true) ∷ stack)

pub pushed :
    (ps : List ObjectId) (rest : List (ObjectId × Bool)) (x : ObjectId)
    → (mem x (ids (push_all (λ p. (p, true)) ps rest)) ≡ true)
      ↔ ((mem x ps ≡ true) ⊎ (mem x (ids rest) ≡ true))
pushed ps rest x = rw (ids-push_all ps rest) (mem-push_all ps (ids rest) x)

-- `x` is on the stack as the seed of the walk.
abbrev pub IsSeed : ObjectId → List (ObjectId × Bool) → Type 0
IsSeed x = Any (λ (e : ObjectId × Bool). (e.0 ≡ x) × (e.1 ≡ false))

pub push_all-IsSeed :
    (ps : List ObjectId) (stack : List (ObjectId × Bool)) (x : ObjectId)
    → IsSeed x (push_all (λ p. (p, true)) ps stack)
    → IsSeed x stack
unfolding push_all
push_all-IsSeed [] stack x h = h
push_all-IsSeed (p ∷ ps) stack x h = elim (push_all-IsSeed ps ((p, true) ∷ stack) x h) [
  | inl (e, k) ↦ absurd (cc)
  | inr k ↦ k
]

-- What the next commit to visit and the rest of the stack say of the whole stack.
pub record NextNew (excluded seen : List ObjectId) (stack : List (ObjectId × Bool)) (id : ObjectId)
    (is_parent_step : Bool) (rest : List (ObjectId × Bool)) : Type 0 where
  pub included : mem id excluded ≡ false
  pub here : mem id (ids stack) ≡ true
  pub seed : is_parent_step ≡ false → IsSeed id stack
  pub later : (x : ObjectId) → mem x (ids rest) ≡ true → mem x (ids stack) ≡ true
  pub seeds : (x : ObjectId) → IsSeed x rest → IsSeed x stack
  pub split :
      (x : ObjectId)
      → mem x (ids stack) ≡ true
      → (mem x excluded ≡ true) ⊎ (mem x seen ≡ true) ⊎ (x ≡ id) ⊎ (mem x (ids rest) ≡ true)

or-false : (a b : Bool) → (a || b) ≡ false → a ≡ false
or-false true b h = h
or-false false b h = refl

NextNew-top :
    (excluded seen : List ObjectId) (x : ObjectId) (step : Bool) (stack : List (ObjectId × Bool))
    → (mem x excluded || mem x seen) ≡ false
    → NextNew excluded seen ((x, step) ∷ stack) x step stack
unfolding mem
NextNew-top excluded seen x step stack fresh = record {
  included = or-false _ _ fresh;
  here = or-inl _ _ (eq_bytes_refl x);
  seed = λ e. inl (refl, e);
  later = λ y k. or-inr (eq_bytes y x) _ k;
  seeds = λ y k. inr k;
  split = λ y k. elim (or-cases (eq_bytes y x) _ k) [
    | inl same ↦ inr (inr (inl (eq_bytes→eq y x same)))
    | inr below ↦ inr (inr (inr below))
  ];
}

old-split :
    (excluded seen : List ObjectId) (x y : ObjectId)
    → (mem x excluded || mem x seen) ≡ true
    → eq_bytes y x ≡ true
    → (mem y excluded ≡ true) ⊎ (mem y seen ≡ true)
old-split excluded seen x y old same =
    rw (eq_bytes→eq y x same) (or-cases (mem x excluded) (mem x seen) old)

pub next_new-some :
    (excluded seen : List ObjectId) (stack : List (ObjectId × Bool)) (id : ObjectId) (step : Bool)
    (rest : List (ObjectId × Bool))
    → next_new excluded seen stack ≡ some ((id, step), rest)
    → NextNew excluded seen stack id step rest
unfolding next_new mem
next_new-some excluded seen [] id step rest h = absurd (cc)
next_new-some excluded seen ((x, s) ∷ stack) id step rest h =
    elim (Bool-cases (mem x excluded || mem x seen)) [
      | inl old ↦
          let n = next_new-some excluded seen stack id step rest (rw old at h) in
          record {
            included = n.included;
            here = or-inr (eq_bytes id x) _ n.here;
            seed = λ e. inr (n.seed e);
            later = λ y k. or-inr (eq_bytes y x) _ (n.later y k);
            seeds = λ y k. inr (n.seeds y k);
            split = λ y k. elim (or-cases (eq_bytes y x) _ k) [
              | inl same ↦ elim (old-split excluded seen x y old same) [
                | inl m ↦ inl m
                | inr m ↦ inr (inl m)
              ]
              | inr below ↦ n.split y below
            ];
          }
      | inr fresh ↦
          let e : ◌≡◌ {A = Option ((ObjectId × Bool) × List (ObjectId × Bool))}
              (some ((x, s), stack)) (some ((id, step), rest)) =
            rw fresh at h in
          let top : x ≡ id = cc in
          let way : s ≡ step = cc in
          let below : stack ≡ rest = cc in
          rw (sym top, sym way, sym below) (NextNew-top excluded seen x s stack fresh)
    ]

pub next_new-none :
    (excluded seen : List ObjectId) (stack : List (ObjectId × Bool))
    → next_new excluded seen stack ≡ none
    → (x : ObjectId) → mem x (ids stack) ≡ true
    → (mem x excluded ≡ true) ⊎ (mem x seen ≡ true)
unfolding next_new mem
next_new-none excluded seen [] h x k = absurd (cc)
next_new-none excluded seen ((y, s) ∷ stack) h x k =
    elim (Bool-cases (mem y excluded || mem y seen)) [
      | inl old ↦ elim (or-cases (eq_bytes x y) _ k) [
        | inl same ↦ old-split excluded seen y x old same
        | inr below ↦ next_new-none excluded seen stack (rw old at h) x below
      ]
      | inr fresh ↦ absurd (
          let e : ◌≡◌ {A = Option ((ObjectId × Bool) × List (ObjectId × Bool))}
              (some ((y, s), stack)) none =
            rw fresh at h in
          cc)
    ]
