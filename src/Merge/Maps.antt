-- ===== src/Merge/Maps.antt =====
-- `BTreeMap` and `BTreeSet` over an order of the paths: lists that `insert` keeps in order.
use gyt.Base.{
  ◌≡◌, inl, inr, refl, sym, Bool, true, false, not, ◌&&◌, ◌||◌, Option, none, some, List, [], ◌∷◌,
  ◌++◌, map, if◌then◌else◌, Bool-cases,
}

-- `Ord` of the paths: a strict order in which only equal paths are incomparable.
pub record PathOrd (PathLike : Type 0) : Type 0 where
  pub lt : PathLike → PathLike → Bool
  pub irrefl : (a : PathLike) → lt a a ≡ false
  pub total : (a b : PathLike) → lt a b ≡ false → lt b a ≡ false → a ≡ b

abbrev pub keys {ℓ} : {PathLike : Type 0} {V : Type ℓ} → List (PathLike × V) → List PathLike
keys m = map (λ e. e.0) m

or_swap : (a b c : Bool) → (a || (b || c)) ≡ (b || (a || c))
or_swap true true c = refl
or_swap true false c = refl
or_swap false b c = refl

or_all : (a b c : Bool) → (a || (b || c)) ≡ ((b || a) || c)
or_all true true c = refl
or_all true false c = refl
or_all false true c = refl
or_all false false c = refl

or_assoc : (a b c : Bool) → (a || (b || c)) ≡ ((a || b) || c)
or_assoc true b c = refl
or_assoc false b c = refl

or_twice : (a b : Bool) → (a || (a || b)) ≡ (a || b)
or_twice true b = refl
or_twice false b = refl

module _ {PathLike : Type 0} (order : PathOrd PathLike) where
  abbrev pub same : PathLike → PathLike → Bool
  same a b = not (order.lt a b) && not (order.lt b a)

  pub same→eq : (a b : PathLike) → same a b ≡ true → a ≡ b
  same→eq a b h = elim (Bool-cases (order.lt a b)) [
    | inl less ↦ absurd (let k : false ≡ true = rw less at h in cc)
    | inr first ↦ elim (Bool-cases (order.lt b a)) [
      | inl less ↦ absurd (let k : false ≡ true = rw (first, less) at h in cc)
      | inr second ↦ order.total a b first second
    ]
  ]

  swap_tests :
      {A : Type 0} (p k k' : PathLike)
      → same k k' ≡ false
      → (x y z : A)
      → (if same p k' then y else (if same p k then x else z))
        ≡ (if same p k then x else (if same p k' then y else z))
  swap_tests p k k' other x y z = elim (Bool-cases (same p k)) [
    | inl here ↦ rw (here, same→eq p k here, other) refl
    | inr there ↦ rw there refl
  ]

  module _ {V : Type 0} where
    unfoldable pub get : PathLike → List (PathLike × V) → Option V
    get p [] = none
    get p ((k, v) ∷ m) = let rest = get p m in if same p k then some v else rest

    unfoldable pub insert : PathLike → V → List (PathLike × V) → List (PathLike × V)
    insert k v [] = (k, v) ∷ []
    insert k v ((k', v') ∷ m) =
        let rest = insert k v m in
        if same k k'
        then (k, v) ∷ m
        else if order.lt k k'
        then (k, v) ∷ (k', v') ∷ m
        else (k', v') ∷ rest

    pub get-insert :
        (p k : PathLike) (v : V) (m : List (PathLike × V))
        → get p (insert k v m) ≡ (if same p k then some v else get p m)
    unfolding get insert
    get-insert p k v [] = refl
    get-insert p k v ((k', v') ∷ m) = elim (Bool-cases (same k k')) [
      | inl it ↦ elim (Bool-cases (same p k)) [
        | inl here ↦ rw (it, here) refl
        | inr there ↦ rw (it, there, sym (same→eq k k' it), there) refl
      ]
      | inr other ↦ elim (Bool-cases (order.lt k k')) [
        | inl less ↦ rw (other, less) refl
        | inr more ↦
            rw (other, more)
              (rw (get-insert p k v m) (swap_tests p k k' other (some v) (some v') (get p m)))
      ]
    ]

  -- `BTreeSet::insert`
  unfoldable pub insert_path : PathLike → List PathLike → List PathLike
  insert_path p [] = p ∷ []
  insert_path p (q ∷ s) =
      let rest = insert_path p s in
      if same p q then q ∷ s else if order.lt p q then p ∷ q ∷ s else q ∷ rest

  unfoldable pub insert_all : List PathLike → List PathLike → List PathLike
  insert_all s [] = s
  insert_all s (p ∷ ps) = insert_all (insert_path p s) ps

  -- `contains`
  unfoldable pub has : PathLike → List PathLike → Bool
  has p [] = false
  has p (q ∷ s) = same p q || has p s

  has-insert_path :
      (p q : PathLike) (s : List PathLike) → has p (insert_path q s) ≡ (same p q || has p s)
  unfolding insert_path has
  has-insert_path p q [] = refl
  has-insert_path p q (x ∷ s) = elim (Bool-cases (same q x)) [
    | inl it ↦ rw (it, same→eq q x it) (sym (or_twice (same p x) (has p s)))
    | inr other ↦ elim (Bool-cases (order.lt q x)) [
      | inl less ↦ rw (other, less) refl
      | inr more ↦ rw (other, more, has-insert_path p q s) (or_swap (same p x) (same p q) (has p s))
    ]
  ]

  pub has-insert_all :
      (p : PathLike) (ps s : List PathLike) → has p (insert_all s ps) ≡ (has p ps || has p s)
  unfolding insert_all has
  has-insert_all p [] s = refl
  has-insert_all p (q ∷ ps) s =
      rw (has-insert_all p ps (insert_path q s), has-insert_path p q s)
        (or_all (has p ps) (same p q) (has p s))

  -- A path that is no key has no value.
  pub get-keys :
      {V : Type 0} (p : PathLike) (m : List (PathLike × V))
      → has p (keys m) ≡ false
      → get p m ≡ none
  unfolding get has
  get-keys p [] h = refl
  get-keys p ((k, v) ∷ m) h = elim (Bool-cases (same p k)) [
    | inl here ↦ absurd (let f : true ≡ false = rw here at h in cc)
    | inr there ↦ rw there (get-keys p m (rw there at h))
  ]

  pub has_append :
      (p : PathLike) (xs ys : List PathLike) → has p (xs ++ ys) ≡ (has p xs || has p ys)
  unfolding has
  has_append p [] ys = refl
  has_append p (x ∷ xs) ys = rw (has_append p xs ys) (or_assoc (same p x) (has p xs) (has p ys))
