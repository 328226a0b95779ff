-- ===== src/Text/Order.antt =====
-- The lexicographic order of byte slices (`Ord for [u8]`), and the stable `sort_by` on a byte key.
use mathlib.Core.List.{Perm}
use mathlib.Core.List.Perm
use gyt.Base.{
  suc, ◌≡◌, refl, ◌≢◌, sym, Bool, true, false, inl, inr, List, [], ◌∷◌, arith, ltb, ◌==◌,
  if◌then◌else◌, Bool-cases, ==_iff, All, length,
}
use gyt.Text.Cuts.{Bytes}

unfoldable pub lt_bytes : Bytes → Bytes → Bool
lt_bytes [] [] = false
lt_bytes [] (y ∷ ys) = true
lt_bytes (x ∷ xs) [] = false
lt_bytes (x ∷ xs) (y ∷ ys) = if x == y then lt_bytes xs ys else ltb x y

pub lt_bytes_irrefl : (a : Bytes) → lt_bytes a a ≡ false
unfolding lt_bytes
lt_bytes_irrefl [] = refl
lt_bytes_irrefl (x ∷ a) = ground (arith, lt_bytes_irrefl a)

pub lt_bytes_trans :
    (a b c : Bytes) → lt_bytes a b ≡ true → lt_bytes b c ≡ true → lt_bytes a c ≡ true
unfolding lt_bytes
lt_bytes_trans [] [] c h k = cc
lt_bytes_trans [] (y ∷ b) [] h k = cc
lt_bytes_trans [] (y ∷ b) (z ∷ c) h k = refl
lt_bytes_trans (x ∷ a) [] c h k = cc
lt_bytes_trans (x ∷ a) (y ∷ b) [] h k = cc
lt_bytes_trans (x ∷ a) (y ∷ b) (z ∷ c) h k = ground (arith, lt_bytes_trans a b c)

pub lt_bytes_total : (a b : Bytes) → a ≢ b → lt_bytes a b ≡ false → lt_bytes b a ≡ true
unfolding lt_bytes
lt_bytes_total [] [] h k = absurd (h refl)
lt_bytes_total [] (y ∷ b) h k = cc
lt_bytes_total (x ∷ a) [] h k = refl
lt_bytes_total (x ∷ a) (y ∷ b) h k = elim (Bool-cases (x == y)) [
  | inl same ↦
      let e : x ≡ y = (==_iff x y).0 same in ground (arith, lt_bytes_total a b (λ t. h (cc)))
  | inr apart ↦ ground arith
]

pub lt_bytes_asymm : (a b : Bytes) → lt_bytes a b ≡ true → lt_bytes b a ≡ false
lt_bytes_asymm a b h = elim (Bool-cases (lt_bytes b a)) [
  | inl k ↦ cc (lt_bytes_trans a b a h k, lt_bytes_irrefl a)
  | inr k ↦ k
]

module _ {ℓ} {A : Type ℓ} (key : A → Bytes) where
  -- Into a sorted list, before the elements that are not smaller.
  unfoldable pub insert_by : A → List A → List A
  insert_by x [] = x ∷ []
  insert_by x (y ∷ ys) = if lt_bytes (key y) (key x) then y ∷ insert_by x ys else x ∷ y ∷ ys

  unfoldable pub sort_by : List A → List A
  unfolding insert_by
  sort_by [] = []
  sort_by (x ∷ xs) = insert_by x (sort_by xs)

  abbrev pub IsAscending : List A → Type 0
  IsAscending [] = Unit
  IsAscending (x ∷ []) = Unit
  IsAscending (x ∷ y ∷ ys) = (lt_bytes (key x) (key y) ≡ true) × IsAscending (y ∷ ys)

  abbrev pub HasDistinctKeys : List A → Type 0
  HasDistinctKeys [] = Unit
  HasDistinctKeys (x ∷ xs) = All (λ y. key x ≢ key y) xs × HasDistinctKeys xs

  insert_by-All {κ} :
      (P : A → Type κ) (x : A) (ys : List A) → P x → All P ys → All P (insert_by x ys)
  unfolding insert_by
  insert_by-All P x [] hx h = (hx, h)
  insert_by-All P x (y ∷ ys) hx h = elim (Bool-cases (lt_bytes (key y) (key x))) [
    | inl less ↦ rw less (h.0, insert_by-All P x ys hx h.1)
    | inr more ↦ rw more (hx, h)
  ]

  pub sort_by-All {κ} : (P : A → Type κ) (xs : List A) → All P xs → All P (sort_by xs)
  unfolding sort_by
  sort_by-All P [] h = h
  sort_by-All P (x ∷ xs) h = insert_by-All P x (sort_by xs) h.0 (sort_by-All P xs h.1)

  -- An ascending list stays ascending under its own front element.
  front :
      (y : A) (x : A) (ys : List A)
      → lt_bytes (key y) (key x) ≡ true
      → IsAscending (y ∷ ys)
      → IsAscending (insert_by x ys)
      → IsAscending (y ∷ insert_by x ys)
  unfolding insert_by
  front y x [] h s t = (h, tt)
  front y x (z ∷ ys) h s t = elim (Bool-cases (lt_bytes (key z) (key x))) [
    | inl less ↦ rw less (s.0, (rw less at t))
    | inr more ↦ rw more (h, (rw more at t))
  ]

  insert_by-IsAscending :
      (x : A) (ys : List A)
      → All (λ y. key x ≢ key y) ys
      → IsAscending ys
      → IsAscending (insert_by x ys)
  unfolding insert_by
  insert_by-IsAscending x [] d s = tt
  insert_by-IsAscending x (y ∷ ys) d s = elim (Bool-cases (lt_bytes (key y) (key x))) [
    | inl less ↦ rw less (front y x ys less s (insert_by-IsAscending x ys d.1 (rest ys s)))
    | inr more ↦ rw more (lt_bytes_total (key y) (key x) (λ e. d.0 (sym e)) more, s)
  ]
    where
      rest : (zs : List A) → IsAscending (y ∷ zs) → IsAscending zs
      rest [] h = tt
      rest (z ∷ zs) h = h.1

  -- Distinct keys come out strictly ascending.
  pub sort_by-IsAscending : (xs : List A) → HasDistinctKeys xs → IsAscending (sort_by xs)
  unfolding sort_by
  sort_by-IsAscending [] d = tt
  sort_by-IsAscending (x ∷ xs) d =
      insert_by-IsAscending x (sort_by xs) (sort_by-All _ xs d.0) (sort_by-IsAscending xs d.1)

  pub sort_by_ascending : (xs : List A) → IsAscending xs → sort_by xs ≡ xs
  unfolding sort_by
  sort_by_ascending [] h = refl
  sort_by_ascending (x ∷ []) h = unfold insert_by in refl
  sort_by_ascending (x ∷ y ∷ ys) h =
      rw (sort_by_ascending (y ∷ ys) h.1)
        (unfold insert_by in rw (lt_bytes_asymm (key x) (key y) h.0) refl)

  length-insert_by : (x : A) (ys : List A) → length (insert_by x ys) ≡ suc (length ys)
  unfolding insert_by
  length-insert_by x [] = refl
  length-insert_by x (y ∷ ys) = ground (arith, length-insert_by x ys)

  pub length-sort_by : (xs : List A) → length (sort_by xs) ≡ length xs
  unfolding sort_by
  length-sort_by [] = refl
  length-sort_by (x ∷ xs) = omega (arith, length-insert_by x (sort_by xs), length-sort_by xs)

  insert_by-perm : (x : A) (ys : List A) → Perm (insert_by x ys) (x ∷ ys)
  unfolding insert_by
  insert_by-perm x [] = Perm.refl _
  insert_by-perm x (y ∷ ys) = elim (Bool-cases (lt_bytes (key y) (key x))) [
    | inl less ↦ rw less (Perm.trans (Perm.cons y (insert_by-perm x ys)) (Perm.swap _ _ _))
    | inr more ↦ rw more (Perm.refl _)
  ]

  -- Sorting keeps the elements.
  pub sort_by-perm : (xs : List A) → Perm (sort_by xs) xs
  unfolding sort_by
  sort_by-perm [] = Perm.refl []
  sort_by-perm (x ∷ xs) = Perm.trans (insert_by-perm x (sort_by xs)) (Perm.cons x (sort_by-perm xs))
