-- ===== src/Text/Cuts.antt =====
-- Equality of byte strings, and cuts at a prefix, at a byte and at a blank line.
use Prim.Native.Char.{code}
use Prim.Native.String
use gyt.Base.{
  ℕ, ◌<◌, ◌≡◌, refl, ap, ◌≢◌, ◌↔◌, Bool, true, false, ◌&&◌, Option, none, some, List, [], ◌∷◌, ◌++◌,
  arith, ◌==◌, if◌then◌else◌, All,
}

abbrev pub Bytes : Type 0
Bytes = List ℕ

abbrev pub IsByte : ℕ → Type 0
IsByte b = b < 256

-- The bytes of an ASCII literal.
abbrev pub codes : String.String → Bytes
codes String.[] = []
codes (String.◌∷◌ c s) = code c ∷ codes s

unfoldable pub eq_bytes : Bytes → Bytes → Bool
eq_bytes [] [] = true
eq_bytes [] (y ∷ ys) = false
eq_bytes (x ∷ xs) [] = false
eq_bytes (x ∷ xs) (y ∷ ys) = x == y && eq_bytes xs ys

pub eq_bytes→eq : (xs ys : Bytes) → eq_bytes xs ys ≡ true → xs ≡ ys
unfolding eq_bytes
eq_bytes→eq [] [] h = refl
eq_bytes→eq [] (y ∷ ys) h = cc
eq_bytes→eq (x ∷ xs) [] h = cc
eq_bytes→eq (x ∷ xs) (y ∷ ys) h = ground (arith, eq_bytes→eq xs ys)

pub eq_bytes_refl : (xs : Bytes) → eq_bytes xs xs ≡ true
unfolding eq_bytes
eq_bytes_refl [] = refl
eq_bytes_refl (x ∷ xs) = ground (arith, eq_bytes_refl xs)

pub eq_bytes_iff : (xs ys : Bytes) → (eq_bytes xs ys ≡ true) ↔ (xs ≡ ys)
eq_bytes_iff xs ys = (eq_bytes→eq xs ys, λ e. ground (arith, eq_bytes_refl ys, ap (eq_bytes xs) e))

-- `s.strip_prefix(p)`
unfoldable pub strip_prefix : Bytes → Bytes → Option Bytes
strip_prefix s [] = some s
strip_prefix [] (p ∷ ps) = none
strip_prefix (c ∷ s) (p ∷ ps) = if c == p then strip_prefix s ps else none

pub strip_prefix-append : (p s : Bytes) → strip_prefix (p ++ s) p ≡ some s
unfolding strip_prefix
strip_prefix-append [] s = refl
strip_prefix-append (c ∷ p) s = ground (arith, strip_prefix-append p s)

pub strip_prefix-eq-some : (s p r : Bytes) → strip_prefix s p ≡ some r → s ≡ p ++ r
unfolding strip_prefix
strip_prefix-eq-some s [] r h = cc
strip_prefix-eq-some [] (p ∷ ps) r h = cc
strip_prefix-eq-some (c ∷ s) (p ∷ ps) r h = ground (arith, strip_prefix-eq-some s ps r)

-- No byte of the text is `c`.
abbrev pub Lacks : ℕ → Bytes → Type 0
Lacks c = All (λ b. b ≢ c)

abbrev before : ℕ → Option (Bytes × Bytes) → Option (Bytes × Bytes)
before x none = none
before x (some (l, r)) = some (x ∷ l, r)

-- `s.split_once(c)`; also `position` of `c`, as the bytes up to it and those behind it.
unfoldable pub split_once : ℕ → Bytes → Option (Bytes × Bytes)
split_once c [] = none
split_once c (x ∷ xs) = if x == c then some ([], xs) else before x (split_once c xs)

pub split_once-append :
    (c : ℕ) (l r : Bytes) → Lacks c l → split_once c (l ++ (c ∷ r)) ≡ some (l, r)
unfolding split_once
split_once-append c [] r h = ground arith
split_once-append c (x ∷ l) r h = ground (arith, split_once-append c l r h.1)

pub split_once-eq-some :
    (c : ℕ) (s l r : Bytes) → split_once c s ≡ some (l, r) → (s ≡ l ++ (c ∷ r)) × Lacks c l
unfolding split_once
split_once-eq-some c [] l r h = cc
split_once-eq-some c (x ∷ xs) [] r h = ground arith
split_once-eq-some c (x ∷ xs) (y ∷ l) r h = ground (arith, split_once-eq-some c xs l r)

unfoldable pub split_once_blank : Bytes → Option (Bytes × Bytes)
split_once_blank [] = none
split_once_blank (x ∷ []) = none
split_once_blank (x ∷ y ∷ s) =
    if x == b'\n' && y == b'\n' then some ([], s) else before x (split_once_blank (y ∷ s))

-- No line feed follows a line feed, and none comes first when `open` says that one stands before.
abbrev pub LacksBlank : Bool → Bytes → Type 0
LacksBlank at_start [] = Unit
LacksBlank true (x ∷ s) = (x ≢ b'\n') × LacksBlank (x == b'\n') s
LacksBlank false (x ∷ s) = LacksBlank (x == b'\n') s

pub split_once_blank-eq-some :
    (s l r : Bytes) → split_once_blank s ≡ some (l, r) → s ≡ l ++ (b'\n' ∷ b'\n' ∷ r)
unfolding split_once_blank
split_once_blank-eq-some [] l r h = cc
split_once_blank-eq-some (x ∷ []) l r h = cc
split_once_blank-eq-some (x ∷ y ∷ s) [] r h = ground arith
split_once_blank-eq-some (x ∷ y ∷ s) (z ∷ l) r h =
    ground (arith, split_once_blank-eq-some (y ∷ s) l r)
