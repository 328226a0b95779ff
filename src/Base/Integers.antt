-- ===== src/Base/Integers.antt =====
-- The signed machine integers, as integers over the native numbers.
use Prim.Native.Nat.{ℕ}
use mathlib.Core.Path.{◌≡◌, refl, ap}
use mathlib.Core.Bool.{Bool, true, false}
use gyt.Base.Tests.{ltb, ◌==◌, ==_iff}

-- `negsuc n` is -1 - n.
pub data ℤ : Type 0 where
  pos negsuc : ℕ → ℤ

abbrev pub lt_int : ℤ → ℤ → Bool
lt_int (pos a) (pos b) = ltb a b
lt_int (pos a) (negsuc b) = false
lt_int (negsuc a) (pos b) = true
lt_int (negsuc a) (negsuc b) = ltb b a

abbrev pub eq_int : ℤ → ℤ → Bool
eq_int (pos a) (pos b) = a == b
eq_int (pos a) (negsuc b) = false
eq_int (negsuc a) (pos b) = false
eq_int (negsuc a) (negsuc b) = a == b

pub eq_int→eq : (a b : ℤ) → eq_int a b ≡ true → a ≡ b
eq_int→eq (pos a) (pos b) h = ap pos ((==_iff a b).0 h)
eq_int→eq (pos a) (negsuc b) h = cc
eq_int→eq (negsuc a) (pos b) h = cc
eq_int→eq (negsuc a) (negsuc b) h = ap negsuc ((==_iff a b).0 h)

pub eq_int_refl : (a : ℤ) → eq_int a a ≡ true
eq_int_refl (pos a) = (==_iff a a).1 refl
eq_int_refl (negsuc a) = (==_iff a a).1 refl
