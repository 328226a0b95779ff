-- ===== src/Text/Radix.antt =====
-- Unsigned integers as text: `{}` and `{:o}` of `format!`, `str::parse` and `from_str_radix`.
use gyt.Base.{
  ℕ, zero, suc, ◌+◌, ◌-◌, ◌*◌, ◌/◌, ◌%◌, ◌^◌, ◌≤◌, ◌<◌, ◌≡◌, refl, sym, ap, ◌∙◌, ◌&&◌, Option, none,
  some, [], ◌∷◌, ◌++◌, append_assoc, append-nil, arith, ltb, leb, ltb→lt, Bool-cases, inl, inr,
  ◌==◌, if◌then◌else◌, All, All-append, length, length-append,
}
use native.Mathlib.Nat.{pow-zero, pow-suc, div-lt_iff_lt-mul, div-add-mod, mod-lt}
use gyt.Text.Cuts.{Bytes}

-- The digits of `n`, most significant first, at most `f` of them.
unfoldable pub print_radix : ℕ → ℕ → ℕ → Bytes
print_radix r zero n = []
print_radix r (suc f) n =
    let rest = print_radix r f (n / r) in
    if ltb n r then (b'0' + n) ∷ [] else rest ++ ((b'0' + n % r) ∷ [])

-- Each step is checked against the type's largest value, as `checked_mul` and `checked_add` do.
unfoldable pub parse_digits : ℕ → ℕ → ℕ → Bytes → Option ℕ
parse_digits r max acc [] = some acc
parse_digits r max acc (c ∷ cs) =
    let acc' = acc * r + (c - b'0') in
    let rest = parse_digits r max acc' cs in
    if leb b'0' c && ltb (c - b'0') r then (if leb acc' max then rest else none) else none

-- `uN::from_str_radix(s, r)` for r ≤ 10: a leading `+` is accepted, a sign alone is not.
unfoldable pub from_str_radix : ℕ → ℕ → Bytes → Option ℕ
unfolding parse_digits
from_str_radix r max [] = none
from_str_radix r max (c ∷ []) = if c == b'+' then none else parse_digits r max 0 (c ∷ [])
from_str_radix r max (c ∷ d ∷ s) =
    if c == b'+' then parse_digits r max 0 (d ∷ s) else parse_digits r max 0 (c ∷ d ∷ s)

parse_digit :
    (r max acc d : ℕ) (rest : Bytes)
    → d < r
    → r ≤ 10
    → acc * r + d ≤ max
    → parse_digits r max acc ((b'0' + d) ∷ rest) ≡ parse_digits r max (acc * r + d) rest
unfolding parse_digits
parse_digit r max acc d rest hd hr hm =
    let e : b'0' + d - b'0' ≡ d = omega arith in rw e (ground arith)

parse_digits-print_radix :
    (r max f n : ℕ) (rest : Bytes)
    → 2 ≤ r
    → r ≤ 10
    → n < r ^ f
    → n ≤ max
    → parse_digits r max 0 (print_radix r f n ++ rest) ≡ parse_digits r max n rest
unfolding print_radix
parse_digits-print_radix r max zero n rest h2 h10 hn hm =
    let e : n ≡ 0 = omega (arith, pow-zero r) in rw e
parse_digits-print_radix r max (suc f) n rest h2 h10 hn hm = elim (Bool-cases (ltb n r)) [
  | inl small ↦ rw small (
      parse_digit r max 0 n rest (omega (arith, ltb→lt n r)) h10 (omega arith)
      ∙ ap (λ t. parse_digits r max t rest) (omega arith))
  | inr big ↦
      rw (big, append_assoc)
        (parse_digits-print_radix r max f (n / r) _ h2 h10
            ((div-lt_iff_lt-mul (omega arith)).1 (rw pow-suc at hn)) (omega arith)
          ∙ parse_digit r max (n / r) (n % r) rest (mod-lt n (omega arith)) h10 (rw whole hm)
          ∙ ap (λ t. parse_digits r max t rest) whole)
]
  where
    whole : n / r * r + n % r ≡ n
    whole = omega (arith, div-add-mod n r)

-- Every byte is a decimal digit.
abbrev pub AllDigits : Bytes → Type 0
AllDigits = All (λ b. (b'0' ≤ b) × (b ≤ b'9'))

pub print_radix-AllDigits : (r f n : ℕ) → 2 ≤ r → r ≤ 10 → AllDigits (print_radix r f n)
unfolding print_radix
print_radix-AllDigits r zero n h2 h10 = tt
print_radix-AllDigits r (suc f) n h2 h10 = elim (Bool-cases (ltb n r)) [
  | inl small ↦ rw small (omega (arith, ltb→lt n r small))
  | inr big ↦ rw big (
      All-append _ (print_radix r f (n / r)) _ (print_radix-AllDigits r f (n / r) h2 h10)
        (omega (arith, mod-lt n {m = r} (omega arith))))
]

length-print_radix : (r f n : ℕ) → 0 < length (print_radix r (suc f) n)
unfolding print_radix
length-print_radix r f n =
    ground (arith, length-append (print_radix r f (n / r)) ((b'0' + n % r) ∷ []))

from_str_radix-digits :
    (r max : ℕ) (s : Bytes)
    → 0 < length s
    → AllDigits s
    → from_str_radix r max s ≡ parse_digits r max 0 s
unfolding from_str_radix
from_str_radix-digits r max [] h d = absurd (omega arith)
from_str_radix-digits r max (c ∷ []) h d = ground arith
from_str_radix-digits r max (c ∷ x ∷ s) h d = ground arith

-- Parsing what was printed gives the number back.
pub from_str_radix-print_radix :
    (r max f n : ℕ)
    → 2 ≤ r
    → r ≤ 10
    → n < r ^ suc f
    → n ≤ max
    → from_str_radix r max (print_radix r (suc f) n) ≡ some n
from_str_radix-print_radix r max f n h2 h10 hn hm =
    from_str_radix-digits r max _ (length-print_radix r f n)
      (print_radix-AllDigits r (suc f) n h2 h10)
    ∙ ap (parse_digits r max 0) (sym (append-nil _))
    ∙ parse_digits-print_radix r max (suc f) n [] h2 h10 hn hm
    ∙ (unfold parse_digits in refl)
