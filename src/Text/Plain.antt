-- ===== src/Text/Plain.antt =====
-- Texts of ASCII characters from `0` on, such as numbers, digits and keywords: they hold no
-- separator and are valid UTF-8.
use gyt.Base.{ℕ, ◌≤◌, ◌<◌, [], ◌∷◌, arith, All}
use gyt.Text.Cuts.{Bytes, Lacks}
use gyt.Text.Utf8.{IsUtf8, IsUtf8-ascii}
use gyt.Text.Radix.{AllDigits, print_radix, print_radix-AllDigits}

abbrev pub IsPlain : ℕ → Type 0
IsPlain b = (b'0' ≤ b) × (b < 128)

pub AllDigits-IsPlain : (s : Bytes) → AllDigits s → All IsPlain s
AllDigits-IsPlain [] h = tt
AllDigits-IsPlain (b ∷ s) h = ((h.0.0, omega (arith, h.0.1)), AllDigits-IsPlain s h.1)

pub print_radix-IsPlain : (r f n : ℕ) → 2 ≤ r → r ≤ 10 → All IsPlain (print_radix r f n)
print_radix-IsPlain r f n h2 h10 = AllDigits-IsPlain _ (print_radix-AllDigits r f n h2 h10)

pub IsPlain-Lacks : (c : ℕ) (s : Bytes) → c < b'0' → All IsPlain s → Lacks c s
IsPlain-Lacks c [] hc h = tt
IsPlain-Lacks c (b ∷ s) hc h = (λ e. absurd (omega (arith, e, h.0.0)), IsPlain-Lacks c s hc h.1)

pub IsPlain-ascii : (s : Bytes) → All IsPlain s → All (λ b. b < 128) s
IsPlain-ascii [] h = tt
IsPlain-ascii (b ∷ s) h = (h.0.1, IsPlain-ascii s h.1)

pub IsPlain-IsUtf8 : (s : Bytes) → All IsPlain s → IsUtf8 s
IsPlain-IsUtf8 s h = IsUtf8-ascii s (IsPlain-ascii s h)
