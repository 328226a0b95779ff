-- ===== src/Text/Trim.antt =====
-- `str::trim`, `trim_end_matches`, `split` at a byte and `contains` of two bytes.
use gyt.Base.{
  ℕ, zero, suc, ◌≤◌, ◌≡◌, refl, ap, ◌≢◌, Bool, false, ◌&&◌, ◌||◌, List, [], ◌∷◌, ◌++◌, append_assoc,
  append-nil, arith, leb, ◌==◌, if◌then◌else◌, All, All-append,
}
use gyt.Text.Cuts.{Bytes}

-- `s.split(c)`
abbrev pub onto_first : ℕ → List Bytes → List Bytes
onto_first x [] = (x ∷ []) ∷ []
onto_first x (l ∷ ls) = (x ∷ l) ∷ ls

unfoldable pub split : ℕ → Bytes → List Bytes
split c [] = [] ∷ []
split c (x ∷ s) = if x == c then [] ∷ split c s else onto_first x (split c s)

-- `s.contains` of the two bytes.
unfoldable pub contains_pair : ℕ → ℕ → Bytes → Bool
contains_pair a b [] = false
contains_pair a b (x ∷ []) = false
contains_pair a b (x ∷ y ∷ s) = (x == a && y == b) || contains_pair a b (y ∷ s)

-- `s.starts_with(c)` and `s.ends_with(c)`
unfoldable pub starts_with : ℕ → Bytes → Bool
starts_with c [] = false
starts_with c (x ∷ s) = x == c

unfoldable pub ends_with : ℕ → Bytes → Bool
ends_with c [] = false
ends_with c (x ∷ []) = x == c
ends_with c (x ∷ y ∷ s) = ends_with c (y ∷ s)

unfoldable pub reversed : Bytes → Bytes
reversed [] = []
reversed (x ∷ s) = reversed s ++ (x ∷ [])

pub reversed-append : (xs ys : Bytes) → reversed (xs ++ ys) ≡ reversed ys ++ reversed xs
unfolding reversed
reversed-append [] ys = rw append-nil refl
reversed-append (x ∷ xs) ys =
    rw (reversed-append xs ys) (append_assoc (reversed ys) (reversed xs) (x ∷ []))

reversed-line : (s : Bytes) → reversed (s ++ (b'\n' ∷ [])) ≡ b'\n' ∷ reversed s
unfolding reversed
reversed-line s = reversed-append s (b'\n' ∷ [])

pub reversed_twice : (xs : Bytes) → reversed (reversed xs) ≡ xs
unfolding reversed
reversed_twice [] = refl
reversed_twice (x ∷ xs) =
    rw (reversed-append (reversed xs) (x ∷ [])) (ap (λ t. x ∷ t) (reversed_twice xs))

pub All-reversed : (P : ℕ → Type 0) (xs : Bytes) → All P xs → All P (reversed xs)
unfolding reversed
All-reversed P [] h = tt
All-reversed P (x ∷ xs) h = All-append P (reversed xs) (x ∷ []) (All-reversed P xs h.1) (h.0, tt)

abbrev is_ascii_space : ℕ → Bool
is_ascii_space b = (leb 0x09 b && leb b 0x0d) || b == 0x20

abbrev is_space_pair : ℕ → ℕ → Bool
is_space_pair a b = a == 0xc2 && (b == 0x85 || b == 0xa0)

-- U+1680, U+2000 to U+200A, U+2028, U+2029, U+202F, U+205F and U+3000.
abbrev is_space_triple : ℕ → ℕ → ℕ → Bool
is_space_triple a b c =
    (a == 0xe1 && b == 0x9a && c == 0x80)
    || (a == 0xe2
        && b == 0x80
        && ((leb 0x80 c && leb c 0x8a) || c == 0xa8 || c == 0xa9 || c == 0xaf))
    || (a == 0xe2 && b == 0x81 && c == 0x9f)
    || (a == 0xe3 && b == 0x80 && c == 0x80)

-- How many bytes the whitespace character takes that comes first, 0 if none does.
unfoldable pub space_len : Bytes → ℕ
space_len [] = 0
space_len (a ∷ []) = if is_ascii_space a then 1 else 0
space_len (a ∷ b ∷ []) = if is_ascii_space a then 1 else if is_space_pair a b then 2 else 0
space_len (a ∷ b ∷ c ∷ s) =
    if is_ascii_space a
    then 1
    else if is_space_pair a b
    then 2
    else if is_space_triple a b c
    then 3
    else 0

-- The same of a reversed text.
unfoldable pub space_len_back : Bytes → ℕ
space_len_back [] = 0
space_len_back (a ∷ []) = if is_ascii_space a then 1 else 0
space_len_back (a ∷ b ∷ []) = if is_ascii_space a then 1 else if is_space_pair b a then 2 else 0
space_len_back (a ∷ b ∷ c ∷ s) =
    if is_ascii_space a
    then 1
    else if is_space_pair b a
    then 2
    else if is_space_triple c b a
    then 3
    else 0

abbrev skip_or_stop : ℕ → Bytes → (ℕ → Bytes) → Bytes
skip_or_stop zero s next = s
skip_or_stop (suc n) s next = next n

-- Drop whitespace characters at the front; the number counts the bytes left of the current one.
unfoldable pub trim_from : (Bytes → ℕ) → Bytes → ℕ → Bytes
trim_from len [] n = []
trim_from len (a ∷ s) zero = skip_or_stop (len (a ∷ s)) (a ∷ s) (trim_from len s)
trim_from len (a ∷ s) (suc n) = trim_from len s n

-- `s.trim()`
unfoldable pub trim : Bytes → Bytes
trim s = reversed (trim_from space_len_back (reversed (trim_from space_len s 0)) 0)

unfoldable pub drop_line_ends : Bytes → Bytes
drop_line_ends [] = []
drop_line_ends (x ∷ s) = if x == b'\n' || x == b'\r' then drop_line_ends s else x ∷ s

-- `s.trim_end_matches(['\n', '\r'])`
unfoldable pub trim_line_ends : Bytes → Bytes
trim_line_ends s = reversed (drop_line_ends (reversed s))

-- Visible ASCII, which no trimming takes off.
abbrev pub IsVisible : ℕ → Type 0
IsVisible b = (0x21 ≤ b) × (b ≤ 0x7e)

trim_from-visible : (a : ℕ) (s : Bytes) → IsVisible a → trim_from space_len (a ∷ s) 0 ≡ a ∷ s
unfolding trim_from space_len
trim_from-visible a [] h = ground (arith, h)
trim_from-visible a (b ∷ []) h = ground (arith, h)
trim_from-visible a (b ∷ c ∷ s) h = ground (arith, h)

trim_back-visible : (s : Bytes) → All IsVisible s → trim_from space_len_back s 0 ≡ s
unfolding trim_from space_len_back
trim_back-visible [] h = refl
trim_back-visible (a ∷ []) h = ground (arith, h.0)
trim_back-visible (a ∷ b ∷ []) h = ground (arith, h.0)
trim_back-visible (a ∷ b ∷ c ∷ s) h = ground (arith, h.0)

trim_back-line : (s : Bytes) → trim_from space_len_back (b'\n' ∷ s) 0 ≡ trim_from space_len_back s 0
unfolding trim_from space_len_back
trim_back-line [] = refl
trim_back-line (a ∷ []) = refl
trim_back-line (a ∷ b ∷ s) = refl

-- Trimming takes the line feed off a visible text, and nothing else.
pub trim-line : (s : Bytes) → s ≢ [] → All IsVisible s → trim (s ++ (b'\n' ∷ [])) ≡ s
unfolding trim
trim-line [] n h = absurd (n refl)
trim-line (a ∷ s) n h =
    rw
      (
        trim_from-visible a (s ++ (b'\n' ∷ [])) h.0,
        reversed-line (a ∷ s),
        trim_back-line (reversed (a ∷ s)),
        trim_back-visible (reversed (a ∷ s)) (All-reversed IsVisible (a ∷ s) h),
      )
      (reversed_twice (a ∷ s))

pub trim-visible : (s : Bytes) → s ≢ [] → All IsVisible s → trim s ≡ s
unfolding trim
trim-visible [] n h = absurd (n refl)
trim-visible (a ∷ s) n h =
    rw
      (
        trim_from-visible a s h.0,
        trim_back-visible (reversed (a ∷ s)) (All-reversed IsVisible (a ∷ s) h),
      )
      (reversed_twice (a ∷ s))

drop_line_ends-printable : (s : Bytes) → All (λ b. 0x20 ≤ b) s → drop_line_ends s ≡ s
unfolding drop_line_ends
drop_line_ends-printable [] h = refl
drop_line_ends-printable (a ∷ s) h = ground (arith, h.0)

drop_line_ends-line : (s : Bytes) → drop_line_ends (b'\n' ∷ s) ≡ drop_line_ends s
unfolding drop_line_ends
drop_line_ends-line s = refl

-- A text without control bytes loses only its line feed.
pub trim_line_ends-line :
    (s : Bytes) → All (λ b. 0x20 ≤ b) s → trim_line_ends (s ++ (b'\n' ∷ [])) ≡ s
unfolding trim_line_ends
trim_line_ends-line s h =
    rw
      (
        reversed-line s,
        drop_line_ends-line (reversed s),
        drop_line_ends-printable (reversed s) (All-reversed _ s h),
      )
      (reversed_twice s)
