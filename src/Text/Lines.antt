-- ===== src/Text/Lines.antt =====
-- `split_inclusive('\n')`, the removal of one line end, and `str::lines`.
use gyt.Base.{ℕ, ◌≡◌, refl, ap, ◌≢◌, List, [], ◌∷◌, ◌++◌, map, arith, ◌==◌, if◌then◌else◌}
use gyt.Text.Cuts.{Bytes, Lacks}

abbrev onto_first : ℕ → List Bytes → List Bytes
onto_first x [] = (x ∷ []) ∷ []
onto_first x (l ∷ ls) = (x ∷ l) ∷ ls

-- `s.split_inclusive(c)`: each piece but the last ends in `c`, and no piece is empty.
unfoldable pub split_inclusive : ℕ → Bytes → List Bytes
split_inclusive c [] = []
split_inclusive c (x ∷ xs) =
    if x == c then (x ∷ []) ∷ split_inclusive c xs else onto_first x (split_inclusive c xs)

pub split_inclusive-line :
    (c : ℕ) (l rest : Bytes)
    → Lacks c l
    → split_inclusive c (l ++ (c ∷ rest)) ≡ (l ++ (c ∷ [])) ∷ split_inclusive c rest
unfolding split_inclusive
split_inclusive-line c [] rest h = ground arith
split_inclusive-line c (x ∷ l) rest h = ground (arith, split_inclusive-line c l rest h.1)

pub split_inclusive-last :
    (c x : ℕ) (l : Bytes) → Lacks c (x ∷ l) → split_inclusive c (x ∷ l) ≡ (x ∷ l) ∷ []
unfolding split_inclusive
split_inclusive-last c x [] h = ground arith
split_inclusive-last c x (y ∷ l) h = ground (arith, split_inclusive-last c y l h.1)

-- `s.strip_suffix(c).unwrap_or(s)`
unfoldable pub strip_suffix : ℕ → Bytes → Bytes
strip_suffix c [] = []
strip_suffix c (x ∷ []) = if x == c then [] else x ∷ []
strip_suffix c (x ∷ y ∷ s) = x ∷ strip_suffix c (y ∷ s)

pub strip_suffix-append : (c : ℕ) (l : Bytes) → strip_suffix c (l ++ (c ∷ [])) ≡ l
unfolding strip_suffix
strip_suffix-append c [] = ground arith
strip_suffix-append c (x ∷ []) = ground (arith, strip_suffix-append c [])
strip_suffix-append c (x ∷ y ∷ l) = ap (λ t. x ∷ t) (strip_suffix-append c (y ∷ l))

-- The text does not end in `c`.
abbrev pub EndsNot : ℕ → Bytes → Type 0
EndsNot c [] = Unit
EndsNot c (x ∷ []) = x ≢ c
EndsNot c (x ∷ y ∷ s) = EndsNot c (y ∷ s)

pub strip_suffix-EndsNot : (c : ℕ) (l : Bytes) → EndsNot c l → strip_suffix c l ≡ l
unfolding strip_suffix
strip_suffix-EndsNot c [] h = refl
strip_suffix-EndsNot c (x ∷ []) h = ground arith
strip_suffix-EndsNot c (x ∷ y ∷ l) h = ap (λ t. x ∷ t) (strip_suffix-EndsNot c (y ∷ l) h)

-- A line with its end taken off: the line feed, and a carriage return only before a line feed.
unfoldable pub strip_newline : Bytes → Bytes
unfolding strip_suffix
strip_newline [] = []
strip_newline (x ∷ []) = if x == b'\n' then [] else x ∷ []
strip_newline (x ∷ y ∷ []) = if y == b'\n' then strip_suffix b'\r' (x ∷ []) else x ∷ y ∷ []
strip_newline (x ∷ y ∷ z ∷ s) = x ∷ strip_newline (y ∷ z ∷ s)

-- `s.lines()`
unfoldable pub lines : Bytes → List Bytes
unfolding split_inclusive strip_newline
lines s = map strip_newline (split_inclusive b'\n' s)

pub strip_newline-line : (l : Bytes) → EndsNot b'\r' l → strip_newline (l ++ (b'\n' ∷ [])) ≡ l
unfolding strip_newline
strip_newline-line [] h = refl
strip_newline-line (x ∷ []) h = ground arith
strip_newline-line (x ∷ y ∷ []) h = ap (λ t. x ∷ t) (strip_newline-line (y ∷ []) h)
strip_newline-line (x ∷ y ∷ z ∷ l) h = ap (λ t. x ∷ t) (strip_newline-line (y ∷ z ∷ l) h)

pub strip_newline-Lacks : (l : Bytes) → Lacks b'\n' l → strip_newline l ≡ l
unfolding strip_newline
strip_newline-Lacks [] h = refl
strip_newline-Lacks (x ∷ []) h = ground arith
strip_newline-Lacks (x ∷ y ∷ []) h = ground arith
strip_newline-Lacks (x ∷ y ∷ z ∷ l) h = ap (λ t. x ∷ t) (strip_newline-Lacks (y ∷ z ∷ l) h.1)
