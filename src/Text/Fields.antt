-- ===== src/Text/Fields.antt =====
-- Header lines: a keyword and a field. What a field must be for its line to be read back.
use gyt.Base.{
  ℕ, ◌≤◌, ◌<◌, ◌≡◌, ◌≢◌, Bool, true, false, ◌&&◌, List, [], ◌∷◌, ◌++◌, append_assoc, arith, ltb,
  leb, All, All-append,
}
use gyt.Text.Cuts.{Bytes, Lacks}
use gyt.Text.Lines.{EndsNot}
use gyt.Text.Utf8.{IsUtf8, IsUtf8-append, IsUtf8-ascii}
use gyt.Text.Blocks.{IsLine, unlines}

-- A `str` that stands in one line: no line feed in it, no carriage return at its end.
pub record IsField (x : Bytes) : Type 0 where
  pub utf8 : IsUtf8 x
  pub one_line : Lacks b'\n' x
  pub no_cr : EndsNot b'\r' x

abbrev pub IsPrintable : ℕ → Type 0
IsPrintable b = (b' ' ≤ b) × (b < 128)

abbrev are_printable : Bytes → Bool
are_printable [] = true
are_printable (b ∷ s) = (leb b' ' b && ltb b 128) && are_printable s

are_printable→All : (s : Bytes) → are_printable s ≡ true → All IsPrintable s
are_printable→All [] h = tt
are_printable→All (b ∷ s) h = ((ground arith, ground arith), are_printable→All s (ground arith))

printable-ascii : (s : Bytes) → All IsPrintable s → All (λ b. b < 128) s
printable-ascii [] h = tt
printable-ascii (b ∷ s) h = (h.0.1, printable-ascii s h.1)

printable-Lacks : (s : Bytes) → All IsPrintable s → Lacks b'\n' s
printable-Lacks [] h = tt
printable-Lacks (b ∷ s) h = (λ e. absurd (omega (arith, e, h.0.0)), printable-Lacks s h.1)

printable-EndsNot : (s : Bytes) → All IsPrintable s → EndsNot b'\r' s
printable-EndsNot [] h = tt
printable-EndsNot (x ∷ []) h = λ e. absurd (omega (arith, e, h.0.0))
printable-EndsNot (x ∷ y ∷ s) h = printable-EndsNot (y ∷ s) h.1

pub IsPrintable-IsField : (s : Bytes) → All IsPrintable s → IsField s
IsPrintable-IsField s h = record {
  utf8 = IsUtf8-ascii s (printable-ascii s h);
  one_line = printable-Lacks s h;
  no_cr = printable-EndsNot s h;
}

-- For a keyword, where the test computes.
pub keyword-IsField : (s : Bytes) → are_printable s ≡ true → IsField s
keyword-IsField s h = IsPrintable-IsField s (are_printable→All s h)

EndsNot-append : (c : ℕ) (p x : Bytes) → EndsNot c p → EndsNot c x → EndsNot c (p ++ x)
EndsNot-append c [] x hp hx = hx
EndsNot-append c (a ∷ []) [] hp hx = hp
EndsNot-append c (a ∷ []) (y ∷ x) hp hx = hx
EndsNot-append c (a ∷ b ∷ p) x hp hx = EndsNot-append c (b ∷ p) x hp hx

pub IsField-append : (p x : Bytes) → IsField p → IsField x → IsField (p ++ x)
IsField-append p x hp hx = record {
  utf8 = IsUtf8-append p x hp.utf8 hx.utf8;
  one_line = All-append _ p x hp.one_line hx.one_line;
  no_cr = EndsNot-append b'\r' p x hp.no_cr hx.no_cr;
}

abbrev is_keyword : Bytes → Bool
is_keyword [] = false
is_keyword (c ∷ p) = are_printable (c ∷ p)

-- A line of the header that is read back as it was written.
abbrev pub IsHeaderLine : Bytes → Type 0
IsHeaderLine l = (l ≢ []) × IsField l

pub keyword_line : (p x : Bytes) → is_keyword p ≡ true → IsField x → IsHeaderLine (p ++ x)
keyword_line [] x h hx = absurd (cc)
keyword_line (c ∷ p) x h hx = (λ e. cc, IsField-append (c ∷ p) x (keyword-IsField (c ∷ p) h) hx)

pub IsHeaderLine-IsLine : (ls : List Bytes) → All IsHeaderLine ls → All IsLine ls
IsHeaderLine-IsLine [] h = tt
IsHeaderLine-IsLine (l ∷ ls) h = (
  record { nonempty = h.0.0; one_line = h.0.1.one_line; no_cr = h.0.1.no_cr },
  IsHeaderLine-IsLine ls h.1,
)

line_feed-IsUtf8 : (s : Bytes) → IsUtf8 s → IsUtf8 (b'\n' ∷ s)
line_feed-IsUtf8 s h =
    IsUtf8-append (b'\n' ∷ []) s (IsUtf8-ascii (b'\n' ∷ []) ((omega arith), tt)) h

-- The header, the blank line and the message make a `str`.
pub unlines-IsUtf8 :
    (ls : List Bytes) (message : Bytes)
    → All IsHeaderLine ls
    → IsUtf8 message
    → IsUtf8 (unlines ls ++ (b'\n' ∷ message))
unfolding unlines
unlines-IsUtf8 [] message h m = line_feed-IsUtf8 message m
unlines-IsUtf8 (l ∷ ls) message h m =
    rw append_assoc
      (IsUtf8-append l _ h.0.1.utf8 (line_feed-IsUtf8 _ (unlines-IsUtf8 ls message h.1 m)))
