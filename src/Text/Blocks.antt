-- ===== src/Text/Blocks.antt =====
-- A header of lines, a blank line and a message, as commits and tags are written.
use gyt.Base.{
  ℕ, ◌≡◌, refl, ap, ◌∙◌, ◌≢◌, Option, none, some, List, [], ◌∷◌, ◌++◌, append_assoc, arith, All,
}
use gyt.Text.Cuts.{Bytes, Lacks, split_once_blank}
use gyt.Text.Lines.{
  EndsNot, split_inclusive-line, split_inclusive-last, strip_newline-line, strip_newline-Lacks,
  lines,
}

-- `writeln!` of each line.
unfoldable pub unlines : List Bytes → Bytes
unlines [] = []
unlines (l ∷ ls) = l ++ (b'\n' ∷ unlines ls)

-- The same without the last line feed.
unfoldable pub joined : List Bytes → Bytes
joined [] = []
joined (l ∷ []) = l
joined (l ∷ m ∷ ls) = l ++ (b'\n' ∷ joined (m ∷ ls))

-- A line that `str::lines` gives back as it is: not empty, with no line end in it.
pub record IsLine (l : Bytes) : Type 0 where
  pub nonempty : l ≢ []
  pub one_line : Lacks b'\n' l
  pub no_cr : EndsNot b'\r' l

abbrev onto : Bytes → Option (Bytes × Bytes) → Option (Bytes × Bytes)
onto p none = none
onto p (some (l, r)) = some (p ++ l, r)

split_once_blank-line :
    (l : Bytes) (c : ℕ) (rest : Bytes)
    → Lacks b'\n' l
    → c ≢ b'\n'
    → split_once_blank (l ++ (b'\n' ∷ c ∷ rest))
      ≡ onto (l ++ (b'\n' ∷ [])) (split_once_blank (c ∷ rest))
unfolding split_once_blank
split_once_blank-line [] c rest h n = ground arith
split_once_blank-line (x ∷ []) c rest h n = ground (arith, split_once_blank-line [] c rest tt n)
split_once_blank-line (x ∷ y ∷ l) c rest h n =
    ground (arith, split_once_blank-line (y ∷ l) c rest h.1 n)

split_once_blank-last :
    (l : Bytes) (rest : Bytes)
    → Lacks b'\n' l
    → split_once_blank (l ++ (b'\n' ∷ b'\n' ∷ rest)) ≡ some (l, rest)
unfolding split_once_blank
split_once_blank-last [] rest h = refl
split_once_blank-last (x ∷ []) rest h = ground (arith, split_once_blank-last [] rest tt)
split_once_blank-last (x ∷ y ∷ l) rest h = ground (arith, split_once_blank-last (y ∷ l) rest h.1)

-- The blank line behind the header is the first one.
pub split_once_blank-unlines :
    (l : Bytes) (ls : List Bytes) (message : Bytes)
    → All IsLine (l ∷ ls)
    → split_once_blank (unlines (l ∷ ls) ++ (b'\n' ∷ message)) ≡ some (joined (l ∷ ls), message)
unfolding unlines joined
split_once_blank-unlines l [] message h =
    rw append_assoc (split_once_blank-last l message h.0.one_line)
split_once_blank-unlines l ([] ∷ ls) message h = absurd (h.1.0.nonempty refl)
split_once_blank-unlines l ((c ∷ m) ∷ ls) message h =
    rw (append_assoc l, split_once_blank-line l c _ h.0.one_line h.1.0.one_line.0)
      (ap (onto (l ++ (b'\n' ∷ []))) (split_once_blank-unlines (c ∷ m) ls message h.1)
        ∙ ap (λ t. some (t, message)) (append_assoc l (b'\n' ∷ []) (joined ((c ∷ m) ∷ ls))))

pub lines-joined :
    (l : Bytes) (ls : List Bytes) → All IsLine (l ∷ ls) → lines (joined (l ∷ ls)) ≡ l ∷ ls
unfolding lines joined
lines-joined [] [] h = absurd (h.0.nonempty refl)
lines-joined (x ∷ l) [] h =
    rw (split_inclusive-last b'\n' x l h.0.one_line)
      (ap (λ t. t ∷ []) (strip_newline-Lacks (x ∷ l) h.0.one_line))
lines-joined l (m ∷ ls) h =
    rw (split_inclusive-line b'\n' l (joined (m ∷ ls)) h.0.one_line, strip_newline-line l h.0.no_cr)
      (ap (λ t. l ∷ t) (lines-joined m ls h.1))
