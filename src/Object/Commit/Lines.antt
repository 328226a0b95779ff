-- ===== src/Object/Commit/Lines.antt =====
-- src/object/commit.rs: the header's lines, read section by section.
use gyt.Base.{
  ◌≤◌, ◌≡◌, refl, sym, ap, ◌∙◌, Option, none, some, List, [], ◌∷◌, ◌++◌, append_assoc, append-nil,
  map, arith, le→ltb_false, All, ok,
}
use mathlib.Core.Path.{ap₂}
use gyt.Text.Cuts.{Bytes, strip_prefix}
use gyt.Hash.{ObjectId, IsObjectId}
use gyt.Hash.RoundTrip.{from_hex-to_hex, length-to_hex}
use gyt.Object.Commit.{
  Section, tree, parent, author, committer, ai, reviewer, signature, rank, Header, parent_line,
  author_line, committer_line, ai_line, reviewer_line, signature_lines, tree_line, advance_section,
  read_tree, read_parent, read_author, read_committer, read_ai, read_reviewer, read_signature,
  read_line, read_lines,
}

-- The section after the lines `xs` of section `s`.
abbrev pub after {ℓ} : {A : Type ℓ} → Section → List A → Section → Section
after from [] s = from
after from (x ∷ xs) s = s

-- A list section from any section before it or its own.
pub rank-after {ℓ} :
    {A : Type ℓ} (from : Section) (xs : List A) (s : Section)
    → rank from ≤ rank s
    → rank (after from xs s) ≤ rank s
rank-after from [] s h = h
rank-after from (x ∷ xs) s h = omega arith

advance :
    (h : Header) (s : Section)
    → rank h.section ≤ rank s
    → advance_section h s ≡ ok (record h { section = s })
unfolding advance_section
advance h s r = rw (le→ltb_false (rank s) (rank h.section) r) refl

after_same {ℓ} : {A : Type ℓ} (xs : List A) (s : Section) → after s xs s ≡ s
after_same [] s = refl
after_same (x ∷ xs) s = refl

-- A section of any number of lines: what reading `xs` from a header `h` makes of it.
record ListSection {ℓ} (A : Type ℓ) : Type (ℓ ⊔ 1) where
  line : A → Bytes
  good : A → Type 0
  section : Section
  put : Header → List A → Header
  one :
      (h : Header) (x : A)
      → rank h.section ≤ rank section
      → good x
      → read_line h (line x) ≡ ok (put h (x ∷ []))
  put_nil : (h : Header) → put h [] ≡ h
  put_cons : (h : Header) (x : A) (xs : List A) → put (put h (x ∷ [])) xs ≡ put h (x ∷ xs)
  at_section : (h : Header) (x : A) → (put h (x ∷ [])).section ≡ section

read_section {ℓ} :
    {A : Type ℓ} (s : ListSection A) (h : Header) (xs : List A) (ls : List Bytes)
    → rank h.section ≤ rank s.section
    → All s.good xs
    → read_lines h (map s.line xs ++ ls) ≡ read_lines (s.put h xs) ls
unfolding read_lines
read_section s h [] ls r g = ap (λ t. read_lines t ls) (sym (s.put_nil h))
read_section s h (x ∷ xs) ls r g = rw (s.one h x r g.0) (
    read_section s (s.put h (x ∷ [])) xs ls (rw s.at_section (omega arith)) g.1
    ∙ ap (λ t. read_lines t ls) (s.put_cons h x xs))

abbrev pub put_parents : Header → List ObjectId → Header
put_parents h xs = record h { section = after h.section xs parent; parents = h.parents ++ xs }

abbrev pub put_authors : Header → List Bytes → Header
put_authors h xs = record h { section = after h.section xs author; authors = h.authors ++ xs }

abbrev pub put_ais : Header → List Bytes → Header
put_ais h xs = record h { section = after h.section xs ai; ai_assists = h.ai_assists ++ xs }

abbrev pub put_reviewers : Header → List Bytes → Header
put_reviewers h xs = record h {
  section = after h.section xs reviewer;
  reviewers = h.reviewers ++ xs;
}

parents_section : ListSection ObjectId
unfolding read_line strip_prefix read_parent
parents_section = record {
  line = parent_line;
  good = IsObjectId;
  section = parent;
  put = put_parents;
  one = λ h x r g. rw (advance h parent r, from_hex-to_hex x g) refl;
  put_nil = λ h. ap (λ t. record h { parents = t }) (append-nil h.parents);
  put_cons = λ h x xs.
      ap₂ (λ t s. record h { parents = t; section = s }) (append_assoc h.parents (x ∷ []) xs)
        (after_same xs parent);
  at_section = λ h x. refl;
}

authors_section : ListSection Bytes
unfolding read_line strip_prefix read_author
authors_section = record {
  line = author_line;
  good = λ x. Unit;
  section = author;
  put = put_authors;
  one = λ h x r g. rw (advance h author r) refl;
  put_nil = λ h. ap (λ t. record h { authors = t }) (append-nil h.authors);
  put_cons = λ h x xs.
      ap₂ (λ t s. record h { authors = t; section = s }) (append_assoc h.authors (x ∷ []) xs)
        (after_same xs author);
  at_section = λ h x. refl;
}

ais_section : ListSection Bytes
unfolding read_line strip_prefix read_ai
ais_section = record {
  line = ai_line;
  good = λ x. Unit;
  section = ai;
  put = put_ais;
  one = λ h x r g. rw (advance h ai r) refl;
  put_nil = λ h. ap (λ t. record h { ai_assists = t }) (append-nil h.ai_assists);
  put_cons = λ h x xs.
      ap₂ (λ t s. record h { ai_assists = t; section = s }) (append_assoc h.ai_assists (x ∷ []) xs)
        (after_same xs ai);
  at_section = λ h x. refl;
}

reviewers_section : ListSection Bytes
unfolding read_line strip_prefix read_reviewer
reviewers_section = record {
  line = reviewer_line;
  good = λ x. Unit;
  section = reviewer;
  put = put_reviewers;
  one = λ h x r g. rw (advance h reviewer r) refl;
  put_nil = λ h. ap (λ t. record h { reviewers = t }) (append-nil h.reviewers);
  put_cons = λ h x xs.
      ap₂ (λ t s. record h { reviewers = t; section = s }) (append_assoc h.reviewers (x ∷ []) xs)
        (after_same xs reviewer);
  at_section = λ h x. refl;
}

no_conditions : (xs : List Bytes) → All (λ x. Unit {0}) xs
no_conditions [] = tt
no_conditions (x ∷ xs) = (tt, no_conditions xs)

pub read_parents :
    (h : Header) (xs : List ObjectId) (ls : List Bytes)
    → rank h.section ≤ 1
    → All IsObjectId xs
    → read_lines h (map parent_line xs ++ ls) ≡ read_lines (put_parents h xs) ls
unfolding parents_section
read_parents h xs ls r g = read_section parents_section h xs ls r g

pub read_authors :
    (h : Header) (xs ls : List Bytes)
    → rank h.section ≤ 2
    → read_lines h (map author_line xs ++ ls) ≡ read_lines (put_authors h xs) ls
unfolding authors_section
read_authors h xs ls r = read_section authors_section h xs ls r (no_conditions xs)

pub read_ais :
    (h : Header) (xs ls : List Bytes)
    → rank h.section ≤ 4
    → read_lines h (map ai_line xs ++ ls) ≡ read_lines (put_ais h xs) ls
unfolding ais_section
read_ais h xs ls r = read_section ais_section h xs ls r (no_conditions xs)

pub read_reviewers :
    (h : Header) (xs ls : List Bytes)
    → rank h.section ≤ 5
    → read_lines h (map reviewer_line xs ++ ls) ≡ read_lines (put_reviewers h xs) ls
unfolding reviewers_section
read_reviewers h xs ls r = read_section reviewers_section h xs ls r (no_conditions xs)

pub read_first :
    (h : Header) (id : ObjectId) (ls : List Bytes)
    → h.tree ≡ none
    → rank h.section ≤ 0
    → IsObjectId id
    → read_lines h (tree_line id ∷ ls) ≡ read_lines (record h { section = tree; tree = some id }) ls
unfolding read_lines read_line strip_prefix read_tree
read_first h id ls n r g =
    rw (advance h tree r, n, length-to_hex id, g.0, from_hex-to_hex id g) refl

pub read_one_committer :
    (h : Header) (c : Bytes) (ls : List Bytes)
    → h.committer ≡ none
    → rank h.section ≤ 3
    → read_lines h (committer_line c ∷ ls)
      ≡ read_lines (record h { section = committer; committer = some c }) ls
unfolding read_lines read_line strip_prefix read_committer
read_one_committer h c ls n r = rw (advance h committer r, n) refl

pub read_signatures :
    (h : Header) (sig : Option Bytes)
    → h.signature ≡ none
    → rank h.section ≤ 6
    → (h' : Header) × (read_lines h (signature_lines sig) ≡ ok h')
      × (h' ≡ record h { section = h'.section; signature = sig })
unfolding read_lines read_line strip_prefix read_signature
read_signatures h none n r = (h, refl, ap (λ t. record h { signature = t }) n)
read_signatures h (some sig) n r = (
  record h { section = signature; signature = some sig },
  rw (advance h signature r, n) refl,
  refl,
)
