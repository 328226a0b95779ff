-- ===== src/Object/Commit.antt =====
-- src/object/commit.rs: the codec of commit objects. A `String` is the list of its bytes.
pub mod Lines
pub mod RoundTrip
pub mod Stored
mod Examples
use gyt.Base.{
  ℕ, Bool, true, false, not, Option, none, some, List, [], ◌∷◌, ◌++◌, map, ltb, ◌==◌, if◌then◌else◌,
  length, Result, ok, err, object, ◌>>=◌, ◌>>◌, refuse_if, ok_or,
}
use gyt.Text.Cuts.{Bytes, codes, eq_bytes, strip_prefix, split_once_blank}
use gyt.Text.Lines.{lines}
use gyt.Text.Utf8.{is_utf8}
use gyt.Text.Blocks.{unlines}
use gyt.Hash.{ObjectId, hex_len, from_hex, to_hex}

pub record Commit : Type 0 where
  pub tree : ObjectId
  pub parents : List ObjectId
  pub authors : List Bytes
  pub committer : Bytes
  pub ai_assists : List Bytes
  pub reviewers : List Bytes
  pub signature : Option Bytes
  pub message : Bytes

abbrev pub tree_line : ObjectId → Bytes
tree_line id = codes "tree " ++ to_hex id

abbrev pub parent_line : ObjectId → Bytes
parent_line id = codes "parent " ++ to_hex id

abbrev pub author_line : Bytes → Bytes
author_line a = codes "author " ++ a

abbrev pub committer_line : Bytes → Bytes
committer_line c = codes "committer " ++ c

abbrev pub ai_line : Bytes → Bytes
ai_line a = codes "ai " ++ a

abbrev pub reviewer_line : Bytes → Bytes
reviewer_line r = codes "reviewer " ++ r

abbrev pub signature_lines : Option Bytes → List Bytes
signature_lines none = []
signature_lines (some sig) = (codes "signature " ++ sig) ∷ []

unfoldable pub header_lines : Commit → List Bytes
header_lines c =
    tree_line c.tree
    ∷ (map parent_line c.parents
        ++ (map author_line c.authors
            ++ (committer_line c.committer
                ∷ (map ai_line c.ai_assists
                    ++ (map reviewer_line c.reviewers ++ signature_lines c.signature)))))

-- Each line by `writeln!`, an empty line, the message.
unfoldable pub encode : Commit → Bytes
encode c = unlines (header_lines c) ++ (b'\n' ∷ c.message)

pub data Section : Type 0 where
  tree parent author committer ai reviewer signature : Section

-- The discriminants, by which sections compare.
abbrev pub rank : Section → ℕ
rank tree = 0
rank parent = 1
rank author = 2
rank committer = 3
rank ai = 4
rank reviewer = 5
rank signature = 6

-- The local variables of `decode` while it walks the header.
pub record Header : Type 0 where
  pub section : Section
  pub tree : Option ObjectId
  pub parents : List ObjectId
  pub authors : List Bytes
  pub committer : Option Bytes
  pub ai_assists : List Bytes
  pub reviewers : List Bytes
  pub signature : Option Bytes

abbrev pub start : Header
start = record {
  section = Section.tree;
  tree = none;
  parents = [];
  authors = [];
  committer = none;
  ai_assists = [];
  reviewers = [];
  signature = none;
}

unfoldable pub advance_section : Header → Section → Result Header
advance_section h next =
    if ltb (rank next) (rank h.section)
    then err (object "commit: header out of canonical order")
    else ok (record h { section = next })

-- `o.is_some()`
abbrev pub is_some : Option Bytes → Bool
is_some none = false
is_some (some x) = true

unfoldable pub read_tree : Header → Bytes → Result Header
read_tree h rest = do
  refuse_if (is_some h.tree) (object "commit: multiple tree lines")
  h' ← advance_section h tree
  refuse_if (not (length rest == hex_len)) (object "commit: bad tree hash length")
  id ← from_hex rest
  ok (record h' { tree = some id })

unfoldable pub read_parent : Header → Bytes → Result Header
read_parent h rest = do
  h' ← advance_section h parent
  id ← from_hex rest
  ok (record h' { parents = h'.parents ++ (id ∷ []) })

unfoldable pub read_author : Header → Bytes → Result Header
read_author h rest = do
  h' ← advance_section h author
  ok (record h' { authors = h'.authors ++ (rest ∷ []) })

unfoldable pub read_committer : Header → Bytes → Result Header
read_committer h rest = do
  refuse_if (is_some h.committer) (object "commit: multiple committer lines")
  h' ← advance_section h committer
  ok (record h' { committer = some rest })

unfoldable pub read_ai : Header → Bytes → Result Header
read_ai h rest = do
  h' ← advance_section h ai
  ok (record h' { ai_assists = h'.ai_assists ++ (rest ∷ []) })

unfoldable pub read_reviewer : Header → Bytes → Result Header
read_reviewer h rest = do
  h' ← advance_section h reviewer
  ok (record h' { reviewers = h'.reviewers ++ (rest ∷ []) })

unfoldable pub read_signature : Header → Bytes → Result Header
read_signature h rest = do
  refuse_if (is_some h.signature) (object "commit: multiple signature lines")
  h' ← advance_section h signature
  ok (record h' { signature = some rest })

-- The chain of `if let Some(rest) = line.strip_prefix(…)`.
abbrev or_else {ℓ} : {A : Type ℓ} → Option Bytes → (Bytes → A) → A → A
or_else (some rest) f other = f rest
or_else none f other = other

unfoldable pub read_line : Header → Bytes → Result Header
read_line h line = or_else (strip_prefix line (codes "tree ")) (read_tree h) (
    or_else (strip_prefix line (codes "parent ")) (read_parent h) (
      or_else (strip_prefix line (codes "author ")) (read_author h) (
        or_else (strip_prefix line (codes "committer ")) (read_committer h) (
          or_else (strip_prefix line (codes "ai ")) (read_ai h) (
            or_else (strip_prefix line (codes "reviewer ")) (read_reviewer h) (
              or_else (strip_prefix line (codes "signature ")) (read_signature h)
                (err (object "commit: unknown line"))))))))

unfoldable pub read_lines : Header → List Bytes → Result Header
read_lines h [] = ok h
read_lines h (line ∷ ls) = do h' ← read_line h line; read_lines h' ls

-- `is_empty` of the authors.
abbrev pub is_empty : List Bytes → Bool
is_empty [] = true
is_empty (a ∷ rest) = false

unfoldable pub decode : Bytes → Result Commit
decode payload = do
  refuse_if (not (is_utf8 payload)) (object "commit: non-utf8")
  (header, message) ←
      ok_or (split_once_blank payload) (object "commit: missing blank line before message")
  h ← read_lines start (lines header)
  refuse_if (is_empty h.authors) (object "commit: missing author")
  tree_id ← ok_or h.tree (object "commit: missing tree")
  committed_by ← ok_or h.committer (object "commit: missing committer")
  let commit : Commit = record {
    tree = tree_id;
    parents = h.parents;
    authors = h.authors;
    committer = committed_by;
    ai_assists = h.ai_assists;
    reviewers = h.reviewers;
    signature = h.signature;
    message = message;
  }
  refuse_if (not (eq_bytes (encode commit) payload)) (object "commit: non-canonical encoding")
  ok commit
