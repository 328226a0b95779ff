-- ===== src/Object/Commit/RoundTrip.antt =====
-- src/object/commit.rs: `decode` reads back what `encode` wrote, and accepts nothing else.
use gyt.Base.{
  ◌≡◌, refl, sym, ap, ◌∙◌, true, false, not, Option, none, some, List, [], ◌∷◌, map, arith, All,
  All-append, ok, object, ◌>>◌, refuse_if, after_ok, after_some, after_test, not_false→true,
}
use gyt.Text.Cuts.{Bytes, codes, eq_bytes, eq_bytes_refl, eq_bytes→eq, split_once_blank}
use gyt.Text.Lines.{lines}
use gyt.Text.Utf8.{IsUtf8, is_utf8, IsUtf8→is_utf8}
use gyt.Text.Blocks.{joined, split_once_blank-unlines, lines-joined}
use gyt.Text.Fields.{
  IsField, IsPrintable, IsPrintable-IsField, IsHeaderLine, keyword_line, IsHeaderLine-IsLine,
  unlines-IsUtf8,
}
use gyt.Hash.{ObjectId, IsObjectId, to_hex}
use gyt.Hash.RoundTrip.{IsHex, to_hex-IsHex}
use gyt.Object.Commit.{
  Commit, Section, Header, start, header_lines, parent_line, author_line, ai_line, reviewer_line,
  signature_lines, tree_line, is_empty, read_lines, encode, decode,
}
use gyt.Object.Commit.Lines.{
  put_parents, put_authors, put_ais, put_reviewers, rank-after, read_first, read_parents,
  read_authors, read_one_committer, read_ais, read_reviewers, read_signatures,
}

-- A commit that its encoding determines: each text stands in one line, some author is named.
pub record IsWritable (c : Commit) : Type 0 where
  pub tree : IsObjectId c.tree
  pub parents : All IsObjectId c.parents
  pub author : is_empty c.authors ≡ false
  pub authors : All IsField c.authors
  pub committer : IsField c.committer
  pub ai_assists : All IsField c.ai_assists
  pub reviewers : All IsField c.reviewers
  pub signature : (s : Bytes) → c.signature ≡ some s → IsField s
  pub message : IsUtf8 c.message

IsHex-IsPrintable : (s : Bytes) → All IsHex s → All IsPrintable s
IsHex-IsPrintable [] h = tt
IsHex-IsPrintable (b ∷ s) h =
    ((omega (arith, h.0.0), omega (arith, h.0.1)), IsHex-IsPrintable s h.1)

pub to_hex-IsField : (id : ObjectId) → IsObjectId id → IsField (to_hex id)
to_hex-IsField id h = IsPrintable-IsField (to_hex id) (IsHex-IsPrintable _ (to_hex-IsHex id h.1))

pub All-map {ℓ} :
    {A : Type ℓ} (P : A → Type 0) (Q : Bytes → Type 0) (f : A → Bytes) (xs : List A)
    → ((x : A) → P x → Q (f x))
    → All P xs
    → All Q (map f xs)
All-map P Q f [] k h = tt
All-map P Q f (x ∷ xs) k h = (k x h.0, All-map P Q f xs k h.1)

signature_lines-good :
    (sig : Option Bytes)
    → ((s : Bytes) → sig ≡ some s → IsField s)
    → All IsHeaderLine (signature_lines sig)
signature_lines-good none h = tt
signature_lines-good (some s) h = (keyword_line (codes "signature ") s refl (h s refl), tt)

header_lines-good : (c : Commit) → IsWritable c → All IsHeaderLine (header_lines c)
unfolding header_lines
header_lines-good c w = (
  keyword_line (codes "tree ") (to_hex c.tree) refl (to_hex-IsField c.tree w.tree),
  All-append _ (map parent_line c.parents) _
      (All-map IsObjectId IsHeaderLine parent_line c.parents
        (λ p g. keyword_line (codes "parent ") (to_hex p) refl (to_hex-IsField p g)) w.parents)
      (All-append _ (map author_line c.authors) _
        (All-map IsField IsHeaderLine author_line c.authors
          (λ a g. keyword_line (codes "author ") a refl g) w.authors)
        (
          keyword_line (codes "committer ") c.committer refl w.committer,
          All-append _ (map ai_line c.ai_assists) _
              (All-map IsField IsHeaderLine ai_line c.ai_assists
                (λ a g. keyword_line (codes "ai ") a refl g) w.ai_assists)
              (All-append _ (map reviewer_line c.reviewers) _
                (All-map IsField IsHeaderLine reviewer_line c.reviewers
                  (λ a g. keyword_line (codes "reviewer ") a refl g) w.reviewers)
                (signature_lines-good c.signature w.signature)),
        )),
)

-- The header that reading the lines of `c` leaves, in section `s`.
abbrev filled : Commit → Section → Header
filled c s = record {
  section = s;
  tree = some c.tree;
  parents = c.parents;
  authors = c.authors;
  committer = some c.committer;
  ai_assists = c.ai_assists;
  reviewers = c.reviewers;
  signature = c.signature;
}

read_header :
    (c : Commit)
    → IsWritable c
    → (s : Section) × (read_lines start (header_lines c) ≡ ok (filled c s))
unfolding header_lines
read_header c w =
    let h₁ : Header = record start { tree = some c.tree } in
    let h₂ = put_parents h₁ c.parents in
    let h₃ = put_authors h₂ c.authors in
    let h₄ : Header = record h₃ { section = Section.committer; committer = some c.committer } in
    let h₅ = put_ais h₄ c.ai_assists in
    let h₆ = put_reviewers h₅ c.reviewers in
    let r₂ = rank-after Section.tree c.parents Section.parent (omega arith) in
    let r₃ = rank-after h₂.section c.authors Section.author (omega (arith, r₂)) in
    let r₅ = rank-after Section.committer c.ai_assists Section.ai (omega arith) in
    let r₆ = rank-after h₅.section c.reviewers Section.reviewer (omega (arith, r₅)) in
    let (h₇, e, f) = read_signatures h₆ c.signature refl (omega (arith, r₆)) in
    (
      h₇.section,
      read_first start c.tree _ refl (omega arith) w.tree
          ∙ read_parents h₁ c.parents _ (omega arith) w.parents
          ∙ read_authors h₂ c.authors _ (omega (arith, r₂))
          ∙ read_one_committer h₃ c.committer _ refl (omega (arith, r₃))
          ∙ read_ais h₄ c.ai_assists _ (omega arith)
          ∙ read_reviewers h₅ c.reviewers _ (omega (arith, r₅))
          ∙ e
          ∙ ap ok f,
    )

split_encoded :
    (c : Commit)
    → IsWritable c
    → split_once_blank (encode c) ≡ some (joined (header_lines c), c.message)
unfolding encode header_lines
split_encoded c w =
    split_once_blank-unlines (tree_line c.tree) _ c.message
      (IsHeaderLine-IsLine (header_lines c) (header_lines-good c w))

lines_encoded : (c : Commit) → IsWritable c → lines (joined (header_lines c)) ≡ header_lines c
unfolding header_lines
lines_encoded c w =
    lines-joined (tree_line c.tree) _ (IsHeaderLine-IsLine (header_lines c) (header_lines-good c w))

is_utf8-encode : (c : Commit) → IsWritable c → is_utf8 (encode c) ≡ true
unfolding encode
is_utf8-encode c w =
    IsUtf8→is_utf8 _ (unlines-IsUtf8 (header_lines c) c.message (header_lines-good c w) w.message)

-- A commit whose ids are 32 bytes, that names an author and whose texts each stand in one line
-- (no line feed, no carriage return at the end, valid UTF-8) is read back from its encoding.
pub decode-encode_commit : (c : Commit) → IsWritable c → decode (encode c) ≡ ok c
unfolding decode
decode-encode_commit c w =
    let (s, e) = read_header c w in
    rw
      (
        is_utf8-encode c w,
        split_encoded c w,
        lines_encoded c w,
        e,
        w.author,
        eq_bytes_refl (encode c),
      )
      refl

ok_inj : {a b : Commit} → ok a ≡ ok b → a ≡ b
ok_inj h = cc

-- The commit that `decode` builds once the header is read.
decode_end :
    (payload : Bytes) (h : Header) (t : ObjectId) (by message : Bytes) (c : Commit)
    → let built : Commit = record {
      tree = t;
      parents = h.parents;
      authors = h.authors;
      committer = by;
      ai_assists = h.ai_assists;
      reviewers = h.reviewers;
      signature = h.signature;
      message = message;
    } in
      is_empty h.authors ≡ false
      → (do
        refuse_if (not (eq_bytes (encode built) payload)) (object "commit: non-canonical encoding")
        ok built)
        ≡ ok c
      → (encode c ≡ payload) × (is_empty c.authors ≡ false)
decode_end payload h t by message c named end = after_test _ _ _ end λ same built.
    let e = ok_inj built in
    (ap encode (sym e) ∙ eq_bytes→eq _ _ (not_false→true _ same), rw (sym e) named)

-- A payload that `decode` accepts is the encoding of the commit it returns, and names an author:
-- no two payloads decode to the same commit, so an id and a signature bind one commit.
pub decode-eq-ok_commit :
    (payload : Bytes) (c : Commit)
    → decode payload ≡ ok c
    → (encode c ≡ payload) × (is_empty c.authors ≡ false)
unfolding decode
decode-eq-ok_commit payload c h = after_test (not (is_utf8 payload)) _ _ h λ valid h₁.
    after_some (split_once_blank payload) _ _ h₁ λ parts cut h₂.
      after_ok (read_lines start (lines parts.0)) _ h₂ λ header walked h₃.
        after_test (is_empty header.authors) _ _ h₃ λ named h₄.
          after_some header.tree _ _ h₄ λ t first h₅.
            after_some header.committer _ _ h₅
              λ by last h₆. decode_end payload header t by parts.1 c named h₆
