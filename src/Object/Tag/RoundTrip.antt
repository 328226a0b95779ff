-- ===== src/Object/Tag/RoundTrip.antt =====
-- src/object/tag.rs: `decode` reads back what `encode` wrote, and accepts nothing else.
use gyt.Base.{
  ◌≤◌, ◌≡◌, refl, sym, ap, ◌∙◌, true, not, some, ◌++◌, All, length, ok, object, ◌>>◌, refuse_if,
  after_ok, after_some, after_test, not_false→true,
}
use gyt.Text.Cuts.{
  Bytes, codes, strip_prefix, eq_bytes, eq_bytes_refl, eq_bytes→eq, split_once_blank,
}
use gyt.Text.Lines.{lines}
use gyt.Text.Utf8.{IsUtf8, is_utf8, IsUtf8→is_utf8}
use gyt.Text.Blocks.{joined, split_once_blank-unlines, lines-joined}
use gyt.Text.Fields.{
  IsField, keyword-IsField, IsHeaderLine, keyword_line, IsHeaderLine-IsLine, unlines-IsUtf8,
}
use gyt.Hash.{ObjectId, IsObjectId, to_hex}
use gyt.Hash.RoundTrip.{from_hex-to_hex}
use gyt.Compress.{Xz, max_decompressed_bytes}
use gyt.Object.{ObjectKind, blob, tree, commit, tag, as_str, parse_kind-as_str}
use gyt.Object.Store.{Disk, Packs, build_raw, usize_max}
use gyt.Object.Store.Reading.{IsIntact, read-write_bytes}
use gyt.Object.Commit.RoundTrip.{to_hex-IsField}
use gyt.Object.Tag.{
  Tag, tag_lines, encode, tagger_line, tag_start, advance_tag_section, read_target, read_type,
  read_name, read_tagger, read_tag_line, read_tag_lines, decode, write_tag, read_tag,
}

-- A tag that its encoding determines: each text stands in one line.
pub record IsWritable (t : Tag) : Type 0 where
  pub target : IsObjectId t.target
  pub name : IsField t.name
  pub tagger : IsField t.tagger
  pub message : IsUtf8 t.message

kind-IsField : (k : ObjectKind) → IsField (as_str k)
kind-IsField blob = keyword-IsField (as_str blob) refl
kind-IsField tree = keyword-IsField (as_str tree) refl
kind-IsField commit = keyword-IsField (as_str commit) refl
kind-IsField tag = keyword-IsField (as_str tag) refl

tag_lines-good : (t : Tag) → IsWritable t → All IsHeaderLine (tag_lines t)
unfolding tag_lines
tag_lines-good t w = (
  keyword_line (codes "object ") (to_hex t.target) refl (to_hex-IsField t.target w.target),
  (
    keyword_line (codes "type ") (as_str t.kind) refl (kind-IsField t.kind),
    (
      keyword_line (codes "tag ") t.name refl w.name,
      (keyword_line (codes "tagger ") t.tagger refl w.tagger, tt),
    ),
  ),
)

read_tag_lines-tag_lines :
    (t : Tag)
    → IsWritable t
    → read_tag_lines tag_start (tag_lines t)
      ≡ ok (record {
        cur = tagger_line;
        target = some t.target;
        kind = some t.kind;
        name = some t.name;
        tagger = some t.tagger;
      })
unfolding tag_lines read_tag_lines read_tag_line strip_prefix advance_tag_section read_target
    read_type read_name read_tagger
read_tag_lines-tag_lines t w = rw (from_hex-to_hex t.target w.target, parse_kind-as_str t.kind) refl

split_encoded :
    (t : Tag) → IsWritable t → split_once_blank (encode t) ≡ some (joined (tag_lines t), t.message)
unfolding encode tag_lines
split_encoded t w =
    split_once_blank-unlines (codes "object " ++ to_hex t.target) _ t.message
      (IsHeaderLine-IsLine (tag_lines t) (tag_lines-good t w))

lines_encoded : (t : Tag) → IsWritable t → lines (joined (tag_lines t)) ≡ tag_lines t
unfolding tag_lines
lines_encoded t w =
    lines-joined (codes "object " ++ to_hex t.target) _
      (IsHeaderLine-IsLine (tag_lines t) (tag_lines-good t w))

is_utf8-encode : (t : Tag) → IsWritable t → is_utf8 (encode t) ≡ true
unfolding encode
is_utf8-encode t w =
    IsUtf8→is_utf8 _ (unlines-IsUtf8 (tag_lines t) t.message (tag_lines-good t w) w.message)

-- A tag whose target has 32 bytes and whose texts each stand in one line of UTF-8 is read back from
-- its encoding.
pub decode-encode_tag : (t : Tag) → IsWritable t → decode (encode t) ≡ ok t
unfolding decode
decode-encode_tag t w =
    rw
      (
        is_utf8-encode t w,
        split_encoded t w,
        lines_encoded t w,
        read_tag_lines-tag_lines t w,
        eq_bytes_refl (encode t),
      )
      refl

decode_end :
    (payload : Bytes) (built t : Tag)
    → (do
      refuse_if (not (eq_bytes (encode built) payload)) (object "tag: non-canonical encoding")
      ok built)
      ≡ ok t
    → encode t ≡ payload
decode_end payload built t end =
    after_test (not (eq_bytes (encode built) payload)) _ _ end
      λ same e. ap encode (sym (ok_inj e)) ∙ eq_bytes→eq _ _ (not_false→true _ same)
  where
    ok_inj : {a b : Tag} → ok a ≡ ok b → a ≡ b
    ok_inj h = cc

-- A payload that `decode` accepts is the encoding of the tag it returns, so no two payloads decode
-- to the same tag.
pub decode-eq-ok_tag : (payload : Bytes) (t : Tag) → decode payload ≡ ok t → encode t ≡ payload
unfolding decode
decode-eq-ok_tag payload t h = after_test (not (is_utf8 payload)) _ _ h λ valid h₁.
    after_some (split_once_blank payload) _ _ h₁ λ parts cut h₂.
      after_ok (read_tag_lines tag_start (lines parts.0)) _ h₂ λ header walked h₃.
        after_some header.target _ _ h₃ λ target e₁ h₄. after_some header.kind _ _ h₄ λ kind e₂ h₅.
          after_some header.name _ _ h₅ λ name e₃ h₆.
            after_some header.tagger _ _ h₆ λ tagger e₄ h₇.
              decode_end payload
                (record {
                  target = target;
                  kind = kind;
                  name = name;
                  tagger = tagger;
                  message = parts.1;
                })
                t h₇

module _ (blake3 : Bytes → ObjectId) (xz : Xz) (packs : Packs) where
  -- A tag that its encoding determines, once written, reads back by the id that the write returned,
  -- if it fits the size limits and the file at its path, where there is one, is intact.
  read_tag-write_tag :
      (d : Disk) (t : Tag)
      → IsWritable t
      → length (encode t) ≤ usize_max
      → length (build_raw tag (encode t)) ≤ max_decompressed_bytes
      → IsIntact blake3 xz d (build_raw tag (encode t))
      → read_tag blake3 xz packs (write_tag blake3 xz d t).1 (write_tag blake3 xz d t).0 ≡ ok t
  unfolding read_tag write_tag
  read_tag-write_tag d t w fits small intact =
      rw (read-write_bytes blake3 xz packs d tag (encode t) fits small intact)
        (decode-encode_tag t w)
