-- ===== src/Object/Tag.antt =====
-- src/object/tag.rs: the codec of annotated tags.
pub mod RoundTrip
mod Examples
use gyt.Base.{
  ℕ, Bool, true, false, not, Option, none, some, List, [], ◌∷◌, ◌++◌, ltb, if◌then◌else◌, Result,
  ok, err, object, ◌>>=◌, ◌>>◌, refuse_if, ok_or,
}
use gyt.Text.Cuts.{Bytes, codes, eq_bytes, strip_prefix, split_once_blank}
use gyt.Text.Lines.{lines}
use gyt.Text.Utf8.{is_utf8}
use gyt.Text.Blocks.{unlines}
use gyt.Hash.{ObjectId, from_hex, to_hex}
use gyt.Compress.{Xz}
use gyt.Object.{ObjectKind, as_str, parse_kind, same_kind}
use gyt.Object.Store.{Disk, Packs, write_bytes, read}

pub record Tag : Type 0 where
  pub target : ObjectId
  pub kind : ObjectKind
  pub name : Bytes
  pub tagger : Bytes
  pub message : Bytes

unfoldable pub tag_lines : Tag → List Bytes
tag_lines t =
    (codes "object " ++ to_hex t.target)
    ∷ (codes "type " ++ as_str t.kind)
    ∷ (codes "tag " ++ t.name)
    ∷ (codes "tagger " ++ t.tagger)
    ∷ []

unfoldable pub encode : Tag → Bytes
encode t = unlines (tag_lines t) ++ (b'\n' ∷ t.message)

pub data TagSection : Type 0 where
  object_line type_line tag_line tagger_line : TagSection

-- The discriminants, by which sections compare.
abbrev pub tag_rank : TagSection → ℕ
tag_rank object_line = 0
tag_rank type_line = 1
tag_rank tag_line = 2
tag_rank tagger_line = 3

-- The local variables of `decode` while it walks the header.
pub record TagHeader : Type 0 where
  pub cur : TagSection
  pub target : Option ObjectId
  pub kind : Option ObjectKind
  pub name : Option Bytes
  pub tagger : Option Bytes

abbrev pub tag_start : TagHeader
tag_start = record { cur = object_line; target = none; kind = none; name = none; tagger = none }

unfoldable pub advance_tag_section : TagHeader → TagSection → Result TagHeader
advance_tag_section h next =
    if ltb (tag_rank next) (tag_rank h.cur)
    then err (object "tag: header out of canonical order")
    else ok (record h { cur = next })

-- `o.is_some()`
abbrev is_some {ℓ} : {A : Type ℓ} → Option A → Bool
is_some none = false
is_some (some x) = true

unfoldable pub read_target : TagHeader → Bytes → Result TagHeader
read_target h rest = do
  refuse_if (is_some h.target) (object "tag: multiple object lines")
  h' ← advance_tag_section h object_line
  id ← from_hex rest
  ok (record h' { target = some id })

unfoldable pub read_type : TagHeader → Bytes → Result TagHeader
read_type h rest = do
  refuse_if (is_some h.kind) (object "tag: multiple type lines")
  h' ← advance_tag_section h type_line
  kind ← parse_kind rest
  ok (record h' { kind = some kind })

unfoldable pub read_name : TagHeader → Bytes → Result TagHeader
read_name h rest = do
  refuse_if (is_some h.name) (object "tag: multiple tag lines")
  h' ← advance_tag_section h tag_line
  ok (record h' { name = some rest })

unfoldable pub read_tagger : TagHeader → Bytes → Result TagHeader
read_tagger h rest = do
  refuse_if (is_some h.tagger) (object "tag: multiple tagger lines")
  h' ← advance_tag_section h tagger_line
  ok (record h' { tagger = some rest })

-- The chain of `if let Some(rest) = line.strip_prefix(…)`.
abbrev or_else {ℓ} : {A : Type ℓ} → Option Bytes → (Bytes → A) → A → A
or_else (some rest) f other = f rest
or_else none f other = other

unfoldable pub read_tag_line : TagHeader → Bytes → Result TagHeader
read_tag_line h line = or_else (strip_prefix line (codes "object ")) (read_target h) (
    or_else (strip_prefix line (codes "type ")) (read_type h) (
      or_else (strip_prefix line (codes "tag ")) (read_name h) (
        or_else (strip_prefix line (codes "tagger ")) (read_tagger h)
          (err (object "tag: unknown line")))))

unfoldable pub read_tag_lines : TagHeader → List Bytes → Result TagHeader
read_tag_lines h [] = ok h
read_tag_lines h (line ∷ ls) = do h' ← read_tag_line h line; read_tag_lines h' ls

unfoldable pub decode : Bytes → Result Tag
decode payload = do
  refuse_if (not (is_utf8 payload)) (object "tag: non-utf8")
  (header, message) ← ok_or (split_once_blank payload) (object "tag: missing blank line")
  h ← read_tag_lines tag_start (lines header)
  target ← ok_or h.target (object "tag: missing object")
  kind ← ok_or h.kind (object "tag: missing type")
  name ← ok_or h.name (object "tag: missing tag name")
  tagger ← ok_or h.tagger (object "tag: missing tagger")
  let t : Tag = record {
    target = target;
    kind = kind;
    name = name;
    tagger = tagger;
    message = message;
  }
  refuse_if (not (eq_bytes (encode t) payload)) (object "tag: non-canonical encoding")
  ok t

module _ (blake3 : Bytes → ObjectId) (xz : Xz) where
  unfoldable pub write_tag : Disk → Tag → ObjectId × Disk
  write_tag d t = write_bytes blake3 xz d ObjectKind.tag (encode t)

  unfoldable pub read_tag : Packs → Disk → ObjectId → Result Tag
  read_tag packs d id = do
    obj ← read blake3 xz packs d id
    refuse_if (not (same_kind obj.kind ObjectKind.tag)) (object "expected tag")
    decode obj.payload
