-- ===== src/Object/Tag/Examples.antt =====
-- src/object/tag.rs at concrete inputs.
use gyt.Base.{◌≡◌, refl, [], ◌∷◌, arith, ok, err, object}
use gyt.Text.Cuts.{codes, strip_prefix}
use gyt.Text.Fields.{keyword-IsField}
use gyt.Hash.Examples.{id_of}
use gyt.Object.{commit}
use gyt.Object.Tag.{
  Tag, encode, decode, tag_start, read_tag_lines, read_tag_line, read_name, read_type,
  advance_tag_section,
}
use gyt.Object.Tag.RoundTrip.{IsWritable, decode-encode_tag, decode-eq-ok_tag}

abbrev release : Tag
release = record {
  target = id_of 1 2 3 4;
  kind = commit;
  name = codes "v1.0";
  tagger = codes "Alice <a@x> 1 +0000";
  message = codes "first";
}

release-IsWritable : IsWritable release
release-IsWritable = record {
  target = omega arith;
  name = keyword-IsField (codes "v1.0") refl;
  tagger = keyword-IsField (codes "Alice <a@x> 1 +0000") refl;
  message = (keyword-IsField (codes "first") refl).utf8;
}

late_type :
    read_tag_lines tag_start (codes "tag v1.0" ∷ codes "type commit" ∷ [])
    ≡ err (object "tag: header out of canonical order")
unfolding read_tag_lines read_tag_line strip_prefix read_name read_type advance_tag_section
late_type = refl

decode-encode_tag_example : decode (encode release) ≡ ok release
decode-encode_tag_example = decode-encode_tag release release-IsWritable

decode-eq-ok_tag_example : encode release ≡ encode release
decode-eq-ok_tag_example = decode-eq-ok_tag (encode release) release decode-encode_tag_example
