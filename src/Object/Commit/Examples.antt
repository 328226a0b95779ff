-- ===== src/Object/Commit/Examples.antt =====
-- src/object/commit.rs at concrete inputs.
use gyt.Base.{◌≡◌, refl, sym, false, some, [], ◌∷◌, arith, ok, err, object}
use gyt.Text.Cuts.{Bytes, codes, strip_prefix}
use gyt.Text.Blocks.{unlines}
use gyt.Text.Radix.{print_radix}
use gyt.Text.Fields.{IsField, keyword-IsField}
use gyt.Hash.{to_hex}
use gyt.Hash.Examples.{id_of}
use gyt.Object.{commit}
use gyt.Object.Store.{build_raw}
use gyt.Object.Store.Examples.{stored_xz, count_hash, no_packs, empty_disk}
use gyt.Object.Store.Reading.{IsIntact}
use gyt.Object.Commit.{
  Commit, is_empty, header_lines, encode, decode, read_line, read_lines, read_committer,
  read_author, advance_section, start, author_line, committer_line,
}
use gyt.Object.Commit.RoundTrip.{IsWritable, decode-encode_commit, decode-eq-ok_commit}
use gyt.Object.Commit.Stored.{write_commit, read_commit, read_commit-write_commit}

abbrev alice : Bytes
alice = codes "Alice <a@x> 1700000000 +0000"

abbrev first_commit : Commit
first_commit = record {
  tree = id_of 1 2 3 4;
  parents = id_of 5 6 7 8 ∷ [];
  authors = alice ∷ codes "B" ∷ [];
  committer = alice;
  ai_assists = codes "auto:rustfmt" ∷ [];
  reviewers = [];
  signature = some (codes "c2ln");
  message = codes "init";
}

alice-IsField : IsField alice
alice-IsField = keyword-IsField alice refl

signature-IsField : (s : Bytes) → some (codes "c2ln") ≡ some s → IsField s
signature-IsField s e = rw (sym (some_inj e)) (keyword-IsField (codes "c2ln") refl)
  where
    some_inj : {a b : Bytes} → some a ≡ some b → a ≡ b
    some_inj h = cc

first_commit-IsWritable : IsWritable first_commit
first_commit-IsWritable = record {
  tree = omega arith;
  parents = (omega arith, tt);
  author = refl;
  authors = (alice-IsField, (keyword-IsField (codes "B") refl, tt));
  committer = alice-IsField;
  ai_assists = (keyword-IsField (codes "auto:rustfmt") refl, tt);
  reviewers = tt;
  signature = signature-IsField;
  message = (keyword-IsField (codes "init") refl).utf8;
}

-- A header out of order is refused, and so is an unknown line.
late_author :
    read_lines start (committer_line alice ∷ author_line alice ∷ [])
    ≡ err (object "commit: header out of canonical order")
unfolding read_lines read_line strip_prefix read_committer advance_section read_author
late_author = refl

unknown_line : read_line start (codes "note x") ≡ err (object "commit: unknown line")
unfolding read_line strip_prefix
unknown_line = refl

decode-encode_commit_example : decode (encode first_commit) ≡ ok first_commit
decode-encode_commit_example = decode-encode_commit first_commit first_commit-IsWritable

decode-eq-ok_commit_example :
    (encode first_commit ≡ encode first_commit) × (is_empty first_commit.authors ≡ false)
decode-eq-ok_commit_example =
    decode-eq-ok_commit (encode first_commit) first_commit decode-encode_commit_example

empty_IsIntact : IsIntact count_hash stored_xz empty_disk (build_raw commit (encode first_commit))
empty_IsIntact = record { copy = λ stored found. absurd (cc) }

read_commit-write_commit_example :
    read_commit count_hash stored_xz no_packs
      (write_commit count_hash stored_xz empty_disk first_commit).1
      (write_commit count_hash stored_xz empty_disk first_commit).0
    ≡ ok first_commit
unfolding encode header_lines unlines to_hex build_raw print_radix
read_commit-write_commit_example =
    read_commit-write_commit count_hash stored_xz no_packs empty_disk first_commit
      first_commit-IsWritable (omega arith) (omega arith) empty_IsIntact
