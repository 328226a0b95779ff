-- ===== src/Refs.antt =====
-- src/refs.rs: reference names, and the files of references and HEAD.
pub mod Directory
pub mod Lock
pub mod Names
pub mod Writes
pub mod Conflicts
pub mod Lines
pub mod Files
mod Examples
use gyt.Base.{
  ℕ, ◌-◌, Bool, true, false, not, ◌&&◌, ◌||◌, Option, none, some, List, [], ◌∷◌, ◌++◌, map, ltb,
  leb, ◌==◌, if◌then◌else◌, length, drop, Result, ok, err, GytError, io, refs, ◌>>=◌, ◌>>◌,
  refuse_if, ok_or,
}
use gyt.Text.Cuts.{Bytes, codes, eq_bytes, strip_prefix}
use gyt.Refs.Directory.{Node, file, symlink, directory, GytDir, atomic_write, remove_file}
use gyt.Text.Utf8.{is_utf8}
use gyt.Text.Trim.{split, contains_pair, starts_with, ends_with, trim, trim_line_ends}
use gyt.Hash.{ObjectId, hex_len, from_hex, to_hex}
use gyt.Object.Tree.{ascii_lower}

abbrev pub max_ref_name_len : ℕ
max_ref_name_len = 255

abbrev pub is_revspec : ℕ → Bool
is_revspec b = b == b'~' || b == b'^' || b == b'?' || b == b'*' || b == b'[' || b == b':'

unfoldable pub check_ref_bytes : Bytes → Result (Unit {0})
check_ref_bytes [] = ok tt
check_ref_bytes (b ∷ rest) = do
  refuse_if (ltb b 0x20 || b == 0x7f) (refs "ref name contains control byte")
  refuse_if (b == b'\\') (refs "ref name contains backslash")
  refuse_if (is_revspec b) (refs "ref name contains revspec metacharacter")
  check_ref_bytes rest

-- The last five bytes, or all of a shorter component, in lower case.
unfoldable pub ends_in_lock : Bytes → Bool
ends_in_lock comp =
    eq_bytes (map ascii_lower (drop (length comp - 5) comp)) (codes ".lock") && leb 5 (length comp)

unfoldable pub check_components : List Bytes → Result (Unit {0})
check_components [] = ok tt
check_components (comp ∷ comps) = do
  refuse_if (eq_bytes comp []) (refs "ref name has empty component")
  refuse_if (eq_bytes comp (codes "..") || eq_bytes comp (codes "."))
      (refs "ref name has '..' or '.' component")
  refuse_if (starts_with b'-' comp) (refs "ref name component starts with '-'")
  refuse_if (ends_in_lock comp) (refs "ref name component ends in .lock")
  check_components comps

unfoldable pub validate_ref_name : Bytes → Result (Unit {0})
validate_ref_name name = do
  refuse_if (eq_bytes name []) (refs "empty ref name")
  refuse_if (ltb max_ref_name_len (length name)) (refs "ref name too long")
  refuse_if (starts_with b'/' name) (refs "ref name must not start with '/'")
  refuse_if (ends_with b'/' name) (refs "ref name must not end with '/'")
  check_ref_bytes name
  check_components (split b'/' name)
  refuse_if (contains_pair b'.' b'.' name) (refs "ref name contains '..'")
  refuse_if (contains_pair b'@' b'{' name) (refs "ref name contains '@{'")
  ok tt

-- `map_err` to a `Refs` error.
abbrev as_refs {ℓ} : {A : Type ℓ} → Result A → GytError → Result A
as_refs (ok a) e = ok a
as_refs (err e') e = err e
as_refs Result.stuck e = Result.stuck

unfoldable pub parse_ref : Bytes → Result ObjectId
parse_ref bytes = do
  refuse_if (not (is_utf8 bytes)) (refs "ref is not valid utf-8")
  refuse_if (not (length (trim bytes) == hex_len)) (refs "ref hash has wrong length")
  as_refs (from_hex (trim bytes)) (refs "ref parse error")

read_node : Option Node → Result ObjectId
read_node none = err (refs "ref not found")
read_node (some (symlink bytes)) = err (refs "ref is a symlink")
read_node (some directory) = err (io "is a directory")
read_node (some (file bytes)) = parse_ref bytes

unfoldable pub read_ref : GytDir → Bytes → Result ObjectId
unfolding read_node
read_ref d name = do validate_ref_name name; read_node (d.at name)

unfoldable pub write_ref : GytDir → Bytes → ObjectId → Result GytDir
write_ref d name id = do validate_ref_name name; atomic_write d name (to_hex id ++ (b'\n' ∷ []))

-- `Path::exists`
abbrev exists : Option Node → Bool
exists none = false
exists (some node) = true

unfoldable pub delete_ref : GytDir → Bytes → Result GytDir
delete_ref d name = do
  validate_ref_name name
  refuse_if (not (exists (d.at name))) (refs "ref not found")
  remove_file d name (d.at name)

pub data Head : Type 0 where
  symbolic : Bytes → Head
  detached : ObjectId → Head

abbrev pub head_path : Bytes
head_path = codes "HEAD"

parse_detached : Option Bytes → Result Head
parse_detached none = err (refs "malformed HEAD")
parse_detached (some rest) = do
  refuse_if (not (length (trim rest) == hex_len)) (refs "HEAD detached hash has wrong length")
  id ← as_refs (from_hex (trim rest)) (refs "HEAD detached hash invalid")
  ok (detached id)

parse_head : Bytes → Option Bytes → Result Head
unfolding parse_detached
parse_head line (some rest) = do validate_ref_name (trim rest); ok (symbolic (trim rest))
parse_head line none = parse_detached (strip_prefix line (codes "blake3:"))

parse_head_text : Bytes → Result Head
unfolding parse_head
parse_head_text bytes = do
  refuse_if (not (is_utf8 bytes)) (refs "HEAD is not valid utf-8")
  parse_head (trim_line_ends bytes) (strip_prefix (trim_line_ends bytes) (codes "ref: "))

-- A link at HEAD is followed.
read_head_node : Option Node → Result Head
unfolding parse_head_text
read_head_node none = err (refs "HEAD not found")
read_head_node (some directory) = err (io "is a directory")
read_head_node (some (file bytes)) = parse_head_text bytes
read_head_node (some (symlink bytes)) = parse_head_text bytes

unfoldable pub read_head : GytDir → Result Head
unfolding read_head_node
read_head d = read_head_node (d.at head_path)

unfoldable pub write_head : GytDir → Head → Result GytDir
write_head d (symbolic name) = do
  validate_ref_name name
  atomic_write d head_path (codes "ref: " ++ (name ++ (b'\n' ∷ [])))
write_head d (detached id) =
    atomic_write d head_path (codes "blake3:" ++ (to_hex id ++ (b'\n' ∷ [])))

resolve_node : GytDir → Bytes → Option Node → Result (Option ObjectId)
resolve_node d name none = ok none
resolve_node d name (some node) = do id ← read_ref d name; ok (some id)

unfoldable pub resolve : GytDir → Head → Result (Option ObjectId)
unfolding resolve_node
resolve d (detached id) = ok (some id)
resolve d (symbolic name) = do validate_ref_name name; resolve_node d name (d.at name)
