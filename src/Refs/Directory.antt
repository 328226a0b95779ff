-- ===== src/Refs/Directory.antt =====
-- src/refs.rs and src/fs_util.rs: the directory `.gyt`, as the calls of src/refs.rs see it. It maps
-- the path of an entry, below `.gyt`, to a file, a directory, or a symbolic link to a file with the
-- given content. Failures that do not depend on the entries (permissions, space, the length of the
-- name of the temporary file) are left out; an error says nothing of the directory behind it.
use gyt.Base.{
  Option, none, some, List, [], ◌∷◌, map, ◌==◌, if◌then◌else◌, Result, ok, err, io, ◌>>=◌,
}
use gyt.Text.Cuts.{Bytes, eq_bytes}

pub data Node : Type 0 where
  file symlink : Bytes → Node
  directory : Node

-- What stands at a path below `.gyt`.
pub record GytDir : Type 0 where
  pub at : Bytes → Option Node

unfoldable pub put : GytDir → Bytes → Option Node → GytDir
put d path node = record { at = λ p. if eq_bytes path p then node else d.at p }

-- The directories that lead to a path, from the top.
unfoldable pub parents_of : Bytes → List Bytes
parents_of [] = []
parents_of (c ∷ s) =
    let rest = map (λ p. c ∷ p) (parents_of s) in if c == b'/' then [] ∷ rest else rest

-- `fs::create_dir_all`: a directory that is there stays, and anything else in its place is an error.
abbrev pub make_dir : GytDir → Bytes → Option Node → Result GytDir
make_dir d path none = ok (put d path (some directory))
make_dir d path (some directory) = ok d
make_dir d path (some (file bytes)) = err (io "not a directory")
make_dir d path (some (symlink bytes)) = err (io "not a directory")

unfoldable pub make_dirs : GytDir → List Bytes → Result GytDir
make_dirs d [] = ok d
make_dirs d (p ∷ ps) = do d' ← make_dir d p (d.at p); make_dirs d' ps

-- `fs::rename` of the temporary file: it replaces a file or a link, and no directory.
abbrev pub rename_to : GytDir → Bytes → Bytes → Option Node → Result GytDir
rename_to d path content none = ok (put d path (some (file content)))
rename_to d path content (some (file bytes)) = ok (put d path (some (file content)))
rename_to d path content (some (symlink bytes)) = ok (put d path (some (file content)))
rename_to d path content (some directory) = err (io "is a directory")

unfoldable pub atomic_write : GytDir → Bytes → Bytes → Result GytDir
atomic_write d path content = do
  d' ← make_dirs d (parents_of path)
  rename_to d' path content (d'.at path)

-- `fs::remove_file`
abbrev pub remove_file : GytDir → Bytes → Option Node → Result GytDir
remove_file d path none = err (io "not found")
remove_file d path (some directory) = err (io "is a directory")
remove_file d path (some (file bytes)) = ok (put d path none)
remove_file d path (some (symlink bytes)) = ok (put d path none)
