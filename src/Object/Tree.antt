-- ===== src/Object/Tree.antt =====
-- src/object/tree.rs: the codec of tree objects. The payload behind the loop's index `i` is the
-- list of the bytes that remain; each round takes some, so the payload's length is enough fuel.
pub mod Names
pub mod Entries
pub mod RoundTrip
pub mod Canonical
pub mod Stored
mod Examples
use gyt.Base.{
  ℕ, zero, suc, ◌^◌, ◌-◌, ◌+◌, ◌≡◌, Bool, true, false, not, ◌&&◌, ◌||◌, Option, none, some, List,
  [], ◌∷◌, ◌++◌, ltb, leb, ◌==◌, if◌then◌else◌, length, take, drop, Result, ok, err, stuck, object,
  ◌>>=◌, ◌>>◌, refuse_if, ok_or,
}
use gyt.Text.Cuts.{Bytes, codes, eq_bytes, split_once}
use gyt.Text.Utf8.{is_utf8}
use gyt.Text.Radix.{print_radix, from_str_radix}
use gyt.Text.Order.{lt_bytes, sort_by}
use gyt.Hash.{ObjectId, hash_len, from_bytes}

abbrev pub mode_file : ℕ
mode_file = 0o100644

abbrev pub mode_exec : ℕ
mode_exec = 0o100755

abbrev pub mode_symlink : ℕ
mode_symlink = 0o120000

abbrev pub mode_dir : ℕ
mode_dir = 0o040000

abbrev pub max_tree_entries : ℕ
max_tree_entries = 1_000_000

abbrev pub max_name_len : ℕ
max_name_len = 255

abbrev pub u32_max : ℕ
u32_max = 2 ^ 32 - 1

pub record TreeEntry : Type 0 where
  pub mode : ℕ
  pub name : Bytes
  pub hash : ObjectId

unfoldable pub is_known_mode : ℕ → Bool
is_known_mode m = m == mode_file || m == mode_exec || m == mode_symlink || m == mode_dir

-- `u8::to_ascii_lowercase`
abbrev pub ascii_lower : ℕ → ℕ
ascii_lower b = if leb b'A' b && leb b b'Z' then b + 32 else b

-- The zip with b".gyt" behind the test on the length.
unfoldable pub is_dot_gyt : Bytes → Bool
is_dot_gyt (a ∷ b ∷ c ∷ d ∷ []) =
    ascii_lower a == b'.' && ascii_lower b == b'g' && ascii_lower c == b'y' && ascii_lower d == b't'
is_dot_gyt _ = false

unfoldable pub check_name_bytes : Bytes → Result (Unit {0})
check_name_bytes [] = ok tt
check_name_bytes (b ∷ rest) = do
  refuse_if (b == b'/') (object "tree: entry name contains '/'")
  refuse_if (b == b'\\') (object "tree: entry name contains backslash")
  refuse_if (ltb b 0x20 || b == 0x7f) (object "tree: entry name contains control byte")
  check_name_bytes rest

unfoldable pub validate_entry_name : Bytes → Result (Unit {0})
validate_entry_name name = do
  refuse_if (eq_bytes name []) (object "tree: empty entry name")
  refuse_if (ltb max_name_len (length name)) (object "tree: entry name too long")
  refuse_if (eq_bytes name (codes ".") || eq_bytes name (codes ".."))
      (object "tree: entry name is '.' or '..'")
  refuse_if (is_dot_gyt name) (object "tree: entry name is .gyt")
  check_name_bytes name

-- `{:o}` of a `u32`, which has eleven octal digits at most.
abbrev pub mode_text : ℕ → Bytes
mode_text = print_radix 8 11

unfoldable pub encode_entry : TreeEntry → Bytes
encode_entry e = mode_text e.mode ++ (b' ' ∷ (e.name ++ (0 ∷ e.hash)))

unfoldable pub encode_entries : List TreeEntry → Bytes
encode_entries [] = []
encode_entries (e ∷ es) = encode_entry e ++ encode_entries es

unfoldable pub encode : List TreeEntry → Bytes
encode entries = encode_entries (sort_by (λ e. e.name) entries)

-- `name <= *prev`
unfoldable pub not_above : Option Bytes → Bytes → Bool
not_above none name = false
not_above (some prev) name = not (lt_bytes prev name)

-- One round of the loop: an entry and what remains behind it.
unfoldable pub decode_entry : Option Bytes → Bytes → Result (TreeEntry × Bytes)
decode_entry prev payload = do
  (mode_s, after) ← ok_or (split_once b' ' payload) (object "tree: missing space after mode")
  refuse_if (not (is_utf8 mode_s)) (object "tree: non-utf8 mode")
  mode ← ok_or (from_str_radix 8 u32_max mode_s) (object "tree: bad mode")
  refuse_if (not (eq_bytes mode_s (mode_text mode))) (object "tree: non-canonical mode token")
  refuse_if (not (is_known_mode mode)) (object "tree: mode is not in the gyt whitelist")
  (name, rest) ← ok_or (split_once 0 after) (object "tree: missing NUL after name")
  validate_entry_name name
  refuse_if (not_above prev name) (object "tree: entries not strictly ascending by name")
  refuse_if (ltb (length rest) hash_len) (object "tree: truncated hash")
  hash ← from_bytes (take hash_len rest)
  ok (record { mode = mode; name = name; hash = hash }, drop hash_len rest)

unfoldable pub decode_loop : ℕ → Bytes → Option Bytes → List TreeEntry → Result (List TreeEntry)
decode_loop fuel [] prev entries = ok entries
decode_loop zero (b ∷ bs) prev entries = stuck
decode_loop (suc fuel) (b ∷ bs) prev entries = do
  refuse_if (leb max_tree_entries (length entries)) (object "tree: entry count exceeds the cap")
  (e, rest) ← decode_entry prev (b ∷ bs)
  decode_loop fuel rest (some e.name) (entries ++ (e ∷ []))

unfoldable pub decode : Bytes → Result (List TreeEntry)
decode payload = decode_loop (length payload) payload none []
