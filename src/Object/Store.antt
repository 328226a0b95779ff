-- ===== src/Object/Store.antt =====
-- src/object/store.rs and blob.rs: the framing of an object, and the loose-object store on a file
-- system that is a map from paths to contents; I/O failures are left out. BLAKE3 and the pack
-- files (pack.rs) are the parameters of the section.
pub mod Framing
pub mod Reading
pub mod Examples
use gyt.Base.{
  ℕ, ◌-◌, ◌^◌, ◌≡◌, Bool, true, false, not, ◌||◌, Option, none, some, List, [], ◌∷◌, ◌++◌, ◌==◌,
  if◌then◌else◌, length, take, drop, Result, ok, err, object, not_found, ◌>>=◌, ◌>>◌, refuse_if,
  ok_or,
}
use gyt.Text.Cuts.{Bytes, codes, eq_bytes, split_once}
use gyt.Text.Utf8.{is_utf8}
use gyt.Text.Radix.{print_radix, from_str_radix}
use gyt.Hash.{ObjectId, to_hex}
use gyt.Compress.{Xz, encode, decode}
use gyt.Object.{ObjectKind, blob, as_str, parse_kind, same_kind}

pub record Object : Type 0 where
  pub id : ObjectId
  pub kind : ObjectKind
  pub payload : Bytes

-- `usize` has 64 bits.
abbrev pub usize_max : ℕ
usize_max = 2 ^ 64 - 1

-- "<kind> <size>\0<payload>"; twenty digits hold any `usize`.
unfoldable pub build_raw : ObjectKind → Bytes → Bytes
build_raw kind payload =
    (as_str kind ++ (b' ' ∷ print_radix 10 20 (length payload))) ++ (0 ∷ payload)

unfoldable pub parse_raw : Bytes → Result (ObjectKind × Bytes)
parse_raw raw = do
  (header, payload) ← ok_or (split_once 0 raw) (object "missing NUL after object header")
  refuse_if (not (is_utf8 header)) (object "non-utf8 object header")
  (kind_s, size_s) ← ok_or (split_once b' ' header) (object "malformed header")
  kind ← parse_kind kind_s
  size ← ok_or (from_str_radix 10 usize_max size_s) (object "non-numeric size in header")
  refuse_if (not (length payload == size)) (object "header size differs from payload")
  ok (kind, payload)

-- objects/<two digits>/<the other digits>
unfoldable pub path_for : ObjectId → Bytes
path_for id = codes "objects/" ++ (take 2 (to_hex id) ++ (b'/' ∷ drop 2 (to_hex id)))

-- What the directory `.gyt` holds at each path.
pub record Disk : Type 0 where
  pub files : Bytes → Option Bytes

-- `fs_util::atomic_write`
abbrev pub atomic_write : Disk → Bytes → Bytes → Disk
atomic_write d path content = record {
  files = λ p. if eq_bytes path p then some content else d.files p;
}

-- What `read` and `exists` ask of the pack files.
pub record Packs : Type 0 where
  pub read_from_packs : ObjectId → Result (Option Object)
  pub id_in_packs : ObjectId → Bool

module _ (blake3 : Bytes → ObjectId) (xz : Xz) where
  -- `Object::new`
  unfoldable pub new : ObjectKind → Bytes → Object
  new kind payload = record { id = blake3 (build_raw kind payload); kind = kind; payload = payload }

  write_raw : Disk → Bytes → ObjectId → Option Bytes → ObjectId × Disk
  write_raw d raw id (some stored) = (id, d)
  write_raw d raw id none = (id, atomic_write d (path_for id) (encode xz raw))

  -- An object whose path exists is not written again.
  unfoldable pub write_bytes : Disk → ObjectKind → Bytes → ObjectId × Disk
  unfolding write_raw
  write_bytes d kind payload =
      let raw = build_raw kind payload in
      write_raw d raw (blake3 raw) (d.files (path_for (blake3 raw)))

  -- `store::write`; its assertion on the id is a debugging aid.
  unfoldable pub write : Disk → Object → ObjectId × Disk
  unfolding write_bytes
  write d obj = write_bytes d obj.kind obj.payload

  -- `blob::write`
  unfoldable pub write_blob : Disk → Bytes → ObjectId × Disk
  unfolding write_bytes
  write_blob d payload = write_bytes d blob payload

  unfoldable pub read_loose : ObjectId → Bytes → Result Object
  read_loose id stored = do
    raw ← decode xz stored
    refuse_if (not (eq_bytes (blake3 raw) id)) (object "content hash mismatch")
    (kind, payload) ← parse_raw raw
    ok (record { id = id; kind = kind; payload = payload })

  module _ (packs : Packs) where
    read_packed : ObjectId → Option Object → Result Object
    read_packed id (some obj) = ok obj
    read_packed id none = err (not_found "object")

    read_file : ObjectId → Option Bytes → Result Object
    unfolding read_packed
    read_file id (some stored) = read_loose id stored
    read_file id none = do found ← packs.read_from_packs id; read_packed id found

    -- The loose file first, then the packs.
    unfoldable pub read : Disk → ObjectId → Result Object
    unfolding read_file
    read d id = read_file id (d.files (path_for id))

    is_some : Option Bytes → Bool
    is_some none = false
    is_some (some stored) = true

    unfoldable pub exists : Disk → ObjectId → Bool
    unfolding is_some
    exists d id = is_some (d.files (path_for id)) || packs.id_in_packs id

    -- `blob::read`
    unfoldable pub read_blob : Disk → ObjectId → Result Bytes
    unfolding read
    read_blob d id = do
      obj ← read d id
      refuse_if (not (same_kind obj.kind blob)) (object "expected blob")
      ok obj.payload
