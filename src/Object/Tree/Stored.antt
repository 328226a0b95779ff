-- ===== src/Object/Tree/Stored.antt =====
-- src/object/tree.rs: trees in the object store.
use gyt.Base.{◌≤◌, ◌≡◌, not, List, All, length, Result, ok, object, ◌>>=◌, ◌>>◌, refuse_if}
use gyt.Text.Cuts.{Bytes}
use gyt.Text.Order.{sort_by, HasDistinctKeys}
use gyt.Hash.{ObjectId}
use gyt.Compress.{Xz, max_decompressed_bytes}
use gyt.Object.{tree, same_kind}
use gyt.Object.Store.{Disk, Packs, build_raw, usize_max, write_bytes, read}
use gyt.Object.Store.Reading.{IsIntact, read-write_bytes}
use gyt.Object.Tree.{TreeEntry, max_tree_entries, encode, decode}
use gyt.Object.Tree.Entries.{IsValidEntry}
use gyt.Object.Tree.RoundTrip.{name_of, decode-encode_tree}

module _ (blake3 : Bytes → ObjectId) (xz : Xz) where
  unfoldable pub write_entries : Disk → List TreeEntry → ObjectId × Disk
  write_entries d entries = write_bytes blake3 xz d tree (encode entries)

  module _ (packs : Packs) where
    unfoldable pub read_entries : Disk → ObjectId → Result (List TreeEntry)
    read_entries d id = do
      obj ← read blake3 xz packs d id
      refuse_if (not (same_kind obj.kind tree)) (object "expected tree")
      decode obj.payload

    -- Valid entries with distinct names, once written as a tree, read back sorted by name from the
    -- id that the write returned, if the tree fits the size limits and the file at its path, where
    -- there is one, is intact.
    pub read_entries-write_entries :
        (d : Disk) (es : List TreeEntry)
        → All IsValidEntry es
        → HasDistinctKeys name_of es
        → length es ≤ max_tree_entries
        → length (encode es) ≤ usize_max
        → length (build_raw tree (encode es)) ≤ max_decompressed_bytes
        → IsIntact blake3 xz d (build_raw tree (encode es))
        → read_entries (write_entries d es).1 (write_entries d es).0 ≡ ok (sort_by name_of es)
    unfolding read_entries write_entries
    read_entries-write_entries d es valid distinct cap fits small intact =
        rw (read-write_bytes blake3 xz packs d tree (encode es) fits small intact)
          (decode-encode_tree es valid distinct cap)
