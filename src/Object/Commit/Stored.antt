-- ===== src/Object/Commit/Stored.antt =====
-- src/object/commit.rs: commits in the object store.
use gyt.Base.{◌≤◌, ◌≡◌, not, length, Result, ok, object, ◌>>=◌, ◌>>◌, refuse_if}
use gyt.Text.Cuts.{Bytes}
use gyt.Hash.{ObjectId}
use gyt.Compress.{Xz, max_decompressed_bytes}
use gyt.Object.{commit, same_kind}
use gyt.Object.Store.{Disk, Packs, build_raw, usize_max, write_bytes, read}
use gyt.Object.Store.Reading.{IsIntact, read-write_bytes}
use gyt.Object.Commit.{Commit, encode, decode}
use gyt.Object.Commit.RoundTrip.{IsWritable, decode-encode_commit}

module _ (blake3 : Bytes → ObjectId) (xz : Xz) where
  unfoldable pub write_commit : Disk → Commit → ObjectId × Disk
  write_commit d c = write_bytes blake3 xz d commit (encode c)

  module _ (packs : Packs) where
    unfoldable pub read_commit : Disk → ObjectId → Result Commit
    read_commit d id = do
      obj ← read blake3 xz packs d id
      refuse_if (not (same_kind obj.kind commit)) (object "expected commit")
      decode obj.payload

    -- A commit that its encoding determines, once written, reads back by the id that the write
    -- returned, if it fits the size limits and the file at its path, where there is one, is intact.
    pub read_commit-write_commit :
        (d : Disk) (c : Commit)
        → IsWritable c
        → length (encode c) ≤ usize_max
        → length (build_raw commit (encode c)) ≤ max_decompressed_bytes
        → IsIntact blake3 xz d (build_raw commit (encode c))
        → read_commit (write_commit d c).1 (write_commit d c).0 ≡ ok c
    unfolding read_commit write_commit
    read_commit-write_commit d c w fits small intact =
        rw (read-write_bytes blake3 xz packs d commit (encode c) fits small intact)
          (decode-encode_commit c w)
