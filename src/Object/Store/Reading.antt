-- ===== src/Object/Store/Reading.antt =====
-- src/object/store.rs: what `read` finds after `write_bytes`, and what a successful `read` says.
use gyt.Base.{
  Option, none, if◌then◌else◌, Bool-cases, ◌≤◌, ◌≡◌, refl, sym, ap, ◌∙◌, inl, inr, not, some, arith,
  Option-cases, length, ok, after_ok, after_test,
}
use gyt.Text.Cuts.{Bytes, eq_bytes, eq_bytes_refl, eq_bytes→eq}
use gyt.Hash.{ObjectId}
use gyt.Compress.{Xz, encode, decode, max_decompressed_bytes}
use gyt.Compress.RoundTrip.{decode-encode_wrapped}
use gyt.Object.{ObjectKind}
use gyt.Object.Store.{
  read_file, Object, Disk, Packs, build_raw, parse_raw, path_for, usize_max, write_bytes,
  read_loose, read,
}
use gyt.Object.Store.Framing.{parse_raw-build_raw}

-- The file that stands, or else a new one.
abbrev pub or_new : Option Bytes → Option Bytes → Option Bytes
or_new (some old) new = some old
or_new none new = new

or_new-none : (old : Option Bytes) → or_new old none ≡ old
or_new-none none = refl
or_new-none (some old) = refl

module _ (blake3 : Bytes → ObjectId) (xz : Xz) where
  -- The file at the path of these raw bytes, if there is one, is a copy of them.
  pub record IsIntact (d : Disk) (raw : Bytes) : Type 0 where
    pub copy :
        (stored : Bytes) → d.files (path_for (blake3 raw)) ≡ some stored → decode xz stored ≡ ok raw

  -- At every path, a file that stands there stays with the same bytes, and where none stands one
  -- appears only at the path of the id that `write_bytes` returns: the framed bytes, wrapped.
  pub write_bytes_keeps :
      (d : Disk) (kind : ObjectKind) (payload path : Bytes)
      → let (id, d') = write_bytes blake3 xz d kind payload in
        d'.files path
        ≡ or_new (d.files path) (
            if eq_bytes (path_for id) path then some (encode xz (build_raw kind payload)) else none)
  unfolding write_bytes
  write_bytes_keeps d kind payload path =
      let own = path_for (blake3 (build_raw kind payload)) in
      elim (Option-cases (d.files own)) [
        | inl absent ↦ rw absent (elim (Bool-cases (eq_bytes own path)) [
          | inl same ↦ rw (same, sym (eq_bytes→eq own path same), absent) refl
          | inr other ↦ rw other (sym (or_new-none (d.files path)))
        ])
        | inr (stored, found) ↦ rw found (elim (Bool-cases (eq_bytes own path)) [
          | inl same ↦ rw (same, sym (eq_bytes→eq own path same), found) refl
          | inr other ↦ rw other (sym (or_new-none (d.files path)))
        ])
      ]

  read_loose-lem :
      (kind : ObjectKind) (payload stored : Bytes)
      → length payload ≤ usize_max
      → decode xz stored ≡ ok (build_raw kind payload)
      → read_loose blake3 xz (blake3 (build_raw kind payload)) stored
        ≡ ok (record { id = blake3 (build_raw kind payload); kind = kind; payload = payload })
  unfolding read_loose
  read_loose-lem kind payload stored fits e =
      rw (e, eq_bytes_refl (blake3 (build_raw kind payload)), parse_raw-build_raw kind payload fits)
        refl

  module _ (packs : Packs) where
    -- After `write_bytes` its id reads back as the kind and payload that were written, also where a
    -- file was there before, if that file was intact. The id is the hash of the framed bytes.
    pub read-write_bytes :
        (d : Disk) (kind : ObjectKind) (payload : Bytes)
        → length payload ≤ usize_max
        → length (build_raw kind payload) ≤ max_decompressed_bytes
        → IsIntact d (build_raw kind payload)
        → read blake3 xz packs
            (write_bytes blake3 xz d kind payload).1
            (write_bytes blake3 xz d kind payload).0
          ≡ ok (record { id = blake3 (build_raw kind payload); kind = kind; payload = payload })
    unfolding read write_bytes
    read-write_bytes d kind payload fits small intact =
        elim (Option-cases (d.files (path_for (blake3 (build_raw kind payload))))) [
          | inl absent ↦ ground (
            arith,
            absent,
            eq_bytes_refl (path_for (blake3 (build_raw kind payload))),
            read_loose-lem kind payload (encode xz (build_raw kind payload)) fits
                (decode-encode_wrapped xz (build_raw kind payload) small),
          )
          | inr (stored, found) ↦
              ground
                (arith, found, read_loose-lem kind payload stored fits (intact.copy stored found))
        ]

    -- An object read from a loose file has the id asked for, which is the hash of the bytes that
    -- the file unwraps to, and its kind and payload are what those bytes frame.
    pub read_verified :
        (d : Disk) (id : ObjectId) (stored : Bytes) (obj : Object)
        → d.files (path_for id) ≡ some stored
        → read blake3 xz packs d id ≡ ok obj
        → (raw : Bytes) × (decode xz stored ≡ ok raw)
          × (blake3 raw ≡ id)
          × (obj.id ≡ id)
          × (parse_raw raw ≡ ok (obj.kind, obj.payload))
    unfolding read read_loose
    read_verified d id stored obj found h =
        after_ok (decode xz stored) _ (rw (found, read_file) at h) λ raw unwrapped h₁.
          after_test (not (eq_bytes (blake3 raw) id)) _ _ h₁ λ checked h₂.
            after_ok (parse_raw raw) _ h₂ λ parts framed e.
              let same : blake3 raw ≡ id = ground (arith, eq_bytes→eq (blake3 raw) id) in
              let value : ◌≡◌ {A = Object} (record { id = id; kind = parts.0; payload = parts.1 })
                  obj =
                cc in
              (
                raw,
                unwrapped,
                same,
                ap (λ (o : Object). o.id) (sym value),
                framed ∙ ap (λ (o : Object). ok (o.kind, o.payload)) value,
              )
