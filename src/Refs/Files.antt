-- ===== src/Refs/Files.antt =====
-- src/refs.rs: what reading finds after writing, deleting and writing elsewhere.
use gyt.Base.{
  ℕ, Bool, Result, stuck, ◌>>◌, ◌↔◌, ◌≤◌, ◌≡◌, refl, sym, ◌≢◌, true, false, Option, none, some, inl,
  inr, [], ◌∷◌, ◌++◌, append_assoc, arith, if◌then◌else◌, All, All-append, ok, err, refs,
  Bool-cases, after_ok,
}
use gyt.Text.Cuts.{
  Bytes, Lacks, codes, eq_bytes, eq_bytes_refl, eq_bytes→eq, strip_prefix, strip_prefix-append,
}
use gyt.Text.Utf8.{IsUtf8, is_utf8, IsUtf8→is_utf8, IsUtf8-append, IsUtf8-ascii}
use gyt.Text.Trim.{IsVisible, trim, trim-visible, trim_line_ends, trim_line_ends-line}
use gyt.Hash.{ObjectId, IsObjectId, to_hex}
use gyt.Hash.RoundTrip.{from_hex-to_hex, length-to_hex}
use gyt.Refs.{
  validate_ref_name, read_node, read_ref, write_ref, delete_ref, Head, symbolic, detached,
  head_path, parse_head, parse_detached, read_head, write_head, parse_head_text,
}
use gyt.Refs.Directory.{Node, file, symlink, directory, GytDir, put, parents_of, atomic_write}
use gyt.Refs.Writes.{IsFree, has, or_directory, atomic_write-ok}
use gyt.Refs.Names.{IsRefName, IsRefByte, validate_ref_name_iff}
use gyt.Refs.Lines.{visible-ascii, hex-IsVisible, hex-nonempty, parse_ref-line, accepted, apart}
use gyt.Refs.Conflicts.{atomic_write-eq-ok}

-- As far as the entries of `.gyt` decide it, `write_ref` succeeds exactly under a valid name that is
-- free: each path above it is nothing yet or a directory, and it is no directory itself.
pub write_ref_iff :
    (d : GytDir) (name : Bytes) (id : ObjectId)
    → ((d' : GytDir) × (write_ref d name id ≡ ok d')) ↔ (IsRefName name × IsFree d name)
unfolding write_ref
write_ref_iff d name id = (
  λ (d', h). after_ok (validate_ref_name name) _ h λ u valid written. (
    (validate_ref_name_iff name).0 valid,
    atomic_write-eq-ok d d' name (to_hex id ++ (b'\n' ∷ [])) written,
  ),
  λ (n, free).
      let (d', e, now) = atomic_write-ok d name (to_hex id ++ (b'\n' ∷ [])) free in
      (d', rw (accepted name n) e),
)

-- A new directory is no reference, as little as nothing was.
no_reference :
    (r : Result (Unit {0})) (b : Bool) (entry : Option Node) (x : ObjectId)
    → ((r >> read_node (if b then or_directory entry else entry)) ≡ ok x)
      ↔ ((r >> read_node entry) ≡ ok x)
unfolding read_node
no_reference r false entry x = (λ h. h, λ h. h)
no_reference r true (some entry) x = (λ h. h, λ h. h)
no_reference (ok u) true none x = (λ h. absurd (cc), λ h. absurd (cc))
no_reference (err e) true none x = (λ h. h, λ h. h)
no_reference stuck true none x = (λ h. h, λ h. h)

-- Under a valid name that is free `write_ref` succeeds; then `read_ref` gives that id under the
-- name, and another name reads as a reference exactly if it did before, with the same id.
pub read_ref-write_ref :
    (d : GytDir) (name other : Bytes) (id x : ObjectId)
    → IsRefName name
    → IsFree d name
    → IsObjectId id
    → name ≢ other
    → (d' : GytDir) × (write_ref d name id ≡ ok d')
      × (read_ref d' name ≡ ok id)
      × ((read_ref d' other ≡ ok x) ↔ (read_ref d other ≡ ok x))
unfolding write_ref read_ref
read_ref-write_ref d name other id x n free h different =
    let (d', e, now) = atomic_write-ok d name (to_hex id ++ (b'\n' ∷ [])) free in
    (
      d',
      rw (accepted name n) e,
      rw (accepted name n, now name, eq_bytes_refl name) (parse_ref-line id h),
      rw (now other, apart name other different)
          (no_reference (validate_ref_name other) (has other (parents_of name)) (d.at other) x),
    )

stands :
    (o : Option Node) {id : ObjectId}
    → read_node o ≡ ok id
    → (bytes : Bytes) × (o ≡ some (file bytes))
unfolding read_node
stands none h = absurd (cc)
stands (some (symlink bytes)) h = absurd (cc)
stands (some directory) h = absurd (cc)
stands (some (file bytes)) h = (bytes, refl)

-- A reference that reads can be deleted; then its name is not found, and every other name reads
-- as before.
pub read_ref-delete_ref :
    (d : GytDir) (name other : Bytes) (id : ObjectId)
    → read_ref d name ≡ ok id
    → (d' : GytDir) × (delete_ref d name ≡ ok d')
      × (read_ref d' other
          ≡ (if eq_bytes name other then err (refs "ref not found") else read_ref d other))
unfolding delete_ref read_ref put
read_ref-delete_ref d name other id h = after_ok (validate_ref_name name) _ h λ u valid found.
    let (bytes, there) = stands (d.at name) found in
    (
      put d name none,
      rw (valid, there) refl,
      elim (Bool-cases (eq_bytes name other)) [
        | inl same ↦ rw (same, sym (eq_bytes→eq name other same), valid) refl
        | inr differs ↦ rw differs refl
      ],
    )

ref_text : (name : Bytes) → All IsRefByte name → All (λ b. 0x20 ≤ b) name
ref_text [] h = tt
ref_text (b ∷ name) h = (h.0.no_control, ref_text name h.1)

visible_text : (s : Bytes) → All IsVisible s → All (λ b. 0x20 ≤ b) s
visible_text [] h = tt
visible_text (b ∷ s) h = (omega (arith, h.0.0), visible_text s h.1)

-- What HEAD can be: a valid name in UTF-8 that `trim` leaves alone, or an id.
abbrev pub IsHead : Head → Type 0
IsHead (symbolic name) = IsRefName name × IsUtf8 name × (trim name ≡ name)
IsHead (detached id) = IsObjectId id

line_utf8 : (p s : Bytes) → IsUtf8 p → IsUtf8 s → is_utf8 (p ++ (s ++ (b'\n' ∷ []))) ≡ true
line_utf8 p s hp hs =
    IsUtf8→is_utf8 _
      (IsUtf8-append p _ hp (IsUtf8-append s _ hs (IsUtf8-ascii (b'\n' ∷ []) (omega arith, tt))))

line_text :
    (p s : Bytes)
    → All (λ b. 0x20 ≤ b) p
    → All (λ b. 0x20 ≤ b) s
    → trim_line_ends (p ++ (s ++ (b'\n' ∷ []))) ≡ p ++ s
line_text p s hp hs =
    rw (sym (append_assoc p s (b'\n' ∷ []))) (trim_line_ends-line (p ++ s) (All-append _ p s hp hs))

no_prefix : (s : Bytes) → strip_prefix (codes "blake3:" ++ s) (codes "ref: ") ≡ none
unfolding strip_prefix
no_prefix s = refl

Lacks-no : (c : ℕ) (s dir rest : Bytes) → Lacks c s → s ≢ dir ++ (c ∷ rest)
Lacks-no c [] [] rest h e = cc
Lacks-no c [] (x ∷ dir) rest h e = cc
Lacks-no c (y ∷ s) [] rest h e = h.0 (cc)
Lacks-no c (y ∷ s) (x ∷ dir) rest h e = Lacks-no c s dir rest h.1 (cc)

-- No directory leads to HEAD.
write_at_head :
    (d : GytDir) (content : Bytes)
    → d.at head_path ≢ some directory
    → (d' : GytDir) × (atomic_write d head_path content ≡ ok d')
      × ((q : Bytes) → d'.at q ≡ (if eq_bytes head_path q then some (file content) else d.at q))
unfolding parents_of has
write_at_head d content free = atomic_write-ok d head_path content (record {
  above = λ dir rest e. absurd (Lacks-no b'/' head_path dir rest (omega arith) e);
  target = free;
})

-- Where HEAD is no directory, what `write_head` wrote `read_head` gives back, for an id and for a
-- valid name in UTF-8 without whitespace at its ends; and every other path reads as a reference as
-- before.
pub read_head-write_head :
    (d : GytDir) (head : Head) (other : Bytes)
    → d.at head_path ≢ some directory
    → IsHead head
    → other ≢ head_path
    → (d' : GytDir) × (write_head d head ≡ ok d')
      × (read_head d' ≡ ok head)
      × (read_ref d' other ≡ read_ref d other)
unfolding write_head read_head read_ref parse_head_text parse_head parse_detached
read_head-write_head d (symbolic name) other free (n, u, t) apart_from =
    let (d', e, now) = write_at_head d (codes "ref: " ++ (name ++ (b'\n' ∷ []))) free in
    (
      d',
      rw (accepted name n) e,
      rw
          (
            now head_path,
            eq_bytes_refl head_path,
            line_utf8 (codes "ref: ") name (IsUtf8-ascii (codes "ref: ") (omega arith)) u,
            line_text (codes "ref: ") name (omega arith) (ref_text name n.plain),
            strip_prefix-append (codes "ref: ") name,
            t,
            accepted name n,
          )
          refl,
      rw (now other, apart head_path other (λ e. apart_from (sym e))) refl,
    )
read_head-write_head d (detached id) other free h apart_from =
    let (d', e, now) = write_at_head d (codes "blake3:" ++ (to_hex id ++ (b'\n' ∷ []))) free in
    (
      d',
      e,
      rw
          (
            now head_path,
            eq_bytes_refl head_path,
            line_utf8 (codes "blake3:") (to_hex id) (IsUtf8-ascii (codes "blake3:") (omega arith))
                (IsUtf8-ascii (to_hex id) (visible-ascii (to_hex id) (hex-IsVisible id h))),
            line_text (codes "blake3:") (to_hex id) (omega arith)
                (visible_text (to_hex id) (hex-IsVisible id h)),
            no_prefix (to_hex id),
            strip_prefix-append (codes "blake3:") (to_hex id),
            trim-visible (to_hex id) (hex-nonempty id h) (hex-IsVisible id h),
            length-to_hex id,
            h.0,
            from_hex-to_hex id h,
          )
          refl,
      rw (now other, apart head_path other (λ e. apart_from (sym e))) refl,
    )
