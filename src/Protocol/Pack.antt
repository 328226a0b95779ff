-- ===== src/Protocol/Pack.antt =====
-- src/net/protocol.rs: packs of length-prefixed entries.
use gyt.Base.{
  ℕ, zero, suc, ◌+◌, ◌/◌, ◌%◌, ◌^◌, ◌≤◌, ◌<◌, ◌≡◌, refl, sym, ap, ◌∙◌, ◌≢◌, false, some, List, [],
  ◌∷◌, ◌++◌, map, append_assoc, append-nil, arith, ltb, lt→ltb, leb, le→ltb_false, ◌==◌, All,
  length, length-append, length-drop, drop, take_left, drop_left, ok, stuck, refuse_if,
  >>=-ne-stuck, refuse_if-ne-stuck, after_test,
}
use gyt.Text.Cuts.{Bytes}
use gyt.Compress.{Xz, max_decompressed_bytes}
use gyt.Compress.RoundTrip.{xz_decode_raw-write}
use gyt.Protocol.{
  PackEntry, to_le_bytes, from_le_bytes, encode_pack, before_rest, max_pack_entries, zero_id,
  parse_pack_entry, parse_pack_loop, parse_pack, packfile_version_xz, encode_packfile,
  parse_packfile,
}

-- The entry has bytes, and a `u32` counts them.
abbrev pub IsPackable : PackEntry → Type 0
IsPackable e = (0 < length e.bytes) × (length e.bytes < 2 ^ 32)

-- What the parser makes of an entry: it does not compute the id.
abbrev pub without_id : PackEntry → PackEntry
without_id e = record { id = zero_id; bytes = e.bytes }

le_bytes_lem :
    (n : ℕ)
    → n < 2 ^ 32
    → from_le_bytes (n % 256) (n / 256 % 256) (n / 65536 % 256) (n / 16777216 % 256) ≡ n
le_bytes_lem n h = omega arith

not_empty : (n : ℕ) → 0 < n → (n == 0) ≡ false
not_empty n h = ground arith

under_cap : (n m : ℕ) → n < m → leb m n ≡ false
under_cap n m h = ground arith

parse_pack_entry-append :
    (count : ℕ) (e : PackEntry) (rest : Bytes)
    → IsPackable e
    → count < max_pack_entries
    → parse_pack_entry count (to_le_bytes (length e.bytes) ++ (e.bytes ++ rest))
      ≡ ok (e.bytes, rest)
unfolding parse_pack_entry
parse_pack_entry-append count e rest h room =
    rw
      (
        le_bytes_lem (length e.bytes) h.1,
        not_empty (length e.bytes) h.0,
        length-append e.bytes rest,
        le→ltb_false (length e.bytes + length rest) (length e.bytes) (omega arith),
        under_cap count max_pack_entries room,
        take_left e.bytes rest,
        drop_left e.bytes rest,
      )
      refl

round :
    (fuel : ℕ) (e : PackEntry) (rest : Bytes) (out : List PackEntry)
    → IsPackable e
    → length out < max_pack_entries
    → parse_pack_loop (suc fuel) (to_le_bytes (length e.bytes) ++ (e.bytes ++ rest)) out
      ≡ parse_pack_loop fuel rest (out ++ (without_id e ∷ []))
unfolding parse_pack_loop
round fuel e rest out h room = rw (parse_pack_entry-append (length out) e rest h room) refl

-- The encoder's cases: the first entry fits and the others are encoded.
encode_pack-cons :
    (e : PackEntry) (es : List PackEntry)
    → IsPackable e
    → encode_pack (e ∷ es) ≡ before_rest (to_le_bytes (length e.bytes) ++ e.bytes) (encode_pack es)
unfolding encode_pack
encode_pack-cons e es h = rw (lt→ltb (length e.bytes) (2 ^ 32) h.1) refl

loop_lem :
    (es : List PackEntry)
    → All IsPackable es
    → (body : Bytes) × (encode_pack es ≡ some body)
      × ((fuel : ℕ) (out : List PackEntry)
          → length body ≤ fuel
          → length out + length es ≤ max_pack_entries
          → parse_pack_loop fuel body out ≡ ok (out ++ map without_id es))
loop_lem [] h = (
  [],
  unfold encode_pack in refl,
  λ fuel out enough cap. rw (append-nil out) (unfold parse_pack_loop in refl),
)
loop_lem (e ∷ es) h =
    let (body, encoded, parsed) = loop_lem es h.1 in
    (
      to_le_bytes (length e.bytes) ++ (e.bytes ++ body),
      encode_pack-cons e es h.0
          ∙ ap (before_rest (to_le_bytes (length e.bytes) ++ e.bytes)) encoded,
      λ fuel out enough cap. step e es body h.0 parsed fuel out enough cap,
    )
  where
    step :
        (e : PackEntry) (es : List PackEntry) (body : Bytes)
        → IsPackable e
        → ((fuel : ℕ) (out : List PackEntry)
            → length body ≤ fuel
            → length out + length es ≤ max_pack_entries
            → parse_pack_loop fuel body out ≡ ok (out ++ map without_id es))
        → (fuel : ℕ) (out : List PackEntry)
        → length (to_le_bytes (length e.bytes) ++ (e.bytes ++ body)) ≤ fuel
        → length out + length (e ∷ es) ≤ max_pack_entries
        → parse_pack_loop fuel (to_le_bytes (length e.bytes) ++ (e.bytes ++ body)) out
          ≡ ok (out ++ map without_id (e ∷ es))
    step e es body p parsed zero out enough cap = absurd (omega arith)
    step e es body p parsed (suc fuel) out enough cap =
        round fuel e body out p (omega arith)
        ∙ parsed fuel (out ++ (without_id e ∷ [])) (omega (arith, length-append e.bytes body))
            (omega (arith, length-append out (without_id e ∷ [])))
        ∙ ap ok (append_assoc out (without_id e ∷ []) (map without_id es))

-- Entries that are not empty, that fit a `u32` each, and at most 1,000,000 of them, are encoded
-- without a panic and parsed back, in order, with the same bytes and no id.
pub parse_pack-encode_pack :
    (es : List PackEntry)
    → All IsPackable es
    → length es ≤ max_pack_entries
    → (body : Bytes) × (encode_pack es ≡ some body) × (parse_pack body ≡ ok (map without_id es))
unfolding parse_pack
parse_pack-encode_pack es h cap =
    let (body, encoded, parsed) = loop_lem es h in
    (body, encoded, parsed (length body) [] (omega arith) (omega (arith, cap)))

parse_pack_entry-shorter :
    (count : ℕ) (body bytes rest : Bytes)
    → parse_pack_entry count body ≡ ok (bytes, rest)
    → length rest < length body
unfolding parse_pack_entry
parse_pack_entry-shorter count [] bytes rest h = absurd (cc)
parse_pack_entry-shorter count (a ∷ []) bytes rest h = absurd (cc)
parse_pack_entry-shorter count (a ∷ b ∷ []) bytes rest h = absurd (cc)
parse_pack_entry-shorter count (a ∷ b ∷ c ∷ []) bytes rest h = absurd (cc)
parse_pack_entry-shorter count (a ∷ b ∷ c ∷ d ∷ s) bytes rest h =
    after_test (from_le_bytes a b c d == 0) _ _ h λ h₁ k₁.
      after_test (ltb (length s) (from_le_bytes a b c d)) _ _ k₁ λ h₂ k₂.
        after_test (leb max_pack_entries count) _ _ k₂ λ h₃ k₃.
          let e : drop (from_le_bytes a b c d) s ≡ rest = cc in
          omega (arith, length-drop (from_le_bytes a b c d) s, ap length e)

parse_pack_entry-ne-stuck : (count : ℕ) (body : Bytes) → parse_pack_entry count body ≢ stuck
unfolding parse_pack_entry
parse_pack_entry-ne-stuck count [] = λ h. cc
parse_pack_entry-ne-stuck count (a ∷ []) = λ h. cc
parse_pack_entry-ne-stuck count (a ∷ b ∷ []) = λ h. cc
parse_pack_entry-ne-stuck count (a ∷ b ∷ c ∷ []) = λ h. cc
parse_pack_entry-ne-stuck count (a ∷ b ∷ c ∷ d ∷ s) =
    >>=-ne-stuck (refuse_if (from_le_bytes a b c d == 0) _) _ (refuse_if-ne-stuck _ _) λ _ _.
      >>=-ne-stuck (refuse_if (ltb (length s) (from_le_bytes a b c d)) _) _ (refuse_if-ne-stuck _ _)
        λ _ _.
          >>=-ne-stuck (refuse_if (leb max_pack_entries count) _) _ (refuse_if-ne-stuck _ _)
            λ _ _ e. cc

parse_pack_loop-ne-stuck :
    (fuel : ℕ) (body : Bytes) (out : List PackEntry)
    → length body ≤ fuel
    → parse_pack_loop fuel body out ≢ stuck
unfolding parse_pack_loop
parse_pack_loop-ne-stuck fuel [] out h = λ e. cc
parse_pack_loop-ne-stuck zero (b ∷ body) out h = absurd (omega arith)
parse_pack_loop-ne-stuck (suc fuel) (b ∷ body) out h =
    >>=-ne-stuck (parse_pack_entry (length out) (b ∷ body)) _ (parse_pack_entry-ne-stuck _ _)
      λ part one.
        parse_pack_loop-ne-stuck fuel part.1 (out ++ (record { id = zero_id; bytes = part.0 } ∷ []))
          (omega (arith, parse_pack_entry-shorter (length out) (b ∷ body) part.0 part.1 one))

-- `parse_pack` ends on every body, well formed or not.
pub parse_pack-ne-stuck : (body : Bytes) → parse_pack body ≢ stuck
unfolding parse_pack
parse_pack-ne-stuck body = parse_pack_loop-ne-stuck (length body) body [] (omega arith)

-- Entries whose pack is within the bound on decompression come back from the packfile that holds
-- them, under the conditions of a pack.
parse_packfile-encode_packfile :
    (xz : Xz) (es : List PackEntry) (body : Bytes)
    → All IsPackable es
    → length es ≤ max_pack_entries
    → encode_pack es ≡ some body
    → length body ≤ max_decompressed_bytes
    → (file : Bytes) × (encode_packfile xz es ≡ some file)
      × (parse_packfile xz file ≡ ok (map without_id es))
unfolding encode_packfile parse_packfile
parse_packfile-encode_packfile xz es body h cap encoded small =
    let (body', encoded', parsed) = parse_pack-encode_pack es h cap in
    let same : body' ≡ body = some_inj (sym encoded' ∙ encoded) in
    (
      packfile_version_xz ∷ xz.write body,
      rw encoded refl,
      rw (xz_decode_raw-write xz body small) (rw (sym same) parsed),
    )
  where
    some_inj : {a b : Bytes} → some a ≡ some b → a ≡ b
    some_inj e = cc
