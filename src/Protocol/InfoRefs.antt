-- ===== src/Protocol/InfoRefs.antt =====
-- src/net/protocol.rs: the list of references.
use gyt.Base.{
  ℕ, ◌+◌, ◌≤◌, ◌<◌, ◌≡◌, refl, ap, ◌∙◌, ◌≢◌, false, some, List, [], ◌∷◌, ◌++◌, append_assoc,
  append-nil, arith, leb, le→ltb_false, All, All-append, length, length-append, ok,
}
use gyt.Text.Cuts.{Bytes, Lacks, split_once, split_once-append}
use gyt.Text.Lines.{split_inclusive}
use gyt.Text.Utf8.{IsUtf8, IsUtf8→is_utf8, IsUtf8-append, IsUtf8-ascii}
use gyt.Hash.{IsObjectId, to_hex}
use gyt.Hash.RoundTrip.{to_hex-IsHex, from_hex-to_hex}
use gyt.Protocol.{
  RefEntry, info_line, encode_info_refs, max_info_refs_entries, max_info_ref_name_len, was_seen,
  parse_info_ref, parse_info_refs, each_line,
}
use gyt.Protocol.Updates.{
  each_line-line, line_feed, named, empty_split, IsHex-Lacks_tab, IsHex-Lacks_line, IsHex-ascii,
}

-- A reference that one line can carry.
pub record IsEntry (r : RefEntry) : Type 0 where
  pub id : IsObjectId r.id
  pub nonempty : r.name ≢ []
  pub short : length r.name ≤ max_info_ref_name_len
  pub one_line : Lacks b'\n' r.name
  pub utf8 : IsUtf8 r.name

-- No name is among `seen` or occurs twice.
abbrev pub AreNew : List Bytes → List RefEntry → Type 0
AreNew seen [] = Unit
AreNew seen (r ∷ rs) = (was_seen r.name seen ≡ false) × AreNew (r.name ∷ seen) rs

parse_info_ref-info_line :
    (out : List RefEntry) (seen : List Bytes) (r : RefEntry)
    → IsEntry r
    → was_seen r.name seen ≡ false
    → leb max_info_refs_entries (length out) ≡ false
    → parse_info_ref (out, seen) (info_line r) ≡ ok (out ++ (r ∷ []), r.name ∷ seen)
unfolding info_line
parse_info_ref-info_line out seen r w new room =
    go _
      (split_once-append b'\t' (to_hex r.id) r.name (IsHex-Lacks_tab _ (to_hex-IsHex r.id w.id.1)))
  where
    go :
        (s : Bytes)
        → split_once b'\t' s ≡ some (to_hex r.id, r.name)
        → parse_info_ref (out, seen) s ≡ ok (out ++ (r ∷ []), r.name ∷ seen)
    go [] cut = absurd (empty_split cut)
    go (b ∷ s) cut =
        unfold parse_info_ref in
        rw
          (
            room,
            cut,
            named r.name w.nonempty,
            le→ltb_false max_info_ref_name_len (length r.name) w.short,
            new,
            from_hex-to_hex r.id w.id,
          )
          refl

info_line-one_line : (r : RefEntry) → IsEntry r → Lacks b'\n' (info_line r) × IsUtf8 (info_line r)
unfolding info_line
info_line-one_line r w =
    let hex = to_hex-IsHex r.id w.id.1 in
    (
      All-append _ (to_hex r.id) _ (IsHex-Lacks_line _ hex)
          ((λ e. absurd (omega (arith, e))), w.one_line),
      IsUtf8-append (to_hex r.id) _ (IsUtf8-ascii _ (IsHex-ascii _ hex))
          (IsUtf8-append (b'\t' ∷ []) r.name (IsUtf8-ascii (b'\t' ∷ []) (omega arith, tt)) w.utf8),
    )

under_cap : (n m : ℕ) → n < m → leb m n ≡ false
under_cap n m h = ground arith

info_lem :
    (rs out : List RefEntry) (seen : List Bytes)
    → All IsEntry rs
    → AreNew seen rs
    → length out + length rs ≤ max_info_refs_entries
    → ((seen' : List Bytes) × (each_line parse_info_ref
            (out, seen)
            (split_inclusive b'\n' (encode_info_refs rs))
          ≡ ok (out ++ rs, seen')))
      × IsUtf8 (encode_info_refs rs)
unfolding encode_info_refs
info_lem [] out seen h new cap =
    ((seen, rw (append-nil out) (unfold each_line split_inclusive in refl)), IsUtf8-ascii [] tt)
info_lem (r ∷ rs) out seen h new cap =
    let ((seen', parsed), valid) =
      info_lem rs (out ++ (r ∷ [])) (r.name ∷ seen) h.1 new.1
        (omega (arith, cap, length-append out (r ∷ []))) in
    let (one_line, utf8) = info_line-one_line r h.0 in
    (
      (
        seen',
        each_line-line parse_info_ref (out, seen) (out ++ (r ∷ []), r.name ∷ seen) (info_line r)
              (encode_info_refs rs) one_line
              (parse_info_ref-info_line out seen r h.0 new.0
                (under_cap (length out) max_info_refs_entries (omega (arith, cap))))
            ∙ parsed
            ∙ ap (λ t. ok (t, seen')) (append_assoc out (r ∷ []) rs),
      ),
      line_feed (info_line r) (encode_info_refs rs) utf8 valid,
    )

-- At most 1,000,000 references with different names, each with an id of 32 bytes and a name of 1 to
-- 1024 bytes of UTF-8 without a line feed, are parsed back from their encoding, in order.
pub parse_info_refs-encode_info_refs :
    (rs : List RefEntry)
    → All IsEntry rs
    → AreNew [] rs
    → length rs ≤ max_info_refs_entries
    → parse_info_refs (encode_info_refs rs) ≡ ok rs
unfolding parse_info_refs
parse_info_refs-encode_info_refs rs h new cap =
    let ((seen, parsed), valid) = info_lem rs [] [] h new (omega (arith, cap)) in
    rw (IsUtf8→is_utf8 _ valid, parsed) refl
