-- ===== src/Object/Tree/Canonical.antt =====
-- src/object/tree.rs: whatever bytes arrive, `decode` accepts a tree only in its one encoding.
use gyt.Base.{
  ℕ, not, ltb, take, not_false→true, >>=-ne-stuck, refuse_if-ne-stuck, ok_or-ne-stuck, ok_or, zero,
  suc, ◌≤◌, ◌≡◌, refl, sym, ap, ◌∙◌, ◌≢◌, Option, none, some, List, [], ◌∷◌, ◌++◌, append_assoc,
  append-nil, arith, leb, All, length, length-append, ok, stuck, refuse_if, after_ok, after_test,
}
use gyt.Text.Cuts.{Bytes, split_once, eq_bytes}
use gyt.Text.Utf8.{is_utf8}
use gyt.Text.Radix.{from_str_radix}
use gyt.Hash.{hash_len, from_bytes}
use gyt.Text.Order.{IsAscending, sort_by_ascending}
use gyt.Object.Tree.{
  TreeEntry, u32_max, mode_text, is_known_mode, validate_entry_name, max_tree_entries, encode_entry,
  encode_entries, encode, not_above, decode_entry, decode_loop, decode,
}
use gyt.Object.Tree.Names.{validate_entry_name-ne-stuck}
use gyt.Object.Tree.Entries.{from_bytes-ne-stuck, IsValidEntry, decode_entry-eq-ok}
use gyt.Object.Tree.RoundTrip.{name_of, Climbs, length-encode_entry}

Climbs-IsAscending :
    (e : TreeEntry) (es : List TreeEntry) → Climbs (some e.name) es → IsAscending name_of (e ∷ es)
unfolding not_above
Climbs-IsAscending e [] h = tt
Climbs-IsAscending e (f ∷ es) h = (not_false→true _ h.0, Climbs-IsAscending f es h.1)

ascending : (prev : Option Bytes) (es : List TreeEntry) → Climbs prev es → IsAscending name_of es
ascending prev [] h = tt
ascending prev (e ∷ es) h = Climbs-IsAscending e es h.1

-- What a run of the loop over `payload` appended.
record Reads (payload : Bytes) (prev : Option Bytes) (out entries : List TreeEntry) : Type 0 where
  new : List TreeEntry
  appended : entries ≡ out ++ new
  valid : All IsValidEntry new
  climbs : Climbs prev new
  written : payload ≡ encode_entries new

longer :
    (e : TreeEntry) (new : List TreeEntry) {payload rest : Bytes}
    → payload ≡ encode_entry e ++ rest
    → rest ≡ encode_entries new
    → payload ≡ encode_entries (e ∷ new)
unfolding encode_entries
longer e new p q = p ∙ ap (λ t. encode_entry e ++ t) q

decode_loop-eq-ok :
    (fuel : ℕ) (payload : Bytes) (prev : Option Bytes) (out entries : List TreeEntry)
    → decode_loop fuel payload prev out ≡ ok entries
    → Reads payload prev out entries
unfolding decode_loop
decode_loop-eq-ok fuel [] prev out entries h = record {
  new = [];
  appended = end;
  valid = tt;
  climbs = tt;
  written = unfold encode_entries in refl;
}
  where
    end : entries ≡ out ++ []
    end = rw append-nil (cc)
decode_loop-eq-ok zero (b ∷ bs) prev out entries h = absurd (cc)
decode_loop-eq-ok (suc fuel) (b ∷ bs) prev out entries h =
    after_test (leb max_tree_entries (length out)) _ _ h λ cap h₁.
      after_ok (decode_entry prev (b ∷ bs)) _ h₁ λ part one h₂.
        let (v, f, w) = decode_entry-eq-ok prev (b ∷ bs) part.0 part.1 one in
        let later =
          decode_loop-eq-ok fuel part.1 (some part.0.name) (out ++ (part.0 ∷ [])) entries h₂ in
        record {
          new = part.0 ∷ later.new;
          appended = later.appended ∙ append_assoc out (part.0 ∷ []) later.new;
          valid = (v, later.valid);
          climbs = (f, later.climbs);
          written = longer part.0 later.new w later.written;
        }

-- A payload that `decode` accepts is the encoding of its entries, which are valid and strictly
-- ascending by name. So no two payloads decode to the same tree.
pub decode-eq-ok_tree :
    (payload : Bytes) (es : List TreeEntry)
    → decode payload ≡ ok es
    → (encode es ≡ payload) × All IsValidEntry es × IsAscending name_of es
unfolding decode
decode-eq-ok_tree payload es h =
    let r = decode_loop-eq-ok (length payload) payload none [] es h in
    let up : IsAscending name_of es = rw r.appended (ascending none r.new r.climbs) in
    (
      unfold encode in
          ap encode_entries (sort_by_ascending name_of es up ∙ r.appended) ∙ sym r.written,
      rw r.appended r.valid,
      up,
    )

chain : (prev : Option Bytes) (payload : Bytes) → decode_entry prev payload ≢ stuck
unfolding decode_entry
chain prev payload =
    >>=-ne-stuck (ok_or (split_once b' ' payload) _) _ (ok_or-ne-stuck _ _) λ first _.
      >>=-ne-stuck (refuse_if (not (is_utf8 first.0)) _) _ (refuse_if-ne-stuck _ _) λ _ _.
        >>=-ne-stuck (ok_or (from_str_radix 8 u32_max first.0) _) _ (ok_or-ne-stuck _ _) λ mode _.
          >>=-ne-stuck (refuse_if (not (eq_bytes first.0 (mode_text mode))) _) _
            (refuse_if-ne-stuck _ _)
            λ _ _.
              >>=-ne-stuck (refuse_if (not (is_known_mode mode)) _) _ (refuse_if-ne-stuck _ _)
                λ _ _.
                  >>=-ne-stuck (ok_or (split_once 0 first.1) _) _ (ok_or-ne-stuck _ _) λ second _.
                    >>=-ne-stuck (validate_entry_name second.0) _
                      (validate_entry_name-ne-stuck second.0)
                      λ _ _.
                        >>=-ne-stuck (refuse_if (not_above prev second.0) _) _
                          (refuse_if-ne-stuck _ _)
                          λ _ _.
                            >>=-ne-stuck (refuse_if (ltb (length second.1) hash_len) _) _
                              (refuse_if-ne-stuck _ _)
                              λ _ _.
                                >>=-ne-stuck (from_bytes (take hash_len second.1)) _
                                  (from_bytes-ne-stuck _) λ _ _ e. cc

decode_loop-ne-stuck :
    (fuel : ℕ) (payload : Bytes) (prev : Option Bytes) (out : List TreeEntry)
    → length payload ≤ fuel
    → decode_loop fuel payload prev out ≢ stuck
unfolding decode_loop
decode_loop-ne-stuck fuel [] prev out h = λ e. cc
decode_loop-ne-stuck zero (b ∷ bs) prev out h = absurd (omega arith)
decode_loop-ne-stuck (suc fuel) (b ∷ bs) prev out h =
    >>=-ne-stuck (refuse_if (leb max_tree_entries (length out)) _) _ (refuse_if-ne-stuck _ _) λ _ _.
      >>=-ne-stuck (decode_entry prev (b ∷ bs)) _ (chain prev (b ∷ bs)) λ part one.
        let w = (decode_entry-eq-ok prev (b ∷ bs) part.0 part.1 one).2 in
        decode_loop-ne-stuck fuel part.1 (some part.0.name) (out ++ (part.0 ∷ [])) (
          omega (
            arith,
            ap length w,
            length-append (encode_entry part.0) part.1,
            length-encode_entry part.0,
          ))

-- `decode` ends on every payload.
pub decode-ne-stuck_tree : (payload : Bytes) → decode payload ≢ stuck
unfolding decode
decode-ne-stuck_tree payload = decode_loop-ne-stuck (length payload) payload none [] (omega arith)
