-- ===== src/Object/Tree/RoundTrip.antt =====
-- src/object/tree.rs: `decode` reads back what `encode` wrote, sorted by name.
use gyt.Base.{
  ℕ, ◌≢◌, zero, suc, ◌+◌, ◌≤◌, ◌<◌, ◌≡◌, refl, ap, ◌∙◌, false, Option, none, some, List, [], ◌∷◌,
  ◌++◌, append_assoc, append-nil, arith, leb, All, length, length-append, ok,
}
use gyt.Text.Cuts.{Bytes, split_once}
use gyt.Text.Order.{
  sort_by, IsAscending, HasDistinctKeys, sort_by-All, sort_by-IsAscending, length-sort_by,
}
use gyt.Object.Tree.{
  TreeEntry, max_tree_entries, mode_text, encode_entry, encode_entries, encode, not_above,
  decode_entry, decode_loop, decode,
}
use gyt.Object.Tree.Entries.{IsValidEntry, Follows, decode_entry-encode_entry}

abbrev pub name_of : TreeEntry → Bytes
name_of e = e.name

-- Each name stands above the one before it, the first above `prev`.
abbrev pub Climbs : Option Bytes → List TreeEntry → Type 0
Climbs prev [] = Unit
Climbs prev (e ∷ es) = Follows prev e.name × Climbs (some e.name) es

pub IsAscending-Climbs :
    (e : TreeEntry) (es : List TreeEntry) → IsAscending name_of (e ∷ es) → Climbs (some e.name) es
unfolding not_above
IsAscending-Climbs e [] h = tt
IsAscending-Climbs e (f ∷ es) h = (rw h.0 refl, IsAscending-Climbs f es h.1)

Climbs-none : (es : List TreeEntry) → IsAscending name_of es → Climbs none es
unfolding not_above
Climbs-none [] h = tt
Climbs-none (e ∷ es) h = (refl, IsAscending-Climbs e es h)

under_cap : (n m : ℕ) → n < m → leb m n ≡ false
under_cap n m h = ground arith

pub length-encode_entry : (e : TreeEntry) → 0 < length (encode_entry e)
unfolding encode_entry
length-encode_entry e =
    omega (arith, length-append (mode_text e.mode) (b' ' ∷ (e.name ++ (0 ∷ e.hash))))

not_empty :
    (prev : Option Bytes) {e : TreeEntry} {rest : Bytes} → decode_entry prev [] ≢ ok (e, rest)
unfolding decode_entry split_once
not_empty prev h = cc

pub loop_step :
    (fuel : ℕ) (payload : Bytes) (prev : Option Bytes) (out : List TreeEntry) {e : TreeEntry}
    {rest : Bytes}
    → decode_entry prev payload ≡ ok (e, rest)
    → length out < max_tree_entries
    → decode_loop (suc fuel) payload prev out
      ≡ decode_loop fuel rest (some e.name) (out ++ (e ∷ []))
unfolding decode_loop
loop_step fuel [] prev out h cap = absurd (not_empty prev h)
loop_step fuel (b ∷ bs) prev out h cap = rw (under_cap (length out) max_tree_entries cap, h) refl

loop_round :
    (fuel : ℕ) (e : TreeEntry) (rest : Bytes) (prev : Option Bytes) (out : List TreeEntry)
    → IsValidEntry e
    → Follows prev e.name
    → length out < max_tree_entries
    → decode_loop (suc fuel) (encode_entry e ++ rest) prev out
      ≡ decode_loop fuel rest (some e.name) (out ++ (e ∷ []))
loop_round fuel e rest prev out v f cap =
    loop_step fuel _ prev out (decode_entry-encode_entry e prev rest v f) cap

decode_loop-encode_entries :
    (es : List TreeEntry) (fuel : ℕ) (prev : Option Bytes) (out : List TreeEntry)
    → All IsValidEntry es
    → Climbs prev es
    → length out + length es ≤ max_tree_entries
    → length (encode_entries es) ≤ fuel
    → decode_loop fuel (encode_entries es) prev out ≡ ok (out ++ es)
unfolding encode_entries
decode_loop-encode_entries [] fuel prev out v c cap enough =
    rw append-nil (unfold decode_loop in refl)
decode_loop-encode_entries (e ∷ es) zero prev out v c cap enough =
    absurd
      (omega (arith, length-encode_entry e, length-append (encode_entry e) (encode_entries es)))
decode_loop-encode_entries (e ∷ es) (suc fuel) prev out v c cap enough =
    loop_round fuel e (encode_entries es) prev out v.0 c.0 (omega arith)
    ∙ decode_loop-encode_entries es fuel (some e.name) (out ++ (e ∷ [])) v.1 c.1
        (omega (arith, length-append out (e ∷ [])))
        (omega (arith, length-encode_entry e, length-append (encode_entry e) (encode_entries es)))
    ∙ ap ok (append_assoc out (e ∷ []) es)

-- Valid entries with distinct names, in any order, come back sorted by name.
pub decode-encode_tree :
    (es : List TreeEntry)
    → All IsValidEntry es
    → HasDistinctKeys name_of es
    → length es ≤ max_tree_entries
    → decode (encode es) ≡ ok (sort_by name_of es)
unfolding decode encode
decode-encode_tree es v d cap =
    decode_loop-encode_entries (sort_by name_of es) _ none []
      (sort_by-All name_of IsValidEntry es v) (Climbs-none _ (sort_by-IsAscending name_of es d))
      (omega (arith, length-sort_by name_of es)) (omega arith)
