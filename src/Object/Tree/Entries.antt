-- ===== src/Object/Tree/Entries.antt =====
-- src/object/tree.rs: one entry, written and read.
use gyt.Base.{
  ℕ, ◌≢◌, stuck, le→ltb_false, not_false→true, ◌<◌, ◌≡◌, refl, sym, ap, ◌∙◌, true, false, not,
  Bool-cases, inl, inr, Option, some, ◌∷◌, ◌++◌, append_assoc, arith, ltb, ◌==◌, eq_of_not_ne,
  length, length-append, take, drop, take_left, drop_left, take-append-drop, ok, after_ok,
  after_some, after_test,
}
use mathlib.Core.Path.{ap₂, subst}
use gyt.Text.Cuts.{
  Bytes, eq_bytes, eq_bytes_refl, eq_bytes→eq, split_once, split_once-append, split_once-eq-some,
}
use gyt.Text.Utf8.{is_utf8, IsUtf8→is_utf8}
use gyt.Text.Radix.{from_str_radix, from_str_radix-print_radix}
use gyt.Text.Plain.{print_radix-IsPlain, IsPlain-Lacks, IsPlain-IsUtf8}
use gyt.Hash.{hash_len, from_bytes}
use gyt.Object.Tree.{
  TreeEntry, is_known_mode, u32_max, mode_text, validate_entry_name, encode_entry, not_above,
  decode_entry,
}
use gyt.Object.Tree.Names.{IsSafeName, validate_entry_name_iff, IsSafeName-Lacks}

-- An entry that the format can hold.
pub record IsValidEntry (e : TreeEntry) : Type 0 where
  pub known : is_known_mode e.mode ≡ true
  pub safe : IsSafeName e.name
  pub id : length e.hash ≡ hash_len

-- The name stands above the one before it.
abbrev pub Follows : Option Bytes → Bytes → Type 0
Follows prev name = not_above prev name ≡ false

known_small : (m : ℕ) → is_known_mode m ≡ true → m < 65536
unfolding is_known_mode
known_small m h = ground arith

module _ (m : ℕ) (known : is_known_mode m ≡ true) where
  mode_text-reads : from_str_radix 8 u32_max (mode_text m) ≡ some m
  mode_text-reads =
      from_str_radix-print_radix 8 u32_max 10 m (omega arith) (omega arith)
        (omega (arith, known_small m known)) (omega (arith, known_small m known))

-- `from_bytes` takes what has the right length.
from_bytes-eq-ok :
    (bs hash : Bytes) → from_bytes bs ≡ ok hash → (bs ≡ hash) × (length hash ≡ hash_len)
unfolding from_bytes
from_bytes-eq-ok bs hash h = elim (Bool-cases (not (length bs == hash_len))) [
  | inl wrong ↦ absurd (cc (rw wrong at h))
  | inr right ↦ let e : bs ≡ hash = cc (rw right at h) in (e, rw (← e) (eq_of_not_ne _ _ right))
]

pub from_bytes-ne-stuck : (bs : Bytes) → from_bytes bs ≢ stuck
unfolding from_bytes
from_bytes-ne-stuck bs h = elim (Bool-cases (not (length bs == hash_len))) [
  | inl wrong ↦ cc (rw wrong at h)
  | inr right ↦ cc (rw right at h)
]

from_bytes-ok : (bs : Bytes) → length bs ≡ hash_len → from_bytes bs ≡ ok bs
unfolding from_bytes
from_bytes-ok bs h = rw h refl

take_hash :
    (hash rest : Bytes)
    → length hash ≡ hash_len
    → (take hash_len (hash ++ rest) ≡ hash)
      × (drop hash_len (hash ++ rest) ≡ rest)
      × (ltb (length (hash ++ rest)) hash_len ≡ false)
take_hash hash rest h = (
  ap (λ n. take n (hash ++ rest)) (sym h) ∙ take_left hash rest,
  ap (λ n. drop n (hash ++ rest)) (sym h) ∙ drop_left hash rest,
  le→ltb_false _ _ (omega (arith, h, length-append hash rest)),
)

encode_entry-append :
    (e : TreeEntry) (rest : Bytes)
    → encode_entry e ++ rest ≡ mode_text e.mode ++ (b' ' ∷ (e.name ++ (0 ∷ (e.hash ++ rest))))
unfolding encode_entry
encode_entry-append e rest = simp append_assoc

-- An entry that was written is read back, with what follows it left over.
pub decode_entry-encode_entry :
    (e : TreeEntry) (prev : Option Bytes) (rest : Bytes)
    → IsValidEntry e
    → Follows prev e.name
    → decode_entry prev (encode_entry e ++ rest) ≡ ok (e, rest)
unfolding decode_entry
decode_entry-encode_entry e prev rest v f =
    let text = print_radix-IsPlain 8 11 e.mode (omega arith) (omega arith) in
    let (taken, left, long) = take_hash e.hash rest v.id in
    rw
      (
        encode_entry-append e rest,
        split_once-append b' ' _ _ (IsPlain-Lacks b' ' _ (omega arith) text),
        IsUtf8→is_utf8 _ (IsPlain-IsUtf8 _ text),
        mode_text-reads e.mode v.known,
        eq_bytes_refl (mode_text e.mode),
        v.known,
        split_once-append 0 e.name _ (IsSafeName-Lacks e.name v.safe.plain),
        (validate_entry_name_iff e.name).1 v.safe,
        f,
        long,
        taken,
        from_bytes-ok e.hash v.id,
        left,
      )
      refl

-- An entry that was read is valid, follows the name before it, and is written as it was read.
pub decode_entry-eq-ok :
    (prev : Option Bytes) (payload : Bytes) (e : TreeEntry) (rest : Bytes)
    → decode_entry prev payload ≡ ok (e, rest)
    → IsValidEntry e × Follows prev e.name × (payload ≡ encode_entry e ++ rest)
unfolding decode_entry
decode_entry-eq-ok prev payload e rest h =
    after_some (split_once b' ' payload) _ _ h λ first cut h₁.
      after_test (not (is_utf8 first.0)) _ _ h₁ λ valid h₂.
        after_some (from_str_radix 8 u32_max first.0) _ _ h₂ λ mode number h₃.
          after_test (not (eq_bytes first.0 (mode_text mode))) _ _ h₃ λ canonical h₄.
            after_test (not (is_known_mode mode)) _ _ h₄ λ known h₅.
              after_some (split_once 0 first.1) _ _ h₅ λ second cut' h₆.
                after_ok (validate_entry_name second.0) _ h₆ λ u safe h₇.
                  after_test (not_above prev second.0) _ _ h₇ λ above h₈.
                    after_test (ltb (length second.1) hash_len) _ _ h₈ λ long h₉.
                      after_ok (from_bytes (take hash_len second.1)) _ h₉ λ hash copied found.
                        let read : TreeEntry = record {
                          mode = mode;
                          name = second.0;
                          hash = hash;
                        } in
                        let value : read ≡ e = cc in
                        let left : drop hash_len second.1 ≡ rest = cc in
                        let (same, id) = from_bytes-eq-ok _ hash copied in
                        let text = eq_bytes→eq _ _ (not_false→true _ canonical) in
                        let tail : second.1 ≡ hash ++ rest =
                          sym (take-append-drop hash_len second.1) ∙ ap₂ ◌++◌ same left in
                        let whole = (split_once-eq-some b' ' payload first.0 first.1 cut).0 in
                        let inner = (split_once-eq-some 0 first.1 second.0 second.1 cut').0 in
                        subst
                          (λ x.
                            IsValidEntry x
                            × Follows prev x.name
                            × (payload ≡ encode_entry x ++ rest))
                          value
                          (
                            record {
                              known = not_false→true _ known;
                              safe = (validate_entry_name_iff second.0).0 safe;
                              id = id;
                            },
                            above,
                            cc (whole, inner, text, tail, encode_entry-append read rest),
                          )
