-- ===== src/Object/Store/Framing.antt =====
-- src/object/store.rs: `build_raw` and `parse_raw`.
use gyt.Base.{
  ◌≤◌, ◌≡◌, refl, true, not, some, ◌∷◌, ◌++◌, arith, ◌==◌, ==_iff, eq_of_not_ne, All, All-append,
  length, ok, after_ok, after_test, after_some,
}
use gyt.Text.Cuts.{Bytes, Lacks, split_once, split_once-append, split_once-eq-some}
use gyt.Text.Utf8.{is_utf8, IsUtf8→is_utf8, IsUtf8-ascii}
use gyt.Text.Radix.{print_radix, from_str_radix, from_str_radix-print_radix}
use gyt.Text.Plain.{IsPlain, print_radix-IsPlain, IsPlain-Lacks, IsPlain-ascii}
use gyt.Object.{
  ObjectKind, blob, tree, commit, tag, as_str, parse_kind, parse_kind-as_str, parse_kind-eq-ok,
}
use gyt.Object.Store.{build_raw, parse_raw, usize_max}

-- The size of a payload as the header prints it.
abbrev size_text : Bytes → Bytes
size_text payload = print_radix 10 20 (length payload)

size_text-IsPlain : (payload : Bytes) → All IsPlain (size_text payload)
size_text-IsPlain payload = print_radix-IsPlain 10 20 (length payload) (omega arith) (omega arith)

as_str-IsPlain : (k : ObjectKind) → All IsPlain (as_str k)
as_str-IsPlain blob = omega arith
as_str-IsPlain tree = omega arith
as_str-IsPlain commit = omega arith
as_str-IsPlain tag = omega arith

header_Lacks : (k : ObjectKind) (p : Bytes) → Lacks 0 (as_str k ++ (b' ' ∷ size_text p))
header_Lacks k p =
    All-append _ (as_str k) _ (IsPlain-Lacks 0 _ (omega arith) (as_str-IsPlain k))
      (omega arith, IsPlain-Lacks 0 _ (omega arith) (size_text-IsPlain p))

header_utf8 : (k : ObjectKind) (p : Bytes) → is_utf8 (as_str k ++ (b' ' ∷ size_text p)) ≡ true
header_utf8 k p = IsUtf8→is_utf8 _ (
    IsUtf8-ascii _ (
      All-append _ (as_str k) _ (IsPlain-ascii _ (as_str-IsPlain k))
        (omega arith, IsPlain-ascii _ (size_text-IsPlain p))))

-- What `build_raw` frames, `parse_raw` takes apart, for every payload whose length is a `usize`.
pub parse_raw-build_raw :
    (k : ObjectKind) (p : Bytes) → length p ≤ usize_max → parse_raw (build_raw k p) ≡ ok (k, p)
unfolding parse_raw build_raw
parse_raw-build_raw k p h =
    rw
      (
        split_once-append 0 _ p (header_Lacks k p),
        header_utf8 k p,
        split_once-append b' ' (as_str k) (size_text p)
            (IsPlain-Lacks _ _ (omega arith) (as_str-IsPlain k)),
        parse_kind-as_str k,
        from_str_radix-print_radix 10 usize_max 19 (length p) (omega arith) (omega arith)
            (omega arith) h,
        (==_iff (length p) (length p)).1 refl,
      )
      refl

-- Whatever `parse_raw` accepts is a kind, a space, a text that parses as the payload's length, a
-- NUL and the payload.
pub parse_raw-eq-ok :
    (raw : Bytes) (k : ObjectKind) (p : Bytes)
    → parse_raw raw ≡ ok (k, p)
    → (size : Bytes) × (raw ≡ (as_str k ++ (b' ' ∷ size)) ++ (0 ∷ p))
      × (from_str_radix 10 usize_max size ≡ some (length p))
unfolding parse_raw
parse_raw-eq-ok raw k p h = after_some (split_once 0 raw) _ _ h λ parts cut h₁.
    after_test (not (is_utf8 parts.0)) _ _ h₁ λ valid h₂.
      after_some (split_once b' ' parts.0) _ _ h₂ λ words cut' h₃.
        after_ok (parse_kind words.0) _ h₃ λ kind known h₄.
          after_some (from_str_radix 10 usize_max words.1) _ _ h₄ λ size number h₅.
            after_test (not (length parts.1 == size)) _ _ h₅ λ fits e.
              let whole = (split_once-eq-some 0 raw parts.0 parts.1 cut).0 in
              let head = (split_once-eq-some b' ' parts.0 words.0 words.1 cut').0 in
              let kind_name = parse_kind-eq-ok words.0 kind known in
              let same : length parts.1 ≡ size = eq_of_not_ne _ _ fits in
              let kinds : kind ≡ k = cc in let payloads : parts.1 ≡ p = cc in (words.1, cc, cc)
