-- ===== src/Refs/Lines.antt =====
-- src/refs.rs: the line of a reference's file is read back.
use gyt.Base.{
  ◌<◌, ◌≡◌, refl, ap, ◌≢◌, true, false, inl, inr, [], ◌∷◌, ◌++◌, arith, All, All-append, length, ok,
  Bool-cases,
}
use gyt.Text.Cuts.{Bytes, eq_bytes, eq_bytes→eq}
use gyt.Text.Utf8.{is_utf8, IsUtf8→is_utf8, IsUtf8-ascii}
use gyt.Text.Trim.{IsVisible, trim-line}
use gyt.Hash.{ObjectId, IsObjectId, to_hex}
use gyt.Hash.RoundTrip.{IsHex, to_hex-IsHex, from_hex-to_hex, length-to_hex}
use gyt.Refs.{validate_ref_name, parse_ref}
use gyt.Refs.Names.{IsRefName, validate_ref_name_iff}

IsHex-IsVisible : (s : Bytes) → All IsHex s → All IsVisible s
IsHex-IsVisible [] h = tt
IsHex-IsVisible (b ∷ s) h = ((omega (arith, h.0.0), omega (arith, h.0.1)), IsHex-IsVisible s h.1)

pub visible-ascii : (s : Bytes) → All IsVisible s → All (λ b. b < 128) s
visible-ascii [] h = tt
visible-ascii (b ∷ s) h = (omega (arith, h.0.1), visible-ascii s h.1)

pub hex-IsVisible : (id : ObjectId) → IsObjectId id → All IsVisible (to_hex id)
hex-IsVisible id h = IsHex-IsVisible (to_hex id) (to_hex-IsHex id h.1)

pub hex-nonempty : (id : ObjectId) → IsObjectId id → to_hex id ≢ []
hex-nonempty id h e = absurd (omega (arith, length-to_hex id, h.0, ap length e))

ascii_line : (s : Bytes) → All IsVisible s → is_utf8 (s ++ (b'\n' ∷ [])) ≡ true
ascii_line s h =
    IsUtf8→is_utf8 _ (IsUtf8-ascii _ (All-append _ s _ (visible-ascii s h) (omega arith, tt)))

pub parse_ref-line : (id : ObjectId) → IsObjectId id → parse_ref (to_hex id ++ (b'\n' ∷ [])) ≡ ok id
unfolding parse_ref
parse_ref-line id h =
    rw
      (
        ascii_line (to_hex id) (hex-IsVisible id h),
        trim-line (to_hex id) (hex-nonempty id h) (hex-IsVisible id h),
        length-to_hex id,
        h.0,
        from_hex-to_hex id h,
      )
      refl

pub accepted : (name : Bytes) → IsRefName name → validate_ref_name name ≡ ok tt
accepted name n = (validate_ref_name_iff name).1 n

pub apart : (xs ys : Bytes) → xs ≢ ys → eq_bytes xs ys ≡ false
apart xs ys n = elim (Bool-cases (eq_bytes xs ys)) [
  | inl e ↦ absurd (n (eq_bytes→eq xs ys e))
  | inr e ↦ e
]
