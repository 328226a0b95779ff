-- ===== src/Ticket/Keys.antt =====
-- src/net/ticket.rs: the keys of a key file.
use Prim.Native.Nat.{bit_and}
use gyt.Base.{
  ℕ, ◌/◌, ◌<◌, ◌≡◌, refl, Bool, true, false, not, ◌&&◌, Option, none, some, [], ◌∷◌, arith, ◌==◌,
  ==_iff, all_below, all_below_sound, All, ok, Bool-cases, inl, inr,
}
use gyt.Text.Cuts.{Bytes, IsByte}
use gyt.Hash.{ObjectId, IsObjectId, to_hex, hex_char}
use gyt.Hash.RoundTrip.{to_hex-IsHex, length-to_hex}
use gyt.RefsPolicy.Signatures.{hex_pair, hex_digit}
use gyt.Ticket.{Aead, parse_pairs, parse_key, load, is_inside}

abbrev is_some : Option ℕ → ℕ → Bool
is_some none b = false
is_some (some x) b = x == b

is_some_iff : (o : Option ℕ) (b : ℕ) → is_some o b ≡ true → o ≡ some b
is_some_iff none b h = absurd (cc)
is_some_iff (some x) b h = let e = (==_iff x b).0 h in cc

abbrev is_pair : Bytes → ℕ → Bool
is_pair (x ∷ y ∷ s) b = not (is_inside (x ∷ [])) && is_some (hex_pair x y) b
is_pair _ b = false

to_hex-is_pair : (b : ℕ) → b < 256 → is_pair (to_hex (b ∷ [])) b ≡ true
unfolding all_below to_hex hex_pair hex_digit
to_hex-is_pair b h = all_below_sound 256 (λ x. is_pair (to_hex (x ∷ [])) x) b refl h

pair_lem :
    (x y b : ℕ) (s bs : Bytes)
    → is_pair (x ∷ y ∷ []) b ≡ true
    → is_inside s ≡ false
    → parse_pairs s ≡ ok bs
    → parse_pairs (x ∷ y ∷ s) ≡ ok (b ∷ bs)
unfolding parse_pairs
pair_lem x y b s bs pair outside rest = elim (Bool-cases (is_inside (x ∷ []))) [
  | inl inside ↦ absurd (let k : false ≡ true = rw inside at pair in cc)
  | inr first ↦
      let e = is_some_iff (hex_pair x y) b (rw first at pair) in rw (first, outside, e, rest) refl
]

to_hex-is_inside : (bs : Bytes) → All IsByte bs → is_inside (to_hex bs) ≡ false
unfolding to_hex
to_hex-is_inside [] h = refl
to_hex-is_inside (b ∷ bs) h = let hex = to_hex-IsHex (b ∷ bs) h in ground (arith, hex.0)

parse_pairs-to_hex : (bs : Bytes) → All IsByte bs → parse_pairs (to_hex bs) ≡ ok bs
unfolding to_hex parse_pairs
parse_pairs-to_hex [] h = refl
parse_pairs-to_hex (b ∷ bs) h =
    pair_lem (hex_char (b / 16)) (hex_char (bit_and b 0x0f)) b (to_hex bs) bs (to_hex-is_pair b h.0)
      (to_hex-is_inside bs h.1) (parse_pairs-to_hex bs h.1)

-- A key of 32 bytes, printed as hexadecimal digits, is read back.
parse_key-to_hex : (key : ObjectId) → IsObjectId key → parse_key (to_hex key) ≡ ok key
unfolding parse_key
parse_key-to_hex key w = rw (length-to_hex key, w.0) (parse_pairs-to_hex key w.1)

module _ {Cipher : Type 0} (aead : Aead Cipher) where
  -- Two lines with the digits of two keys load as the current and the previous cipher.
  load-to_hex :
      (new old : ObjectId)
      → IsObjectId new
      → IsObjectId old
      → load aead (to_hex new ∷ to_hex old ∷ [])
        ≡ ok (record { current = aead.new new; previous = some (aead.new old) })
  unfolding load
  load-to_hex new old n o = rw (parse_key-to_hex new n, parse_key-to_hex old o) refl
