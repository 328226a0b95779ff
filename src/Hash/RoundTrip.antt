-- ===== src/Hash/RoundTrip.antt =====
-- src/hash.rs: `to_hex` and `from_hex` undo one another, up to the case of the digits.
use Prim.Native.Nat.{bit_and, bit_or}
use gyt.Base.{
  ℕ, eq_of_not_ne, zero, suc, ◌⊎◌, ◌+◌, ◌*◌, ◌/◌, ◌%◌, ◌≤◌, ◌<◌, ◌≡◌, refl, ap, Bool, true, false,
  not, ◌&&◌, [], ◌∷◌, map, arith, leb, ◌==◌, ==_iff, if◌then◌else◌, all_below, all_below_sound, All,
  length, Result, ok, err, stuck, after_ok, after_test,
}
use gyt.Text.Cuts.{Bytes, IsByte}
use gyt.Hash.{
  ObjectId, IsObjectId, hex_nibble, hex_char, hex_byte, hex_bytes, from_hex, to_hex, hash_len,
  hex_len,
}

low_nibble : (b : ℕ) → b < 256 → bit_and b 0x0f ≡ b % 16
unfolding all_below
low_nibble b h = (==_iff _ _).0 (all_below_sound 256 (λ x. bit_and x 0x0f == x % 16) b refl h)

join_nibbles : (x : ℕ) → x < 256 → bit_or (x / 16 * 16 % 256) (x % 16) ≡ x
unfolding all_below
join_nibbles x h =
    (==_iff _ _).0 (all_below_sound 256 (λ y. bit_or (y / 16 * 16 % 256) (y % 16) == y) x refl h)

abbrev gives : Result ℕ → ℕ → Bool
gives (ok x) b = x == b
gives _ b = false

gives_iff : (r : Result ℕ) (b : ℕ) → gives r b ≡ true → r ≡ ok b
gives_iff (ok x) b h = ap ok ((==_iff x b).0 h)
gives_iff (err e) b h = cc
gives_iff stuck b h = cc

hex_byte-hex_char :
    (b : ℕ) → b < 256 → hex_byte (hex_char (b / 16)) (hex_char (bit_and b 0x0f)) ≡ ok b
unfolding all_below hex_byte hex_char hex_nibble
hex_byte-hex_char b h = gives_iff _ b (
    all_below_sound 256 (λ x. gives (hex_byte (hex_char (x / 16)) (hex_char (bit_and x 0x0f))) x) b
      refl h)

hex_bytes-to_hex : (id : Bytes) → All IsByte id → hex_bytes (to_hex id) ≡ ok id
unfolding hex_bytes to_hex
hex_bytes-to_hex [] h = refl
hex_bytes-to_hex (b ∷ bs) h = rw (hex_byte-hex_char b h.0, hex_bytes-to_hex bs h.1) refl

pub length-to_hex : (id : Bytes) → length (to_hex id) ≡ 2 * length id
unfolding to_hex
length-to_hex [] = omega arith
length-to_hex (b ∷ bs) = omega (arith, length-to_hex bs)

-- What `to_hex` prints of an object id is read back by `from_hex` as that id.
pub from_hex-to_hex : (id : ObjectId) → IsObjectId id → from_hex (to_hex id) ≡ ok id
from_hex-to_hex id h = unfold from_hex in rw (length-to_hex, h.0) (hex_bytes-to_hex id h.1)

-- A digit printed lies between `0` and `f`, so it is no separator of any format.
abbrev pub IsHex : ℕ → Type 0
IsHex c = (b'0' ≤ c) × (c ≤ b'f') × ((c ≤ b'9') ⊎ (b'a' ≤ c))

hex_char-IsHex : (n : ℕ) → n < 256 → IsHex (hex_char n)
unfolding hex_char
hex_char-IsHex n h = ground (arith, low_nibble n)

pub to_hex-IsHex : (id : ObjectId) → All IsByte id → All IsHex (to_hex id)
unfolding to_hex
to_hex-IsHex [] h = tt
to_hex-IsHex (b ∷ bs) h = (
  hex_char-IsHex (b / 16) (omega (arith, h.0)),
  (hex_char-IsHex (bit_and b 0x0f) (omega (arith, low_nibble b h.0)), to_hex-IsHex bs h.1),
)

abbrev pub to_lower : ℕ → ℕ
to_lower c = if leb b'A' c && leb c b'Z' then c + 32 else c

hex_nibble-eq-ok : (c n : ℕ) → hex_nibble c ≡ ok n → (n < 16) × (hex_char n ≡ to_lower c)
unfolding hex_nibble hex_char
hex_nibble-eq-ok c n h = ground (arith, low_nibble n)

shift_or : (hi lo : ℕ) → hi < 16 → lo < 16 → bit_or (hi * 16 % 256) lo ≡ hi * 16 + lo
shift_or hi lo h l =
    let high : (hi * 16 + lo) / 16 ≡ hi = omega arith in
    let low : (hi * 16 + lo) % 16 ≡ lo = omega arith in
    rw (high, low) at (join_nibbles (hi * 16 + lo) (omega arith))

hex_byte-eq-ok :
    (a b x : ℕ)
    → hex_byte a b ≡ ok x
    → (x < 256) × (hex_char (x / 16) ≡ to_lower a) × (hex_char (bit_and x 0x0f) ≡ to_lower b)
unfolding hex_byte
hex_byte-eq-ok a b x h = after_ok (hex_nibble a) _ h λ hi ha h'.
    after_ok (hex_nibble b) _ h' λ lo hb e.
      let (hi_lt, hi_char) = hex_nibble-eq-ok a hi ha in
      let (lo_lt, lo_char) = hex_nibble-eq-ok b lo hb in
      let value : x ≡ hi * 16 + lo = cc (shift_or hi lo hi_lt lo_lt) in
      let high : x / 16 ≡ hi = omega (arith, value) in
      let low : bit_and x 0x0f ≡ lo = omega (arith, value, low_nibble x (omega (arith, value))) in
      (omega (arith, value), rw high hi_char, rw low lo_char)

hex_bytes-eq-ok :
    (s id : Bytes) (n : ℕ)
    → length s ≡ 2 * n
    → hex_bytes s ≡ ok id
    → (length id ≡ n) × All IsByte id × (to_hex id ≡ map to_lower s)
unfolding hex_bytes to_hex
hex_bytes-eq-ok [] id n hn h = let e : id ≡ [] = cc in rw e (omega arith, tt, refl)
hex_bytes-eq-ok (a ∷ []) id n hn h = absurd (omega arith)
hex_bytes-eq-ok (a ∷ b ∷ s) id zero hn h = absurd (omega arith)
hex_bytes-eq-ok (a ∷ b ∷ s) id (suc n) hn h = after_ok (hex_byte a b) _ h λ x hx h'.
    after_ok (hex_bytes s) _ h' λ rest hr e.
      let e' : id ≡ x ∷ rest = cc in
      let (len, bytes, lower) = hex_bytes-eq-ok s rest n (omega arith) hr in
      let (x_lt, a', b') = hex_byte-eq-ok a b x hx in rw e' (omega arith, (x_lt, bytes), cc)

-- A text that `from_hex` accepts has 64 characters, stands for an object id, and is what `to_hex`
-- prints of that id, but for the case of the letters.
pub to_hex-from_hex :
    (s : Bytes) (id : ObjectId)
    → from_hex s ≡ ok id
    → (length s ≡ hex_len) × IsObjectId id × (to_hex id ≡ map to_lower s)
unfolding from_hex
to_hex-from_hex s id h = after_test (not (length s == hex_len)) _ _ h λ checked read.
    let right : length s ≡ hex_len = eq_of_not_ne _ _ checked in
    let (len, bytes, lower) = hex_bytes-eq-ok s id hash_len right read in
    (right, (len, bytes), lower)

-- Different ids print differently.
pub to_hex_inj : (a b : ObjectId) → IsObjectId a → IsObjectId b → to_hex a ≡ to_hex b → a ≡ b
to_hex_inj a b ha hb e = cc (from_hex-to_hex a ha, from_hex-to_hex b hb, ap from_hex e)
