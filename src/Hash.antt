-- ===== src/Hash.antt =====
-- src/hash.rs: object identifiers and their hexadecimal form. A `[u8; 32]` is a list of bytes, and
-- `IsObjectId` is what the array type says. BLAKE3 is a parameter of the modules that hash.
pub mod RoundTrip
pub mod Examples
use Prim.Native.Nat.{bit_and, bit_or}
use gyt.Base.{
  ℕ, ◌+◌, ◌-◌, ◌*◌, ◌/◌, ◌%◌, ◌<◌, ◌≡◌, Bool, not, ◌&&◌, List, [], ◌∷◌, leb, ltb, ◌==◌,
  if◌then◌else◌, All, length, Result, ok, err, parse, ◌>>=◌, ◌>>◌, refuse_if,
}
use gyt.Text.Cuts.{Bytes, IsByte}

abbrev pub hash_len : ℕ
hash_len = 32

abbrev pub hex_len : ℕ
hex_len = 64

-- `ObjectId([u8; HASH_LEN])`
abbrev pub ObjectId : Type 0
ObjectId = Bytes

abbrev pub IsObjectId : ObjectId → Type 0
IsObjectId id = (length id ≡ hash_len) × All IsByte id

unfoldable pub from_bytes : Bytes → Result ObjectId
from_bytes bytes =
    if not (length bytes == hash_len) then err (parse "expected 32 bytes") else ok bytes

hex_nibble : ℕ → Result ℕ
hex_nibble b =
    if leb b'0' b && leb b b'9'
    then ok (b - b'0')
    else if leb b'a' b && leb b b'f'
    then ok (b - b'a' + 10)
    else if leb b'A' b && leb b b'F'
    then ok (b - b'A' + 10)
    else err (parse "non-hex byte")

pub hex_char : ℕ → ℕ
hex_char nibble = let n = bit_and nibble 0x0f in if ltb n 10 then b'0' + n else b'a' + n - 10

-- One round of the loop: `(hi << 4) | lo` on `u8`.
hex_byte : ℕ → ℕ → Result ℕ
hex_byte a b = do hi ← hex_nibble a; lo ← hex_nibble b; ok (bit_or (hi * 16 % 256) lo)

-- The loop reads two characters for each byte; the length test leaves no odd one over.
hex_bytes : Bytes → Result Bytes
hex_bytes (a ∷ b ∷ s) = do byte ← hex_byte a b; rest ← hex_bytes s; ok (byte ∷ rest)
hex_bytes _ = ok []

unfoldable pub from_hex : Bytes → Result ObjectId
unfolding hex_bytes hex_byte hex_nibble
from_hex s = do refuse_if (not (length s == hex_len)) (parse "expected 64 hex chars"); hex_bytes s

unfoldable pub to_hex : ObjectId → Bytes
unfolding hex_char
to_hex [] = []
to_hex (b ∷ bs) = hex_char (b / 16) ∷ hex_char (bit_and b 0x0f) ∷ to_hex bs
