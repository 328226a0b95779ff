-- ===== src/Hash/Examples.antt =====
-- src/hash.rs at concrete inputs.
use gyt.Base.{ℕ, ◌≡◌, refl, [], ◌∷◌, map, length, ok, err, parse}
use gyt.Text.Cuts.{Bytes, codes}
use gyt.Hash.{ObjectId, IsObjectId, from_bytes, from_hex, to_hex, hex_len}
use gyt.Hash.RoundTrip.{to_hex-from_hex, to_lower}

-- 28 zero bytes, and the four given ones.
abbrev pub id_of : ℕ → ℕ → ℕ → ℕ → ObjectId
id_of a b c d =
    0 ∷ 0 ∷ 0 ∷ 0 ∷ 0 ∷ 0 ∷ 0 ∷ 0 ∷ 0 ∷ 0 ∷ 0 ∷ 0 ∷ 0 ∷ 0 ∷ 0 ∷ 0 ∷ 0 ∷ 0 ∷ 0 ∷ 0 ∷ 0 ∷ 0 ∷ 0 ∷ 0
    ∷ 0 ∷ 0 ∷ 0 ∷ 0 ∷ a ∷ b ∷ c ∷ d ∷ []

abbrev upper : Bytes
upper = codes "00000000000000000000000000000000000000000000000000000000DEADbeEF"

to_hex_runs :
    to_hex (id_of 0xde 0xad 0xbe 0xef)
    ≡ codes "00000000000000000000000000000000000000000000000000000000deadbeef"
unfolding to_hex
to_hex_runs = refl

from_hex-upper : from_hex upper ≡ ok (id_of 0xde 0xad 0xbe 0xef)
unfolding from_hex
from_hex-upper = refl

from_hex_short : from_hex (codes "abc") ≡ err (parse "expected 64 hex chars")
unfolding from_hex
from_hex_short = refl

from_bytes_short : from_bytes (1 ∷ 2 ∷ []) ≡ err (parse "expected 32 bytes")
unfolding from_bytes
from_bytes_short = refl

to_hex-from_hex_example :
    (length upper ≡ hex_len)
    × IsObjectId (id_of 0xde 0xad 0xbe 0xef)
    × (to_hex (id_of 0xde 0xad 0xbe 0xef) ≡ map to_lower upper)
to_hex-from_hex_example = to_hex-from_hex upper (id_of 0xde 0xad 0xbe 0xef) from_hex-upper
