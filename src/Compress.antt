-- ===== src/Compress.antt =====
-- src/compress.rs: the wrapping of stored objects. The XZ codec is the crate lzma-rust2, so its
-- writer and its bounded reader are the parameters of the section, with the law that the reader
-- gives back, up to its bound, what the writer was given.
pub mod RoundTrip
use Prim.Native.Nat.{bit_and}
use gyt.Base.{
  ℕ, ◌+◌, ◌^◌, ◌≡◌, ◌&&◌, not, List, [], ◌∷◌, ◌++◌, ltb, ◌==◌, if◌then◌else◌, length, take, Result,
  ok, err, stuck, object, ◌>>=◌, ◌>>◌, refuse_if,
}
use gyt.Text.Cuts.{Bytes}

-- MAGIC and FLAG_XZ.
abbrev pub magic : Bytes
magic = 0x67 ∷ 0x79 ∷ 0x74 ∷ 0x01 ∷ []

abbrev pub flag_xz : ℕ
flag_xz = 0x01

abbrev pub max_decompressed_bytes : ℕ
max_decompressed_bytes = 2 ^ 30

-- The crate lzma-rust2: `write` is `XzWriter` over a whole payload, and `read body n` is what
-- `XzReader::new(body).take(n).read_to_end` yields.
pub record Xz : Type 0 where
  pub write : Bytes → Bytes
  pub read : Bytes → ℕ → Result Bytes
  pub read-write : (payload : Bytes) (n : ℕ) → read (write payload) n ≡ ok (take n payload)

module _ (xz : Xz) where
  -- The preset that `xz_encode_raw` picks by size is the writer's own business.
  unfoldable pub encode : Bytes → Bytes
  encode payload = magic ++ (flag_xz ∷ xz.write payload)

  unfoldable pub xz_decode_raw : Bytes → Result Bytes
  xz_decode_raw body = do
    out ← xz.read body (max_decompressed_bytes + 1)
    refuse_if (ltb max_decompressed_bytes (length out))
        (object "xz: decompressed output exceeds the bound")
    ok out

  unwrap : ℕ → Bytes → Result Bytes
  unfolding xz_decode_raw
  unwrap flags body = if not (bit_and flags flag_xz == 0) then xz_decode_raw body else ok body

  -- Five bytes that begin with the magic make a wrapped file; any other file is raw.
  unfoldable pub decode : Bytes → Result Bytes
  unfolding unwrap
  decode (a ∷ b ∷ c ∷ d ∷ flags ∷ body) =
      if a == 0x67 && b == 0x79 && c == 0x74 && d == 0x01
      then unwrap flags body
      else ok (a ∷ b ∷ c ∷ d ∷ flags ∷ body)
  decode stored = ok stored
