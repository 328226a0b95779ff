-- ===== src/Compress/RoundTrip.antt =====
-- src/compress.rs: what `encode` wraps, `decode` unwraps.
use gyt.Base.{
  ℕ, le→ltb_false, zero, suc, ◌+◌, ◌≤◌, ◌≡◌, refl, ap, List, [], ◌∷◌, arith, length, take, ok,
}
use gyt.Text.Cuts.{Bytes}
use gyt.Compress.{Xz, encode, decode, xz_decode_raw, max_decompressed_bytes}

pub take_all {ℓ} : {A : Type ℓ} (n : ℕ) (xs : List A) → length xs ≤ n → take n xs ≡ xs
take_all zero [] h = refl
take_all zero (x ∷ xs) h = absurd (omega arith)
take_all (suc n) [] h = refl
take_all (suc n) (x ∷ xs) h = ap (λ t. x ∷ t) (take_all n xs (omega arith))

pub xz_decode_raw-write :
    (xz : Xz) (payload : Bytes)
    → length payload ≤ max_decompressed_bytes
    → xz_decode_raw xz (xz.write payload) ≡ ok payload
unfolding xz_decode_raw
xz_decode_raw-write xz payload h =
    rw (
      xz.read-write,
      take_all (max_decompressed_bytes + 1) payload (omega arith),
      le→ltb_false _ _ h,
    )

-- A payload within the decompression bound comes back from its wrapped form.
pub decode-encode_wrapped :
    (xz : Xz) (payload : Bytes)
    → length payload ≤ max_decompressed_bytes
    → decode xz (encode xz payload) ≡ ok payload
unfolding decode encode
decode-encode_wrapped xz payload h = xz_decode_raw-write xz payload h
