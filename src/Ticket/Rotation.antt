-- ===== src/Ticket/Rotation.antt =====
-- src/net/ticket.rs: the keys of the replicas while an operator rotates them.
use gyt.Base.{
  ℕ, suc, zero, ◌≡◌, refl, sym, ap, false, Option, none, some, [], ◌∷◌, ◌++◌, arith, ltb, length,
  length-append, take, drop,
}
use gyt.Text.Cuts.{Bytes}
use gyt.Ticket.{Aead, SharedTicketer, nonce_len, encrypt, decrypt, framed, or_previous}

take_nonce : (n : ℕ) (a b : Bytes) → length a ≡ n → take n (a ++ b) ≡ a
take_nonce zero [] b h = refl
take_nonce zero (x ∷ a) b h = absurd (omega arith)
take_nonce (suc n) [] b h = absurd (omega arith)
take_nonce (suc n) (x ∷ a) b h = ap (λ t. x ∷ t) (take_nonce n a b (omega arith))

drop_nonce : (n : ℕ) (a b : Bytes) → length a ≡ n → drop n (a ++ b) ≡ b
drop_nonce zero [] b h = refl
drop_nonce zero (x ∷ a) b h = absurd (omega arith)
drop_nonce (suc n) [] b h = absurd (omega arith)
drop_nonce (suc n) (x ∷ a) b h = drop_nonce n a b (omega arith)

module _ {Cipher : Type 0} (aead : Aead Cipher) where
  -- A replica has a cipher as its current one, or as its previous one where the current one refuses
  -- the body of the ticket.
  pub data Holds (t : SharedTicketer Cipher) (c : Cipher) (nonce body : Bytes) : Type 0 where
    as_current : t.current ≡ c → Holds t c nonce body
    as_previous :
        t.previous ≡ some c → aead.open_with t.current nonce body ≡ none → Holds t c nonce body

  decrypt-framed :
      (t : SharedTicketer Cipher) (nonce body : Bytes)
      → length nonce ≡ nonce_len
      → decrypt aead t (nonce ++ body)
        ≡ or_previous aead (aead.open_with t.current nonce body) t nonce body
  unfolding decrypt
  decrypt-framed t nonce body n =
      let long : ltb (length (nonce ++ body)) nonce_len ≡ false =
        rw (length-append nonce body) (ground arith) in
      rw (long, take_nonce nonce_len nonce body n, drop_nonce nonce_len nonce body n) refl

  sealed :
      (issuer : SharedTicketer Cipher) (nonce plain out : Bytes)
      → encrypt aead issuer nonce plain ≡ some out
      → (body : Bytes) × (aead.seal issuer.current nonce plain ≡ some body) × (out ≡ nonce ++ body)
  unfolding encrypt
  sealed issuer nonce plain out h = go (aead.seal issuer.current nonce plain) refl h
    where
      inj : {a b : Bytes} → some a ≡ some b → a ≡ b
      inj h = cc

      go :
          (s : Option Bytes)
          → aead.seal issuer.current nonce plain ≡ s
          → framed aead nonce s ≡ some out
          → (body : Bytes) × (aead.seal issuer.current nonce plain ≡ some body)
            × (out ≡ nonce ++ body)
      go none e h = absurd (cc)
      go (some body) e h = (body, e, sym (inj h))

  opened :
      (t : SharedTicketer Cipher) (c : Cipher) (nonce body plain : Bytes)
      → Holds t c nonce body
      → aead.open_with c nonce body ≡ some plain
      → or_previous aead (aead.open_with t.current nonce body) t nonce body ≡ some plain
  opened t c nonce body plain (as_current e) o = rw (e, o) refl
  opened t c nonce body plain (as_previous e refused) o = rw (refused, e) o

  -- A ticket that one replica issued with a nonce of 12 bytes is read back by every replica that has
  -- the issuer's cipher as its current one, or as its previous one where its current one refuses the
  -- ticket's body.
  pub decrypt-encrypt_rotated :
      (issuer reader : SharedTicketer Cipher) (nonce plain out : Bytes)
      → length nonce ≡ nonce_len
      → encrypt aead issuer nonce plain ≡ some out
      → Holds reader issuer.current nonce (drop nonce_len out)
      → decrypt aead reader out ≡ some plain
  decrypt-encrypt_rotated issuer reader nonce plain out n h holds =
      let (body, seal, e) = sealed issuer nonce plain out h in
      let held : Holds reader issuer.current nonce body =
        rw (e, drop_nonce nonce_len nonce body n) at holds in
      rw (e, decrypt-framed reader nonce body n)
        (opened reader issuer.current nonce body plain held
          (aead.open-seal issuer.current nonce plain body seal))
