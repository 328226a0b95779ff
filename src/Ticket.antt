-- ===== src/Ticket.antt =====
-- src/net/ticket.rs: the TLS session tickets that all replicas share. The crate aes-gcm is a
-- parameter, and so is the random nonce of a ticket. A key file is its mode and its bytes. The slice
-- of a text inside a character panics in the code, which is `stuck` here.
pub mod Keys
pub mod Rotation
mod Examples
use Prim.Native.Nat.{bit_and}
use gyt.Base.{
  ℕ, ◌≡◌, Bool, true, false, not, ◌&&◌, ◌||◌, Option, none, some, List, [], ◌∷◌, ◌++◌, ltb, leb,
  ◌==◌, if◌then◌else◌, length, take, drop, Result, ok, err, stuck, net, ◌>>=◌, ◌>>◌, refuse_if,
  ok_or,
}
use gyt.Text.Cuts.{Bytes, eq_bytes}
use gyt.Text.Lines.{lines}
use gyt.Text.Trim.{trim, starts_with}
use gyt.Text.Utf8.{is_utf8}
use gyt.RefsPolicy.Signatures.{hex_pair}

abbrev pub nonce_len : ℕ
nonce_len = 12

-- The crate aes-gcm: what a cipher seals with a nonce, it opens with that nonce.
pub record Aead (Cipher : Type 0) : Type 0 where
  pub new : Bytes → Cipher
  pub seal : Cipher → Bytes → Bytes → Option Bytes
  pub open_with : Cipher → Bytes → Bytes → Option Bytes
  pub open-seal :
      (c : Cipher) (nonce plain body : Bytes)
      → seal c nonce plain ≡ some body
      → open_with c nonce body ≡ some plain

pub record SharedTicketer (Cipher : Type 0) : Type 0 where
  pub current : Cipher
  pub previous : Option Cipher

-- A byte inside a character.
abbrev pub is_inside : Bytes → Bool
is_inside [] = false
is_inside (c ∷ s) = leb 0x80 c && leb c 0xbf

abbrev onto_key : ℕ → Result Bytes → Result Bytes
onto_key b rest = do bs ← rest; ok (b ∷ bs)

abbrev after_pair : Option ℕ → Result Bytes → Result Bytes
after_pair none rest = err (net "ticket key not valid hex")
after_pair (some b) rest = onto_key b rest

unfoldable pub parse_pairs : Bytes → Result Bytes
parse_pairs (a ∷ b ∷ s) =
    let rest = parse_pairs s in
    if is_inside (a ∷ []) || is_inside s then stuck else after_pair (hex_pair a b) rest
parse_pairs _ = ok []

unfoldable pub parse_key : Bytes → Result Bytes
parse_key hex = do
  refuse_if (not (length hex == 64)) (net "ticket key must be 64 hex chars (32 bytes)")
  parse_pairs hex

unfoldable pub key_lines : List Bytes → List Bytes
key_lines [] = []
key_lines (l ∷ ls) =
    let rest = key_lines ls in
    if not (eq_bytes (trim l) []) && not (starts_with b'#' (trim l)) then trim l ∷ rest else rest

module _ {Cipher : Type 0} (aead : Aead Cipher) where
  unfoldable pub load : List Bytes → Result (SharedTicketer Cipher)
  load [] = err (net "ticket key contains no key lines")
  load (a ∷ []) = do
    current ← parse_key a
    ok (record { current = aead.new current; previous = none })
  load (a ∷ b ∷ []) = do
    current ← parse_key a
    previous ← parse_key b
    ok (record { current = aead.new current; previous = some (aead.new previous) })
  load (a ∷ b ∷ c ∷ ls) =
      err (net "ticket key has too many key lines; max is 2 (current + previous)")

  unfoldable pub enforce_private_mode : ℕ → Result (Unit {0})
  enforce_private_mode mode =
      refuse_if (not (bit_and (bit_and mode 0o777) 0o077 == 0)) (net "ticket key has insecure mode")

  unfoldable pub from_file : Option (ℕ × Bytes) → Result (SharedTicketer Cipher)
  from_file none = err (net "stat")
  from_file (some (mode, body)) = do
    enforce_private_mode mode
    refuse_if (not (is_utf8 body)) (net "ticket key")
    load (key_lines (lines body))

  abbrev pub framed : Bytes → Option Bytes → Option Bytes
  framed nonce none = none
  framed nonce (some body) = some (nonce ++ body)

  unfoldable pub encrypt : SharedTicketer Cipher → Bytes → Bytes → Option Bytes
  encrypt t nonce plain = framed nonce (aead.seal t.current nonce plain)

  abbrev open_previous : Option Cipher → Bytes → Bytes → Option Bytes
  open_previous none nonce body = none
  open_previous (some c) nonce body = aead.open_with c nonce body

  abbrev pub or_previous : Option Bytes → SharedTicketer Cipher → Bytes → Bytes → Option Bytes
  or_previous none t nonce body = open_previous t.previous nonce body
  or_previous (some plain) t nonce body = some plain

  unfoldable pub decrypt : SharedTicketer Cipher → Bytes → Option Bytes
  decrypt t cipher =
      let nonce = take nonce_len cipher in
      let body = drop nonce_len cipher in
      if ltb (length cipher) nonce_len
      then none
      else or_previous (aead.open_with t.current nonce body) t nonce body
