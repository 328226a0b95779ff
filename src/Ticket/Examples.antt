-- ===== src/Ticket/Examples.antt =====
-- src/net/ticket.rs at concrete inputs. A cipher is its key here, and writes it before the text.
use gyt.Base.{◌≡◌, refl, none, some, [], ◌∷◌, ◌++◌, ok, err, stuck, net}
use gyt.Text.Cuts.{Bytes, codes, eq_bytes, strip_prefix, strip_prefix-append}
use gyt.Text.Lines.{lines}
use gyt.Text.Trim.{trim, trim_from, space_len, space_len_back, reversed, starts_with}
use gyt.Text.Utf8.{is_utf8}
use gyt.RefsPolicy.Signatures.{hex_pair, hex_digit}
use gyt.Hash.Examples.{id_of}
use gyt.Ticket.{
  Aead, SharedTicketer, parse_pairs, key_lines, load, enforce_private_mode, from_file, encrypt,
  decrypt,
}
use gyt.Ticket.Rotation.{as_previous, decrypt-encrypt_rotated}

open_seal :
    (c nonce plain body : Bytes) → some (c ++ plain) ≡ some body → strip_prefix body c ≡ some plain
open_seal c nonce plain body h =
    let e : c ++ plain ≡ body = cc in rw e at (strip_prefix-append c plain)

abbrev toy : Aead Bytes
toy = record {
  new = λ key. key;
  seal = λ c nonce plain. some (c ++ plain);
  open_with = λ c nonce body. strip_prefix body c;
  open-seal = open_seal;
}

abbrev nonce : Bytes
nonce = codes "abcdefghijkl"

-- Before the rotation, and after it.
abbrev before : SharedTicketer Bytes
before = record { current = id_of 0 0 0 1; previous = none }

abbrev after : SharedTicketer Bytes
after = record { current = id_of 0 0 0 2; previous = some (id_of 0 0 0 1) }

decrypt-encrypt_rotated_example :
    decrypt toy after (nonce ++ (id_of 0 0 0 1 ++ codes "hello")) ≡ some (codes "hello")
unfolding encrypt strip_prefix
decrypt-encrypt_rotated_example =
    decrypt-encrypt_rotated toy before after nonce (codes "hello")
      (nonce ++ (id_of 0 0 0 1 ++ codes "hello")) refl refl (as_previous refl refl)

no_keys :
    from_file toy (some (0o600, codes "# none\n\n")) ≡ err (net "ticket key contains no key lines")
unfolding from_file enforce_private_mode is_utf8 lines trim trim_from space_len space_len_back
    reversed key_lines load eq_bytes starts_with
no_keys = refl

open_mode : from_file toy (some (0o640, [])) ≡ err (net "ticket key has insecure mode")
unfolding from_file enforce_private_mode
open_mode = refl

-- A sign is taken for a digit.
sign_taken : parse_pairs (codes "+f") ≡ ok (15 ∷ [])
unfolding parse_pairs hex_pair hex_digit
sign_taken = refl

-- The code slices `é` in two.
inside_char : parse_pairs (b'0' ∷ 0xc3 ∷ 0xa9 ∷ b'0' ∷ []) ≡ stuck
unfolding parse_pairs hex_pair hex_digit
inside_char = refl
