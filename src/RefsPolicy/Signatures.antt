-- ===== src/RefsPolicy/Signatures.antt =====
-- src/net/refs_policy.rs: the signature of one commit, and the file of allowed signers; cmd/signing.rs:
-- the payload that is signed, and base64. The ed25519 keys are a parameter: which 32 bytes are a key,
-- and `verify_strict`.
use Prim.Native.Nat.{bit_and, bit_or}
use gyt.Base.{
  ℕ, zero, suc, ◌+◌, ◌-◌, ◌*◌, ◌/◌, ◌%◌, ◌^◌, Bool, false, not, ◌&&◌, ◌||◌, Option, none, some,
  List, [], ◌∷◌, ◌++◌, map, leb, ◌==◌, if◌then◌else◌, length, take, Result,
}
use gyt.Text.Cuts.{Bytes, codes, eq_bytes}
use gyt.Text.Lines.{lines}
use gyt.Text.Trim.{trim, starts_with, reversed, space_len}
use gyt.Hash.{ObjectId, to_hex}
use gyt.Object.Commit.{Commit}
use gyt.RefsPolicy.{
  unsigned_commit, bad_signature, signer_not_allowed, internal, Checked, passed, refused, ◌>>=◌,
  refuse_when, or_refuse,
}

-- A loop that pushes a line for each element.
unfoldable pub push_lines : Bytes → List Bytes → Bytes
push_lines prefix [] = []
push_lines prefix (x ∷ xs) = (prefix ++ (x ++ codes "\n")) ++ push_lines prefix xs

unfoldable pub commit_payload_without_sig : Commit → Bytes
commit_payload_without_sig c =
    (codes "tree " ++ (to_hex c.tree ++ codes "\n"))
    ++ (push_lines (codes "parent ") (map to_hex c.parents)
        ++ (push_lines (codes "author ") c.authors
            ++ ((codes "committer " ++ (c.committer ++ codes "\n"))
                ++ (push_lines (codes "ai ") c.ai_assists
                    ++ (push_lines (codes "reviewer ") c.reviewers ++ (codes "\n" ++ c.message))))))

unfoldable pub base64_value : ℕ → Option ℕ
base64_value b =
    if leb b'A' b && leb b b'Z'
    then some (b - b'A')
    else if leb b'a' b && leb b b'z'
    then some (b - b'a' + 26)
    else if leb b'0' b && leb b b'9'
    then some (b - b'0' + 52)
    else if b == b'+'
    then some 62
    else if b == b'/'
    then some 63
    else none

-- One character with its value: the bits kept in `buf`, their number, and the bytes that are full.
unfoldable pub base64_step : ℕ → ℕ → ℕ → ℕ × ℕ × Bytes
base64_step buf bits val =
    let buf' = bit_or (buf * 64 % 2 ^ 32) val in
    let left = bits + 6 - 8 in
    if leb 8 (bits + 6)
    then (bit_and buf' (2 ^ left - 1), left, (buf' / 2 ^ left % 256) ∷ [])
    else (buf', bits + 6, [])

abbrev base64_more : Option (ℕ × Bytes) → Bytes → Option (ℕ × Bytes)
base64_more none out = none
base64_more (some (buf, rest)) out = some (buf, out ++ rest)

abbrev base64_next : Option ℕ → ℕ → ℕ → (ℕ → ℕ → Option (ℕ × Bytes)) → Option (ℕ × Bytes)
base64_next none buf bits next = none
base64_next (some val) buf bits next =
    let (buf', bits', out) = base64_step buf bits val in base64_more (next buf' bits') out

-- The loop: the bits that are left over, and the bytes.
unfoldable pub base64_loop : Bytes → ℕ → ℕ → Option (ℕ × Bytes)
base64_loop [] buf bits = some (buf, [])
base64_loop (b ∷ s) buf bits = base64_next (base64_value b) buf bits (base64_loop s)

-- The number of `=` at the end, up to two.
unfoldable pub count_pad : ℕ → Bytes → ℕ
count_pad zero s = 0
count_pad (suc n) [] = 0
count_pad (suc n) (b ∷ s) = let rest = count_pad n s in if b == b'=' then suc rest else 0

unfoldable pub contains : ℕ → Bytes → Bool
contains c [] = false
contains c (b ∷ s) = b == c || contains c s

abbrev no_bits_left : Option (ℕ × Bytes) → Option Bytes
no_bits_left none = none
no_bits_left (some (buf, out)) = if buf == 0 then some out else none

unfoldable pub base64_decode : Bytes → Option Bytes
base64_decode input =
    let bytes = trim input in
    let body = take (length bytes - count_pad 2 (reversed bytes)) bytes in
    if not (length bytes % 4 == 0) || contains b'=' body
    then none
    else no_bits_left (base64_loop body 0 0)

-- The match on the decoded signature, which must be 64 bytes.
abbrev pub full_length : ObjectId → Option Bytes → Checked Bytes
full_length id none = refused (bad_signature id)
full_length id (some b) = if length b == 64 then passed b else refused (bad_signature id)

abbrev pub signature_of : ObjectId → Option Bytes → Checked Bytes
signature_of id none = refused (unsigned_commit id)
signature_of id (some b64) = full_length id (base64_decode b64)

module _ {Key : Type 0} (verify_strict : Key → Bytes → Bytes → Bool) where
  unfoldable pub some_key_verifies : List Key → Bytes → Bytes → Bool
  some_key_verifies [] payload sig = false
  some_key_verifies (key ∷ allowed) payload sig =
      verify_strict key payload sig || some_key_verifies allowed payload sig

  unfoldable pub verify_commit_signed :
      (ObjectId → Result Commit) → List Key → ObjectId → Checked (Unit {0})
  verify_commit_signed read_commit allowed id = do
    c ← or_refuse (read_commit id) internal
    sig ← signature_of id c.signature
    refuse_when (not (some_key_verifies allowed (commit_payload_without_sig c) sig))
        (signer_not_allowed id)

-- `line.split_whitespace().next()` of a trimmed line.
unfoldable pub first_token : Bytes → Bytes
first_token [] = []
first_token (b ∷ s) = let rest = first_token s in if space_len (b ∷ s) == 0 then b ∷ rest else []

unfoldable pub hex_digit : ℕ → Option ℕ
hex_digit c =
    if leb b'0' c && leb c b'9'
    then some (c - b'0')
    else if leb b'a' c && leb c b'f'
    then some (c - b'a' + 10)
    else if leb b'A' c && leb c b'F'
    then some (c - b'A' + 10)
    else none

abbrev two_digits : Option ℕ → Option ℕ → Option ℕ
two_digits (some a) (some b) = some (a * 16 + b)
two_digits _ _ = none

-- `u8::from_str_radix(pair, 16)`: a leading `+` is accepted.
unfoldable pub hex_pair : ℕ → ℕ → Option ℕ
hex_pair a b = if a == b'+' then hex_digit b else two_digits (hex_digit a) (hex_digit b)

abbrev onto_bytes : Option ℕ → Option Bytes → Option Bytes
onto_bytes (some b) (some bs) = some (b ∷ bs)
onto_bytes _ _ = none

unfoldable pub key_bytes : Bytes → Option Bytes
key_bytes (a ∷ b ∷ s) = onto_bytes (hex_pair a b) (key_bytes s)
key_bytes _ = some []

module _ {Key : Type 0} (key_of : Bytes → Option Key) where
  abbrev key_or_skip : Option Bytes → List Key
  key_or_skip none = []
  key_or_skip (some bytes) = elim (key_of bytes) [ none ↦ [] | some key ↦ key ∷ [] ]

  -- One line: its key, or nothing where the line is blank, a comment or malformed.
  unfoldable pub read_signer : Bytes → List Key
  read_signer raw =
      let hex_part = first_token (trim raw) in
      if eq_bytes (trim raw) [] || starts_with b'#' (trim raw)
      then []
      else if not (length hex_part == 64)
      then []
      else key_or_skip (key_bytes hex_part)

  unfoldable pub read_signers : List Bytes → List Key
  read_signers [] = []
  read_signers (raw ∷ ls) = read_signer raw ++ read_signers ls

  unfoldable pub parse_allowed_signers : Bytes → List Key
  parse_allowed_signers text = read_signers (lines text)
