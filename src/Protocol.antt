-- ===== src/Protocol.antt =====
-- src/net/protocol.rs: the codecs of the wire protocol. The loop of `parse_pack` takes bytes in each
-- round, so the length of the body is enough fuel. A panic of an encoder is `none`.
pub mod Pack
pub mod Updates
pub mod InfoRefs
mod Examples
use gyt.Base.{
  ℕ, zero, suc, ◌+◌, ◌*◌, ◌/◌, ◌%◌, ◌^◌, ◌≡◌, Bool, true, false, not, ◌||◌, Option, none, some,
  List, [], ◌∷◌, ◌++◌, ltb, leb, ◌==◌, if◌then◌else◌, length, take, drop, Result, ok, err, stuck,
  GytError, parse, ◌>>=◌, ◌>>◌, refuse_if, ok_or,
}
use gyt.Text.Cuts.{Bytes, codes, eq_bytes, split_once}
use gyt.Text.Lines.{split_inclusive, strip_suffix}
use gyt.Text.Utf8.{is_utf8}
use gyt.Hash.{ObjectId, hex_len, from_hex, to_hex}
use gyt.Compress.{Xz, xz_decode_raw}

pub record PackEntry : Type 0 where
  pub id : ObjectId
  pub bytes : Bytes

-- `old` is `none` for a reference that is created.
pub record RefUpdate : Type 0 where
  pub old : Option ObjectId
  pub new : ObjectId
  pub name : Bytes

abbrev pub zero_hex : Bytes
zero_hex = codes "0000000000000000000000000000000000000000000000000000000000000000"

-- `for line in s.split_inclusive('\n')`, the line feed stripped.
unfoldable pub each_line {ℓ} : {A : Type ℓ} → (A → Bytes → Result A) → A → List Bytes → Result A
each_line f a [] = ok a
each_line f a (line ∷ ls) = do a' ← f a (strip_suffix b'\n' line); each_line f a' ls

unfoldable pub encode_wants : List ObjectId → Bytes
encode_wants [] = []
encode_wants (id ∷ ids) = to_hex id ++ (b'\n' ∷ encode_wants ids)

unfoldable pub parse_want : List ObjectId → Bytes → Result (List ObjectId)
parse_want out [] = ok out
parse_want out (b ∷ line) = do
  refuse_if (not (length (b ∷ line) == hex_len)) (parse "wants line: expected 64-char hex")
  id ← from_hex (b ∷ line)
  ok (out ++ (id ∷ []))

unfoldable pub parse_wants : Bytes → Result (List ObjectId)
parse_wants body = do
  refuse_if (not (is_utf8 body)) (parse "wants: not valid utf-8")
  each_line parse_want [] (split_inclusive b'\n' body)

abbrev pub old_hex : Option ObjectId → Bytes
old_hex (some id) = to_hex id
old_hex none = zero_hex

unfoldable pub update_line : RefUpdate → Bytes
update_line u = old_hex u.old ++ (b'\t' ∷ (to_hex u.new ++ (b'\t' ∷ u.name)))

unfoldable pub encode_ref_updates : List RefUpdate → Bytes
encode_ref_updates [] = []
encode_ref_updates (u ∷ us) = update_line u ++ (b'\n' ∷ encode_ref_updates us)

parse_old : Bytes → Result (Option ObjectId)
parse_old hex = if eq_bytes hex zero_hex then ok none else (from_hex hex >>= λ id. ok (some id))

-- `splitn(3, '\t')` cuts at the first two tabs; the name may hold more.
unfoldable pub parse_ref_update : List RefUpdate → Bytes → Result (List RefUpdate)
unfolding parse_old
parse_ref_update out [] = ok out
parse_ref_update out (b ∷ line) = do
  (old_s, rest) ← ok_or (split_once b'\t' (b ∷ line)) (parse "ref-updates line: missing new hex")
  (new_s, name) ← ok_or (split_once b'\t' rest) (parse "ref-updates line: missing refname")
  refuse_if (eq_bytes name []) (parse "ref-updates line: empty refname")
  old ← parse_old old_s
  new ← from_hex new_s
  ok (out ++ (record { old = old; new = new; name = name } ∷ []))

unfoldable pub parse_ref_updates : Bytes → Result (List RefUpdate)
parse_ref_updates body = do
  refuse_if (not (is_utf8 body)) (parse "ref-updates: not valid utf-8")
  each_line parse_ref_update [] (split_inclusive b'\n' body)

pub record RefEntry : Type 0 where
  pub name : Bytes
  pub id : ObjectId

unfoldable pub info_line : RefEntry → Bytes
info_line r = to_hex r.id ++ (b'\t' ∷ r.name)

unfoldable pub encode_info_refs : List RefEntry → Bytes
encode_info_refs [] = []
encode_info_refs (r ∷ rs) = info_line r ++ (b'\n' ∷ encode_info_refs rs)

abbrev pub max_info_refs_entries : ℕ
max_info_refs_entries = 1_000_000

abbrev pub max_info_ref_name_len : ℕ
max_info_ref_name_len = 1024

-- `seen.contains(name)`
unfoldable pub was_seen : Bytes → List Bytes → Bool
was_seen name [] = false
was_seen name (n ∷ seen) = eq_bytes name n || was_seen name seen

-- The entries so far and the set of their names.
abbrev pub InfoRefs : Type 0
InfoRefs = List RefEntry × List Bytes

parse_ref_entry : List RefEntry → List Bytes → Bytes → Result InfoRefs
parse_ref_entry out seen [] = ok (out, seen)
parse_ref_entry out seen (b ∷ line) = do
  (hex, name) ← ok_or (split_once b'\t' (b ∷ line)) (parse "info/refs line: missing tab separator")
  refuse_if (eq_bytes name []) (parse "info/refs line: empty refname")
  refuse_if (ltb max_info_ref_name_len (length name)) (parse "info/refs line: refname too long")
  refuse_if (was_seen name seen) (parse "info/refs line: duplicate refname")
  id ← from_hex hex
  ok (out ++ (record { name = name; id = id } ∷ []), name ∷ seen)

unfoldable pub parse_info_ref : InfoRefs → Bytes → Result InfoRefs
unfolding parse_ref_entry
parse_info_ref (out, seen) line = do
  refuse_if (leb max_info_refs_entries (length out))
      (parse "info/refs: entry count exceeds the cap")
  parse_ref_entry out seen line

unfoldable pub parse_info_refs : Bytes → Result (List RefEntry)
parse_info_refs body = do
  refuse_if (not (is_utf8 body)) (parse "info/refs: not valid utf-8")
  (out, seen) ← each_line parse_info_ref ([], []) (split_inclusive b'\n' body)
  ok out

-- `u32::to_le_bytes`
abbrev pub to_le_bytes : ℕ → Bytes
to_le_bytes n = n % 256 ∷ n / 256 % 256 ∷ n / 65536 % 256 ∷ n / 16777216 % 256 ∷ []

-- `u32::from_le_bytes`
abbrev pub from_le_bytes : ℕ → ℕ → ℕ → ℕ → ℕ
from_le_bytes a b c d = a + 256 * b + 65536 * c + 16777216 * d

abbrev before_rest : Bytes → Option Bytes → Option Bytes
before_rest p none = none
before_rest p (some rest) = some (p ++ rest)

-- A panic where an entry does not fit a `u32`.
unfoldable pub encode_pack : List PackEntry → Option Bytes
encode_pack [] = some []
encode_pack (e ∷ es) =
    let rest = encode_pack es in
    if ltb (length e.bytes) (2 ^ 32)
    then before_rest (to_le_bytes (length e.bytes) ++ e.bytes) rest
    else none

abbrev pub max_pack_entries : ℕ
max_pack_entries = 1_000_000

-- The id is left zero; a caller computes it.
abbrev pub zero_id : ObjectId
zero_id =
    0 ∷ 0 ∷ 0 ∷ 0 ∷ 0 ∷ 0 ∷ 0 ∷ 0 ∷ 0 ∷ 0 ∷ 0 ∷ 0 ∷ 0 ∷ 0 ∷ 0 ∷ 0 ∷ 0 ∷ 0 ∷ 0 ∷ 0 ∷ 0 ∷ 0 ∷ 0 ∷ 0
    ∷ 0 ∷ 0 ∷ 0 ∷ 0 ∷ 0 ∷ 0 ∷ 0 ∷ 0 ∷ []

-- One round of the loop: the bytes of an entry and what remains.
unfoldable pub parse_pack_entry : ℕ → Bytes → Result (Bytes × Bytes)
parse_pack_entry count (a ∷ b ∷ c ∷ d ∷ rest) = do
  let len = from_le_bytes a b c d
  refuse_if (len == 0) (parse "pack: zero-length entry")
  refuse_if (ltb (length rest) len) (parse "pack: declared length exceeds remaining")
  refuse_if (leb max_pack_entries count) (parse "pack: entry count exceeds the cap")
  ok (take len rest, drop len rest)
parse_pack_entry count _ = err (parse "pack: truncated length prefix")

unfoldable pub parse_pack_loop : ℕ → Bytes → List PackEntry → Result (List PackEntry)
parse_pack_loop fuel [] out = ok out
parse_pack_loop zero (b ∷ body) out = stuck
parse_pack_loop (suc fuel) (b ∷ body) out = do
  (bytes, rest) ← parse_pack_entry (length out) (b ∷ body)
  parse_pack_loop fuel rest (out ++ (record { id = zero_id; bytes = bytes } ∷ []))

unfoldable pub parse_pack : Bytes → Result (List PackEntry)
parse_pack body = parse_pack_loop (length body) body []

-- Inside a packfile: as it is, or compressed.
abbrev pub packfile_version_raw : ℕ
packfile_version_raw = 0x01

abbrev pub packfile_version_xz : ℕ
packfile_version_xz = 0x02

-- `map_err` to a `Parse` error.
abbrev as_parse {ℓ} : {A : Type ℓ} → Result A → GytError → Result A
as_parse (ok a) e = ok a
as_parse (err e') e = err e
as_parse stuck e = stuck

module _ (xz : Xz) where
  abbrev packed : Option Bytes → Option Bytes
  packed none = none
  packed (some inner) = some (packfile_version_xz ∷ xz.write inner)

  unfoldable pub encode_packfile : List PackEntry → Option Bytes
  encode_packfile entries = packed (encode_pack entries)

  unfoldable pub parse_packfile : Bytes → Result (List PackEntry)
  parse_packfile [] = err (parse "packfile: empty body")
  parse_packfile (v ∷ body) =
      if v == packfile_version_raw
      then parse_pack body
      else if v == packfile_version_xz
      then (as_parse (xz_decode_raw xz body) (parse "packfile: xz decompress") >>= parse_pack)
      else err (parse "packfile: unknown version byte")
