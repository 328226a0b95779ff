-- ===== src/Metadata/Toml.antt =====
-- src/issues.rs: the TOML subset of the blobs, the same in prs.rs and incidents.rs. A `String` is the
-- list of its bytes; `{:?}` of a text is a parameter, since it stands on the tables of Unicode.
use gyt.Base.{
  String, ℕ, zero, suc, ◌+◌, ◌-◌, Bool, true, false, not, ◌&&◌, ◌||◌, Option, none, some, List, [],
  ◌∷◌, ◌++◌, map, ltb, leb, ◌==◌, if◌then◌else◌, length, take, drop, Result, ok, err, GytError,
  refs, ◌>>=◌, ◌>>◌, refuse_if, ok_or, ℤ, pos, negsuc,
}
use gyt.Text.Cuts.{Bytes, codes, eq_bytes, split_once}
use gyt.Text.Trim.{split, starts_with, ends_with, trim, space_len}
use gyt.Text.Radix.{print_radix, parse_digits, from_str_radix}

abbrev pub u32_max : ℕ
u32_max = 4_294_967_295

abbrev pub u64_max : ℕ
u64_max = 18_446_744_073_709_551_615

abbrev pub i64_max : ℕ
i64_max = 9_223_372_036_854_775_807

abbrev pub invalid : String → GytError
invalid field = refs field

-- The value behind the escape `\c`.
unfoldable pub escape_char : ℕ → Result ℕ
escape_char c =
    if c == b'n'
    then ok b'\n'
    else if c == b'r'
    then ok b'\r'
    else if c == b't'
    then ok b'\t'
    else if c == b'\\'
    then ok b'\\'
    else if c == b'"'
    then ok b'"'
    else if c == b'0'
    then ok 0
    else err (refs "unsupported escape")

-- One character: whether a backslash is pending behind it, and what it adds.
unfoldable pub unescape_char : Bool → ℕ → Result (Bool × Bytes)
unescape_char true c = do x ← escape_char c; ok (false, x ∷ [])
unescape_char false c = if c == b'\\' then ok (true, []) else ok (false, c ∷ [])

unfoldable pub unescape : Bool → Bytes → Result Bytes
unescape pending [] = if pending then err (refs "trailing backslash") else ok []
unescape pending (c ∷ s) = do
  (pending', out) ← unescape_char pending c
  rest ← unescape pending' s
  ok (out ++ rest)

-- `s[1..s.len() - 1]`
abbrev pub inner : Bytes → Bytes
inner s = take (length s - 2) (drop 1 s)

unfoldable pub parse_toml_string : Bytes → Result Bytes
parse_toml_string s = do
  refuse_if
      (ltb (length (trim s)) 2 || not (starts_with b'"' (trim s)) || not (ends_with b'"' (trim s)))
      (refs "not a quoted string")
  unescape false (inner (trim s))

-- `s.chars()`: a byte goes with the continuation bytes behind it.
abbrev starts_inside : Bytes → Bool
starts_inside [] = false
starts_inside (b ∷ s) = leb 0x80 b && ltb b 0xc0

abbrev onto_first : ℕ → List Bytes → List Bytes
onto_first b [] = (b ∷ []) ∷ []
onto_first b (c ∷ cs) = (b ∷ c) ∷ cs

unfoldable pub chars : Bytes → List Bytes
chars [] = []
chars (b ∷ s) = let rest = chars s in if starts_inside s then onto_first b rest else (b ∷ []) ∷ rest

-- The local variables of the loops over the elements of an array or a table.
pub record Scan : Type 0 where
  pub in_str : Bool
  pub escape : Bool
  pub buf : Bytes
  pub out : List Bytes

abbrev pub scan_start : Scan
scan_start = record { in_str = false; escape = false; buf = []; out = [] }

-- The rounds that stand inside a quoted text, and the quote that starts one.
abbrev pub is_quoted : Scan → Bytes → Bool
is_quoted st c = st.escape || st.in_str || eq_bytes c (codes "\"")

unfoldable pub scan_quoted : Scan → Bytes → Scan
scan_quoted st c =
    if st.escape
    then record st { buf = st.buf ++ c; escape = false }
    else if st.in_str
    then record st {
      buf = st.buf ++ c;
      escape = eq_bytes c (codes "\\");
      in_str = not (eq_bytes c (codes "\""));
    }
    else record st { buf = st.buf ++ c; in_str = true }

unfoldable pub scan_char : Scan → Bytes → Result Scan
scan_char st c =
    if is_quoted st c
    then ok (scan_quoted st c)
    else if eq_bytes c (codes ",")
    then (do
      item ← parse_toml_string (trim st.buf)
      ok (record st { buf = []; out = st.out ++ (item ∷ []) }))
    else if not (space_len c == 0)
    then ok st
    else ok (record st { buf = st.buf ++ c })

unfoldable pub scan : Scan → List Bytes → Result Scan
scan st [] = ok st
scan st (c ∷ cs) = do st' ← scan_char st c; scan st' cs

abbrev is_blank : Bytes → Bool
is_blank s = eq_bytes (trim s) []

unfoldable pub last_item : Scan → Result (List Bytes)
last_item st =
    if is_blank st.buf
    then ok st.out
    else (do item ← parse_toml_string (trim st.buf); ok (st.out ++ (item ∷ [])))

unfoldable pub parse_toml_string_array : Bytes → Result (List Bytes)
parse_toml_string_array s = if eq_bytes (trim s) (codes "[]") then ok [] else (do
  refuse_if (not (starts_with b'[' (trim s)) || not (ends_with b']' (trim s))) (refs "not an array")
  st ← scan scan_start (chars (inner (trim s)))
  last_item st)

unfoldable pub parse_u64 : Bytes → Result ℕ
parse_u64 s = ok_or (from_str_radix 10 u64_max s) (invalid "number")

-- `val.parse::<i64>()`: a sign and digits, down to -2^63.
unfoldable pub parse_i64 : Bytes → Result ℤ
parse_i64 [] = err (invalid "timestamp")
parse_i64 (c ∷ s) =
    if c == b'-'
    then (do
      refuse_if (eq_bytes s []) (invalid "timestamp")
      n ← ok_or (parse_digits 10 (i64_max + 1) 0 s) (invalid "timestamp")
      ok (elim n [ zero ↦ pos 0 | suc m ↦ negsuc m ]))
    else (do n ← ok_or (from_str_radix 10 i64_max (c ∷ s)) (invalid "timestamp"); ok (pos n))

-- One token; an empty one is passed over.
unfoldable pub parse_token : Bytes → Result (List ℕ)
parse_token tok = if is_blank tok then ok [] else (do n ← parse_u64 (trim tok); ok (n ∷ []))

unfoldable pub parse_tokens : List Bytes → Result (List ℕ)
parse_tokens [] = ok []
parse_tokens (tok ∷ toks) = do n ← parse_token tok; ns ← parse_tokens toks; ok (n ++ ns)

unfoldable pub parse_toml_u64_array : Bytes → Result (List ℕ)
parse_toml_u64_array s = if eq_bytes (trim s) (codes "[]") then ok [] else (do
  refuse_if (not (starts_with b'[' (trim s)) || not (ends_with b']' (trim s))) (refs "not an array")
  parse_tokens (split b',' (inner (trim s))))

-- A line of the blob: passed over, the start of an event, a field, or none of these.
pub data Line : Type 0 where
  skipped event_start malformed : Line
  field : Bytes → Bytes → Line

abbrev as_field : Option (Bytes × Bytes) → Line
as_field none = malformed
as_field (some (key, val)) = field (trim key) (trim val)

unfoldable pub read_line : Bytes → Line
read_line raw =
    if eq_bytes (trim raw) [] || starts_with b'#' (trim raw)
    then skipped
    else if eq_bytes (trim raw) (codes "[[event]]")
    then event_start
    else as_field (split_once b'=' (trim raw))

-- `parts.join(", ")`
unfoldable pub join_commas : List Bytes → Bytes
join_commas [] = []
join_commas (x ∷ []) = x
join_commas (x ∷ y ∷ xs) = x ++ (codes ", " ++ join_commas (y ∷ xs))

unfoldable pub print_u64 : ℕ → Bytes
print_u64 n = print_radix 10 20 n

unfoldable pub print_i64 : ℤ → Bytes
print_i64 (pos n) = print_u64 n
print_i64 (negsuc n) = b'-' ∷ print_u64 (suc n)

abbrev bracketed : Bytes → Bytes
bracketed s = codes "[" ++ (s ++ codes "]")

unfoldable pub toml_u64_array : List ℕ → Bytes
toml_u64_array [] = codes "[]"
toml_u64_array (n ∷ ns) = bracketed (join_commas (map print_u64 (n ∷ ns)))

module _ (debug : Bytes → Bytes) where
  unfoldable pub toml_string_array : List Bytes → Bytes
  toml_string_array [] = codes "[]"
  toml_string_array (x ∷ xs) = bracketed (join_commas (map debug (x ∷ xs)))
