-- ===== src/Metadata/Incidents/Table.antt =====
-- src/incidents.rs: the inline table of an incident's fields.
use gyt.Base.{
  not, ◌||◌, List, [], ◌∷◌, ◌++◌, map, if◌then◌else◌, Result, ok, refs, ◌>>=◌, ◌>>◌, refuse_if,
  ok_or,
}
use gyt.Text.Cuts.{Bytes, codes, eq_bytes, split_once}
use gyt.Text.Trim.{trim, starts_with, ends_with}
use gyt.Text.Order.{lt_bytes}
use gyt.Metadata.Toml.{
  parse_toml_string, chars, inner, Scan, scan_start, is_quoted, scan_quoted, join_commas,
}

-- `BTreeMap::insert`: the entries stay sorted by key, and a key is there once.
unfoldable pub insert_entry : Bytes → Bytes → List (Bytes × Bytes) → List (Bytes × Bytes)
insert_entry k v [] = (k, v) ∷ []
insert_entry k v ((k', v') ∷ m) =
    let rest = insert_entry k v m in
    if eq_bytes k k'
    then (k, v) ∷ m
    else if lt_bytes k k'
    then (k, v) ∷ (k', v') ∷ m
    else (k', v') ∷ rest

-- `{ if !buf.trim().is_empty() { entries.push(…) } }`
unfoldable pub push_entry : Scan → Scan
push_entry st =
    if eq_bytes (trim st.buf) [] then st else record st { out = st.out ++ (trim st.buf ∷ []) }

unfoldable pub split_entry : Scan → Bytes → Scan
split_entry st c =
    if is_quoted st c
    then scan_quoted st c
    else if eq_bytes c (codes ",")
    then record (push_entry st) { buf = [] }
    else record st { buf = st.buf ++ c }

unfoldable pub split_entries : Scan → List Bytes → Scan
split_entries st [] = st
split_entries st (c ∷ cs) = split_entries (split_entry st c) cs

unfoldable pub read_entries : List (Bytes × Bytes) → List Bytes → Result (List (Bytes × Bytes))
read_entries m [] = ok m
read_entries m (ent ∷ ents) = do
  (k, v) ← ok_or (split_once b'=' ent) (refs "bad table entry")
  key ← parse_toml_string (trim k)
  val ← parse_toml_string (trim v)
  read_entries (insert_entry key val m) ents

unfoldable pub parse_toml_string_map : Bytes → Result (List (Bytes × Bytes))
parse_toml_string_map s = if eq_bytes (trim s) (codes "{}") then ok [] else (do
  refuse_if (not (starts_with b'{' (trim s)) || not (ends_with b'}' (trim s))) (refs "not a table")
  read_entries [] (push_entry (split_entries scan_start (chars (inner (trim s))))).out)

module _ (debug : Bytes → Bytes) where
  unfoldable pub print_entry : Bytes × Bytes → Bytes
  print_entry (k, v) = debug k ++ (codes " = " ++ debug v)

  unfoldable pub toml_string_map : List (Bytes × Bytes) → Bytes
  toml_string_map [] = codes "{}"
  toml_string_map (e ∷ es) = codes "{ " ++ (join_commas (map print_entry (e ∷ es)) ++ codes " }")
