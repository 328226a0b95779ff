-- ===== src/Metadata/Issues/Codec.antt =====
-- src/issues.rs: the codec of issue blobs.
use gyt.Base.{
  ℕ, Bool, true, false, not, Option, none, some, List, [], ◌∷◌, ◌++◌, ◌==◌, if◌then◌else◌, Result,
  ok, err, refs, ◌>>=◌, ◌>>◌, refuse_if, ok_or, ℤ, pos,
}
use gyt.Text.Cuts.{Bytes, codes, eq_bytes}
use gyt.Text.Utf8.{is_utf8}
use gyt.Text.Lines.{lines}
use gyt.Text.Blocks.{unlines}
use gyt.Text.Radix.{from_str_radix}
use gyt.Metadata.Toml.{
  u32_max, invalid, parse_toml_string, parse_toml_string_array, parse_toml_u64_array, parse_u64,
  parse_i64, Line, skipped, event_start, malformed, field, read_line, print_u64, print_i64,
  toml_string_array, toml_u64_array,
}
use gyt.Metadata.Issues.{
  Issue, IssueKind, IssueState, Event, comment, parse_issue_kind, parse_issue_state,
  parse_event_kind, issue_kind_str, issue_state_str, event_kind_str, validate,
}

-- Before any of its fields: what `[[event]]` starts.
abbrev pub no_event : Event
no_event = record {
  kind = comment;
  author = [];
  ts = pos 0;
  body = [];
  add = [];
  remove = [];
  reason = [];
}

unfoldable pub set_event_field : Event → Bytes → Bytes → Result Event
set_event_field e key val =
    if eq_bytes key (codes "kind")
    then (do name ← parse_toml_string val; k ← parse_event_kind name; ok (record e { kind = k }))
    else if eq_bytes key (codes "author")
    then (do x ← parse_toml_string val; ok (record e { author = x }))
    else if eq_bytes key (codes "ts")
    then (do x ← parse_i64 val; ok (record e { ts = x }))
    else if eq_bytes key (codes "body")
    then (do x ← parse_toml_string val; ok (record e { body = x }))
    else if eq_bytes key (codes "add")
    then (do x ← parse_toml_string_array val; ok (record e { add = x }))
    else if eq_bytes key (codes "remove")
    then (do x ← parse_toml_string_array val; ok (record e { remove = x }))
    else if eq_bytes key (codes "reason")
    then (do x ← parse_toml_string val; ok (record e { reason = x }))
    else err (invalid "unknown event field")

-- The local variables of `decode`.
pub record Draft : Type 0 where
  pub number : Option ℕ
  pub kind : Option IssueKind
  pub title : Bytes
  pub state : Option IssueState
  pub author : Bytes
  pub created_ts : ℤ
  pub labels : List Bytes
  pub assignees : List Bytes
  pub mentions : List ℕ
  pub schema_seen : Bool
  pub events : List Event
  pub cur : Option Event

abbrev pub draft_start : Draft
draft_start = record {
  number = none;
  kind = none;
  title = [];
  state = none;
  author = [];
  created_ts = pos 0;
  labels = [];
  assignees = [];
  mentions = [];
  schema_seen = false;
  events = [];
  cur = none;
}

unfoldable pub set_field : Draft → Bytes → Bytes → Result Draft
set_field d key val =
    if eq_bytes key (codes "schema_version")
    then (do
      v ← ok_or (from_str_radix 10 u32_max val) (invalid "schema_version")
      refuse_if (not (v == 1)) (refs "unsupported schema_version")
      ok (record d { schema_seen = true }))
    else if eq_bytes key (codes "kind")
    then (do
      name ← parse_toml_string val
      x ← parse_issue_kind name
      ok (record d { kind = some x }))
    else if eq_bytes key (codes "number")
    then (do x ← parse_u64 val; ok (record d { number = some x }))
    else if eq_bytes key (codes "title")
    then (do x ← parse_toml_string val; ok (record d { title = x }))
    else if eq_bytes key (codes "state")
    then (do
      name ← parse_toml_string val
      x ← parse_issue_state name
      ok (record d { state = some x }))
    else if eq_bytes key (codes "author")
    then (do x ← parse_toml_string val; ok (record d { author = x }))
    else if eq_bytes key (codes "created_ts")
    then (do x ← parse_i64 val; ok (record d { created_ts = x }))
    else if eq_bytes key (codes "labels")
    then (do x ← parse_toml_string_array val; ok (record d { labels = x }))
    else if eq_bytes key (codes "assignees")
    then (do x ← parse_toml_string_array val; ok (record d { assignees = x }))
    else if eq_bytes key (codes "mentions")
    then (do x ← parse_toml_u64_array val; ok (record d { mentions = x }))
    else err (invalid "unknown issue field")

-- `if let Some(e) = cur.take() { events.push(e); }`
abbrev pub close_event : Draft → Option Event → Draft
close_event d none = d
close_event d (some e) = record d { events = d.events ++ (e ∷ []); cur = none }

-- A field of the current event, or of the issue where there is none yet.
unfoldable pub take_field : Draft → Option Event → Bytes → Bytes → Result Draft
take_field d none key val = set_field d key val
take_field d (some e) key val = do e' ← set_event_field e key val; ok (record d { cur = some e' })

unfoldable pub decode_line : Draft → Line → Result Draft
decode_line d skipped = ok d
decode_line d event_start = ok (record (close_event d d.cur) { cur = some no_event })
decode_line d malformed = err (refs "issue blob: malformed line")
decode_line d (field key val) = take_field d d.cur key val

unfoldable pub decode_lines : Draft → List Bytes → Result Draft
decode_lines d [] = ok d
decode_lines d (raw ∷ ls) = do d' ← decode_line d (read_line raw); decode_lines d' ls

unfoldable pub finish : Draft → Result Issue
finish d = do
  refuse_if (not d.schema_seen) (invalid "missing schema_version")
  number ← ok_or d.number (invalid "missing number")
  kind ← ok_or d.kind (invalid "missing kind")
  state ← ok_or d.state (invalid "missing state")
  let iss : Issue = record {
    number = number;
    kind = kind;
    title = d.title;
    state = state;
    author = d.author;
    created_ts = d.created_ts;
    labels = d.labels;
    assignees = d.assignees;
    mentions = d.mentions;
    events = d.events;
  }
  validate iss
  ok iss

unfoldable pub decode : Bytes → Result Issue
decode bytes = do
  refuse_if (not (is_utf8 bytes)) (refs "issue blob is not valid utf-8")
  d ← decode_lines draft_start (lines bytes)
  finish (close_event d d.cur)

module _ (debug : Bytes → Bytes) where
  unfoldable pub event_lines : Event → List Bytes
  event_lines e =
      (codes "[[event]]")
      ∷ (codes "kind = " ++ debug (event_kind_str e.kind))
      ∷ (codes "author = " ++ debug e.author)
      ∷ (codes "ts = " ++ print_i64 e.ts)
      ∷ (codes "body = " ++ debug e.body)
      ∷ (codes "add = " ++ toml_string_array debug e.add)
      ∷ (codes "remove = " ++ toml_string_array debug e.remove)
      ∷ (codes "reason = " ++ debug e.reason)
      ∷ ([])
      ∷ []

  unfoldable pub all_event_lines : List Event → List Bytes
  all_event_lines [] = []
  all_event_lines (e ∷ es) = event_lines e ++ all_event_lines es

  unfoldable pub header_lines : Issue → List Bytes
  header_lines x =
      (codes "# generated by gyt; canonical ordering matters")
      ∷ (codes "schema_version = 1")
      ∷ (codes "kind = " ++ debug (issue_kind_str x.kind))
      ∷ (codes "number = " ++ print_u64 x.number)
      ∷ (codes "title = " ++ debug x.title)
      ∷ (codes "state = " ++ debug (issue_state_str x.state))
      ∷ (codes "author = " ++ debug x.author)
      ∷ (codes "created_ts = " ++ print_i64 x.created_ts)
      ∷ (codes "labels = " ++ toml_string_array debug x.labels)
      ∷ (codes "assignees = " ++ toml_string_array debug x.assignees)
      ∷ (codes "mentions = " ++ toml_u64_array x.mentions)
      ∷ ([])
      ∷ []

  -- The lines, each by `writeln!`.
  unfoldable pub encode : Issue → Bytes
  encode x = unlines (header_lines x ++ all_event_lines x.events)
