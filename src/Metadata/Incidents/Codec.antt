-- ===== src/Metadata/Incidents/Codec.antt =====
-- src/incidents.rs: the codec of incident blobs.
use gyt.Base.{
  ℕ, Bool, true, false, not, Option, none, some, List, [], ◌∷◌, ◌++◌, ◌==◌, if◌then◌else◌, Result,
  ok, err, refs, ◌>>=◌, ◌>>◌, refuse_if, ok_or, ℤ, pos,
}
use gyt.Text.Cuts.{Bytes, codes, eq_bytes}
use gyt.Text.Utf8.{is_utf8}
use gyt.Text.Lines.{lines}
use gyt.Text.Blocks.{unlines}
use gyt.Text.Radix.{from_str_radix}
use gyt.Metadata.Toml.{
  u32_max, invalid, parse_toml_string, parse_toml_string_array, parse_toml_u64_array, parse_u64,
  parse_i64, Line, skipped, event_start, malformed, field, read_line, print_u64, print_i64,
  toml_string_array, toml_u64_array,
}
use gyt.Metadata.Incidents.Table.{parse_toml_string_map, toml_string_map}
use gyt.Metadata.Incidents.{
  Incident, IncidentState, Severity, IncidentEvent, comment, parse_incident_state, parse_severity,
  parse_incident_event_kind, incident_state_str, severity_str, incident_event_kind_str, validate,
}

-- Before any of its fields: what `[[event]]` starts.
abbrev pub no_event : IncidentEvent
no_event = record {
  kind = comment;
  author = [];
  ts = pos 0;
  body = [];
  add = [];
  remove = [];
  reason = [];
  new_state = [];
  new_severity = [];
  field_key = [];
  field_value = [];
}

unfoldable pub set_event_field : IncidentEvent → Bytes → Bytes → Result IncidentEvent
set_event_field e key val =
    if eq_bytes key (codes "kind")
    then (do
      name ← parse_toml_string val
      k ← parse_incident_event_kind name
      ok (record e { kind = k }))
    else if eq_bytes key (codes "author")
    then (do x ← parse_toml_string val; ok (record e { author = x }))
    else if eq_bytes key (codes "ts")
    then (do x ← parse_i64 val; ok (record e { ts = x }))
    else if eq_bytes key (codes "body")
    then (do x ← parse_toml_string val; ok (record e { body = x }))
    else if eq_bytes key (codes "add")
    then (do x ← parse_toml_string_array val; ok (record e { add = x }))
    else if eq_bytes key (codes "remove")
    then (do x ← parse_toml_string_array val; ok (record e { remove = x }))
    else if eq_bytes key (codes "reason")
    then (do x ← parse_toml_string val; ok (record e { reason = x }))
    else if eq_bytes key (codes "new_state")
    then (do x ← parse_toml_string val; ok (record e { new_state = x }))
    else if eq_bytes key (codes "new_severity")
    then (do x ← parse_toml_string val; ok (record e { new_severity = x }))
    else if eq_bytes key (codes "field_key")
    then (do x ← parse_toml_string val; ok (record e { field_key = x }))
    else if eq_bytes key (codes "field_value")
    then (do x ← parse_toml_string val; ok (record e { field_value = x }))
    else err (invalid "unknown event field")

-- The local variables of `decode`.
pub record Draft : Type 0 where
  pub number : Option ℕ
  pub title : Bytes
  pub state : Option IncidentState
  pub level : Option Severity
  pub incident_type : Bytes
  pub author : Bytes
  pub created_ts : ℤ
  pub labels : List Bytes
  pub assignees : List Bytes
  pub mentions : List ℕ
  pub fields : List (Bytes × Bytes)
  pub schema_seen : Bool
  pub kind_seen : Bool
  pub events : List IncidentEvent
  pub cur : Option IncidentEvent

abbrev pub draft_start : Draft
draft_start = record {
  number = none;
  title = [];
  state = none;
  level = none;
  incident_type = [];
  author = [];
  created_ts = pos 0;
  labels = [];
  assignees = [];
  mentions = [];
  fields = [];
  schema_seen = false;
  kind_seen = false;
  events = [];
  cur = none;
}

unfoldable pub set_field : Draft → Bytes → Bytes → Result Draft
set_field d key val =
    if eq_bytes key (codes "schema_version")
    then (do
      v ← ok_or (from_str_radix 10 u32_max val) (invalid "schema_version")
      refuse_if (not (v == 1)) (refs "unsupported schema_version")
      ok (record d { schema_seen = true }))
    else if eq_bytes key (codes "kind")
    then (do
      x ← parse_toml_string val
      refuse_if (not (eq_bytes x (codes "incident"))) (invalid "kind")
      ok (record d { kind_seen = true }))
    else if eq_bytes key (codes "number")
    then (do x ← parse_u64 val; ok (record d { number = some x }))
    else if eq_bytes key (codes "title")
    then (do x ← parse_toml_string val; ok (record d { title = x }))
    else if eq_bytes key (codes "state")
    then (do
      name ← parse_toml_string val
      x ← parse_incident_state name
      ok (record d { state = some x }))
    else if eq_bytes key (codes "severity")
    then (do
      name ← parse_toml_string val
      x ← parse_severity name
      ok (record d { level = some x }))
    else if eq_bytes key (codes "incident_type")
    then (do x ← parse_toml_string val; ok (record d { incident_type = x }))
    else if eq_bytes key (codes "author")
    then (do x ← parse_toml_string val; ok (record d { author = x }))
    else if eq_bytes key (codes "created_ts")
    then (do x ← parse_i64 val; ok (record d { created_ts = x }))
    else if eq_bytes key (codes "labels")
    then (do x ← parse_toml_string_array val; ok (record d { labels = x }))
    else if eq_bytes key (codes "assignees")
    then (do x ← parse_toml_string_array val; ok (record d { assignees = x }))
    else if eq_bytes key (codes "mentions")
    then (do x ← parse_toml_u64_array val; ok (record d { mentions = x }))
    else if eq_bytes key (codes "fields")
    then (do x ← parse_toml_string_map val; ok (record d { fields = x }))
    else err (invalid "unknown incident field")

-- `if let Some(e) = cur.take() { events.push(e); }`
abbrev pub close_event : Draft → Option IncidentEvent → Draft
close_event d none = d
close_event d (some e) = record d { events = d.events ++ (e ∷ []); cur = none }

-- A field of the current event, or of the incident where there is none yet.
unfoldable pub take_field : Draft → Option IncidentEvent → Bytes → Bytes → Result Draft
take_field d none key val = set_field d key val
take_field d (some e) key val = do e' ← set_event_field e key val; ok (record d { cur = some e' })

unfoldable pub decode_line : Draft → Line → Result Draft
decode_line d skipped = ok d
decode_line d event_start = ok (record (close_event d d.cur) { cur = some no_event })
decode_line d malformed = err (refs "incident blob: malformed line")
decode_line d (field key val) = take_field d d.cur key val

unfoldable pub decode_lines : Draft → List Bytes → Result Draft
decode_lines d [] = ok d
decode_lines d (raw ∷ ls) = do d' ← decode_line d (read_line raw); decode_lines d' ls

unfoldable pub finish : Draft → Result Incident
finish d = do
  refuse_if (not d.schema_seen) (invalid "missing schema_version")
  refuse_if (not d.kind_seen) (invalid "missing kind")
  number ← ok_or d.number (invalid "missing number")
  state ← ok_or d.state (invalid "missing state")
  level ← ok_or d.level (invalid "missing severity")
  let inc : Incident = record {
    number = number;
    title = d.title;
    state = state;
    level = level;
    incident_type = d.incident_type;
    author = d.author;
    created_ts = d.created_ts;
    labels = d.labels;
    assignees = d.assignees;
    mentions = d.mentions;
    fields = d.fields;
    events = d.events;
  }
  validate inc
  ok inc

unfoldable pub decode : Bytes → Result Incident
decode bytes = do
  refuse_if (not (is_utf8 bytes)) (refs "incident blob is not valid utf-8")
  d ← decode_lines draft_start (lines bytes)
  finish (close_event d d.cur)

module _ (debug : Bytes → Bytes) where
  unfoldable pub event_lines : IncidentEvent → List Bytes
  event_lines e =
      (codes "[[event]]")
      ∷ (codes "kind = " ++ debug (incident_event_kind_str e.kind))
      ∷ (codes "author = " ++ debug e.author)
      ∷ (codes "ts = " ++ print_i64 e.ts)
      ∷ (codes "body = " ++ debug e.body)
      ∷ (codes "add = " ++ toml_string_array debug e.add)
      ∷ (codes "remove = " ++ toml_string_array debug e.remove)
      ∷ (codes "reason = " ++ debug e.reason)
      ∷ (codes "new_state = " ++ debug e.new_state)
      ∷ (codes "new_severity = " ++ debug e.new_severity)
      ∷ (codes "field_key = " ++ debug e.field_key)
      ∷ (codes "field_value = " ++ debug e.field_value)
      ∷ ([])
      ∷ []

  unfoldable pub all_event_lines : List IncidentEvent → List Bytes
  all_event_lines [] = []
  all_event_lines (e ∷ es) = event_lines e ++ all_event_lines es

  unfoldable pub header_lines : Incident → List Bytes
  header_lines x =
      (codes "# generated by gyt; canonical ordering matters")
      ∷ (codes "schema_version = 1")
      ∷ (codes "kind = \"incident\"")
      ∷ (codes "number = " ++ print_u64 x.number)
      ∷ (codes "title = " ++ debug x.title)
      ∷ (codes "state = " ++ debug (incident_state_str x.state))
      ∷ (codes "severity = " ++ debug (severity_str x.level))
      ∷ (codes "incident_type = " ++ debug x.incident_type)
      ∷ (codes "author = " ++ debug x.author)
      ∷ (codes "created_ts = " ++ print_i64 x.created_ts)
      ∷ (codes "labels = " ++ toml_string_array debug x.labels)
      ∷ (codes "assignees = " ++ toml_string_array debug x.assignees)
      ∷ (codes "mentions = " ++ toml_u64_array x.mentions)
      ∷ (codes "fields = " ++ toml_string_map debug x.fields)
      ∷ ([])
      ∷ []

  -- The lines, each by `writeln!`.
  unfoldable pub encode : Incident → Bytes
  encode x = unlines (header_lines x ++ all_event_lines x.events)
