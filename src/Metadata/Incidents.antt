-- ===== src/Metadata/Incidents.antt =====
-- src/incidents.rs: incidents, their limits and what an update may change. The sorted map `fields`
-- is the list of its entries, in order.
pub mod Table
pub mod Codec
pub mod Updates
use gyt.Base.{
  ℕ, ◌+◌, ◌-◌, ◌≤◌, ◌≡◌, refl, sym, ap, ◌∙◌, ◌↔◌, ◌⊎◌, Bool, true, false, not, ◌&&◌, ◌||◌, List, [],
  ◌∷◌, ◌++◌, map, arith, ltb, ltb_false→le, ◌==◌, ==_iff, if◌then◌else◌, All, length, drop,
  drop_left, Result, ok, err, GytError, refs, ◌>>=◌, ◌>>◌, refuse_if, after_test, after_ok,
  eq_of_not_ne, not_false→true, Bool-cases, inl, inr, ℤ, pos, lt_int, eq_int, eq_int→eq,
  eq_int_refl,
}
use gyt.Text.Cuts.{Bytes, codes, eq_bytes, eq_bytes→eq, eq_bytes_refl}
use gyt.Metadata.Limits.{
  check_text_field, check_ts, check_array, check_entries, IsText, IsTime, IsArray,
  check_text_field_lem, check_ts_lem, check_array_lem,
}
use gyt.Metadata.Events.{
  same_texts, same_texts→eq, same_texts_refl, and-fst, and-snd, not_refused, extend_events, Extends,
  extend_events_iff,
}

pub data IncidentState : Type 0 where
  detected investigating mitigated resolved : IncidentState

abbrev pub incident_state_str : IncidentState → Bytes
incident_state_str detected = codes "detected"
incident_state_str investigating = codes "investigating"
incident_state_str mitigated = codes "mitigated"
incident_state_str resolved = codes "resolved"

unfoldable pub parse_incident_state : Bytes → Result IncidentState
parse_incident_state s =
    if eq_bytes s (codes "detected")
    then ok detected
    else if eq_bytes s (codes "investigating")
    then ok investigating
    else if eq_bytes s (codes "mitigated")
    then ok mitigated
    else if eq_bytes s (codes "resolved")
    then ok resolved
    else err (refs "unknown incident state")

-- The place of the variant, by which `==` tells them apart.
abbrev pub incident_state_rank : IncidentState → ℕ
incident_state_rank detected = 0
incident_state_rank investigating = 1
incident_state_rank mitigated = 2
incident_state_rank resolved = 3

pub data Severity : Type 0 where
  sev1 sev2 sev3 sev4 : Severity

abbrev pub severity_str : Severity → Bytes
severity_str sev1 = codes "sev1"
severity_str sev2 = codes "sev2"
severity_str sev3 = codes "sev3"
severity_str sev4 = codes "sev4"

unfoldable pub parse_severity : Bytes → Result Severity
parse_severity s =
    if eq_bytes s (codes "sev1") || eq_bytes s (codes "SEV1") || eq_bytes s (codes "1")
    then ok sev1
    else if eq_bytes s (codes "sev2") || eq_bytes s (codes "SEV2") || eq_bytes s (codes "2")
    then ok sev2
    else if eq_bytes s (codes "sev3") || eq_bytes s (codes "SEV3") || eq_bytes s (codes "3")
    then ok sev3
    else if eq_bytes s (codes "sev4") || eq_bytes s (codes "SEV4") || eq_bytes s (codes "4")
    then ok sev4
    else err (refs "unknown severity")

-- The place of the variant, by which `==` tells them apart.
abbrev pub severity_rank : Severity → ℕ
severity_rank sev1 = 0
severity_rank sev2 = 1
severity_rank sev3 = 2
severity_rank sev4 = 3

pub data IncidentEventKind : Type 0 where
  open_event comment transition severity label assign set_field resolve reopen : IncidentEventKind

abbrev pub incident_event_kind_str : IncidentEventKind → Bytes
incident_event_kind_str open_event = codes "open"
incident_event_kind_str comment = codes "comment"
incident_event_kind_str transition = codes "transition"
incident_event_kind_str severity = codes "severity"
incident_event_kind_str label = codes "label"
incident_event_kind_str assign = codes "assign"
incident_event_kind_str set_field = codes "set_field"
incident_event_kind_str resolve = codes "resolve"
incident_event_kind_str reopen = codes "reopen"

unfoldable pub parse_incident_event_kind : Bytes → Result IncidentEventKind
parse_incident_event_kind s =
    if eq_bytes s (codes "open")
    then ok open_event
    else if eq_bytes s (codes "comment")
    then ok comment
    else if eq_bytes s (codes "transition")
    then ok transition
    else if eq_bytes s (codes "severity")
    then ok severity
    else if eq_bytes s (codes "label")
    then ok label
    else if eq_bytes s (codes "assign")
    then ok assign
    else if eq_bytes s (codes "set_field")
    then ok set_field
    else if eq_bytes s (codes "resolve")
    then ok resolve
    else if eq_bytes s (codes "reopen")
    then ok reopen
    else err (refs "unknown incident event")

-- The place of the variant, by which `==` tells them apart.
abbrev pub incident_event_kind_rank : IncidentEventKind → ℕ
incident_event_kind_rank open_event = 0
incident_event_kind_rank comment = 1
incident_event_kind_rank transition = 2
incident_event_kind_rank severity = 3
incident_event_kind_rank label = 4
incident_event_kind_rank assign = 5
incident_event_kind_rank set_field = 6
incident_event_kind_rank resolve = 7
incident_event_kind_rank reopen = 8

pub record IncidentEvent : Type 0 where
  pub kind : IncidentEventKind
  pub author : Bytes
  pub ts : ℤ
  pub body : Bytes
  pub add : List Bytes
  pub remove : List Bytes
  pub reason : Bytes
  pub new_state : Bytes
  pub new_severity : Bytes
  pub field_key : Bytes
  pub field_value : Bytes

pub record Incident : Type 0 where
  pub number : ℕ
  pub title : Bytes
  pub state : IncidentState
  pub level : Severity
  pub incident_type : Bytes
  pub author : Bytes
  pub created_ts : ℤ
  pub labels : List Bytes
  pub assignees : List Bytes
  pub mentions : List ℕ
  pub fields : List (Bytes × Bytes)
  pub events : List IncidentEvent

-- `==` of the derived `PartialEq`.
abbrev pub same_event : IncidentEvent → IncidentEvent → Bool
same_event a b =
    (incident_event_kind_rank a.kind == incident_event_kind_rank b.kind)
    && ((eq_bytes a.author b.author)
        && ((eq_int a.ts b.ts)
            && ((eq_bytes a.body b.body)
                && ((same_texts a.add b.add)
                    && ((same_texts a.remove b.remove)
                        && ((eq_bytes a.reason b.reason)
                            && ((eq_bytes a.new_state b.new_state)
                                && ((eq_bytes a.new_severity b.new_severity)
                                    && ((eq_bytes a.field_key b.field_key)
                                        && (eq_bytes a.field_value b.field_value))))))))))

abbrev pub event_ts : IncidentEvent → ℤ
event_ts e = e.ts

unfoldable pub validate_fields : List (Bytes × Bytes) → Result (Unit {0})
validate_fields [] = ok tt
validate_fields ((k, v) ∷ fields) = do
  check_text_field k 128
  check_text_field v 4096
  validate_fields fields

-- One round of the loop of `validate`.
unfoldable pub validate_event : IncidentEvent → Result (Unit {0})
validate_event e = do
  check_text_field e.author 256
  check_text_field e.body 65_536
  check_text_field e.reason 1024
  check_text_field e.new_state 64
  check_text_field e.new_severity 64
  check_text_field e.field_key 128
  check_text_field e.field_value 4096
  check_ts e.ts
  check_array e.add 256 256
  check_array e.remove 256 256

unfoldable pub validate_events : List IncidentEvent → Result (Unit {0})
validate_events [] = ok tt
validate_events (e ∷ es) = do validate_event e; validate_events es

unfoldable pub validate : Incident → Result (Unit {0})
validate inc = do
  check_text_field inc.title 1024
  check_text_field inc.incident_type 128
  check_text_field inc.author 256
  check_ts inc.created_ts
  check_array inc.labels 256 256
  check_array inc.assignees 256 256
  refuse_if (ltb 1024 (length inc.mentions)) (refs "mentions too long")
  refuse_if (ltb 256 (length inc.fields)) (refs "fields too many")
  validate_fields inc.fields
  refuse_if (ltb 100_000 (length inc.events)) (refs "events too long")
  validate_events inc.events

unfoldable pub is_allowed_transition : IncidentState → IncidentState → Bool
is_allowed_transition detected investigating = true
is_allowed_transition detected mitigated = true
is_allowed_transition detected resolved = true
is_allowed_transition investigating detected = true
is_allowed_transition investigating mitigated = true
is_allowed_transition investigating resolved = true
is_allowed_transition mitigated investigating = true
is_allowed_transition mitigated resolved = true
is_allowed_transition resolved investigating = true
is_allowed_transition _ _ = false

unfoldable pub validate_extends : Incident → Incident → Result (Unit {0})
validate_extends old new = do
  refuse_if (not (new.number == old.number)) (refs "incident rewind: number changed")
  refuse_if (not (eq_int new.created_ts old.created_ts))
      (refs "incident rewind: created_ts changed")
  refuse_if (not (eq_bytes new.author old.author)) (refs "incident rewind: author changed")
  refuse_if (not (eq_bytes new.title old.title)) (refs "incident rewind: title changed")
  refuse_if (not (eq_bytes new.incident_type old.incident_type))
      (refs "incident rewind: incident_type changed")
  extend_events same_event event_ts old.events new.events
  refuse_if
      (not (incident_state_rank old.state == incident_state_rank new.state)
        && not (is_allowed_transition old.state new.state))
      (refs "incident rewind: invalid state transition")
