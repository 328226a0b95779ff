-- ===== src/Metadata/Issues.antt =====
-- src/issues.rs: issues and discussions, their limits and what an update may change.
pub mod Codec
pub mod Updates
use gyt.Base.{
  ℕ, ◌+◌, ◌-◌, ◌≤◌, ◌≡◌, refl, sym, ap, ◌∙◌, ◌↔◌, ◌⊎◌, Bool, true, false, not, ◌&&◌, ◌||◌, List, [],
  ◌∷◌, ◌++◌, map, arith, ltb, ltb_false→le, ◌==◌, ==_iff, if◌then◌else◌, All, length, drop,
  drop_left, Result, ok, err, GytError, refs, ◌>>=◌, ◌>>◌, refuse_if, after_test, after_ok,
  eq_of_not_ne, not_false→true, Bool-cases, inl, inr, ℤ, pos, lt_int, eq_int, eq_int→eq,
  eq_int_refl,
}
use gyt.Text.Cuts.{Bytes, codes, eq_bytes, eq_bytes→eq, eq_bytes_refl}
use gyt.Metadata.Limits.{
  check_text_field, check_ts, check_array, check_entries, IsText, IsTime, IsArray,
  check_text_field_lem, check_ts_lem, check_array_lem,
}
use gyt.Metadata.Events.{
  same_texts, same_texts→eq, same_texts_refl, and-fst, and-snd, not_refused, extend_events, Extends,
  extend_events_iff,
}

pub data IssueKind : Type 0 where
  issue discussion : IssueKind

abbrev pub issue_kind_str : IssueKind → Bytes
issue_kind_str issue = codes "issue"
issue_kind_str discussion = codes "discussion"

unfoldable pub parse_issue_kind : Bytes → Result IssueKind
parse_issue_kind s =
    if eq_bytes s (codes "issue")
    then ok issue
    else if eq_bytes s (codes "discussion")
    then ok discussion
    else err (refs "unknown issue kind")

-- The place of the variant, by which `==` tells them apart.
abbrev pub issue_kind_rank : IssueKind → ℕ
issue_kind_rank issue = 0
issue_kind_rank discussion = 1

pub data IssueState : Type 0 where
  opened closed : IssueState

abbrev pub issue_state_str : IssueState → Bytes
issue_state_str opened = codes "open"
issue_state_str closed = codes "closed"

unfoldable pub parse_issue_state : Bytes → Result IssueState
parse_issue_state s =
    if eq_bytes s (codes "open")
    then ok opened
    else if eq_bytes s (codes "closed")
    then ok closed
    else err (refs "unknown issue state")

-- The place of the variant, by which `==` tells them apart.
abbrev pub issue_state_rank : IssueState → ℕ
issue_state_rank opened = 0
issue_state_rank closed = 1

pub data EventKind : Type 0 where
  open_event comment close reopen label assign : EventKind

abbrev pub event_kind_str : EventKind → Bytes
event_kind_str open_event = codes "open"
event_kind_str comment = codes "comment"
event_kind_str close = codes "close"
event_kind_str reopen = codes "reopen"
event_kind_str label = codes "label"
event_kind_str assign = codes "assign"

unfoldable pub parse_event_kind : Bytes → Result EventKind
parse_event_kind s =
    if eq_bytes s (codes "open")
    then ok open_event
    else if eq_bytes s (codes "comment")
    then ok comment
    else if eq_bytes s (codes "close")
    then ok close
    else if eq_bytes s (codes "reopen")
    then ok reopen
    else if eq_bytes s (codes "label")
    then ok label
    else if eq_bytes s (codes "assign")
    then ok assign
    else err (refs "unknown event kind")

-- The place of the variant, by which `==` tells them apart.
abbrev pub event_kind_rank : EventKind → ℕ
event_kind_rank open_event = 0
event_kind_rank comment = 1
event_kind_rank close = 2
event_kind_rank reopen = 3
event_kind_rank label = 4
event_kind_rank assign = 5

pub record Event : Type 0 where
  pub kind : EventKind
  pub author : Bytes
  pub ts : ℤ
  pub body : Bytes
  pub add : List Bytes
  pub remove : List Bytes
  pub reason : Bytes

pub record Issue : Type 0 where
  pub number : ℕ
  pub kind : IssueKind
  pub title : Bytes
  pub state : IssueState
  pub author : Bytes
  pub created_ts : ℤ
  pub labels : List Bytes
  pub assignees : List Bytes
  pub mentions : List ℕ
  pub events : List Event

-- `==` of the derived `PartialEq`.
abbrev pub same_event : Event → Event → Bool
same_event a b =
    (event_kind_rank a.kind == event_kind_rank b.kind)
    && ((eq_bytes a.author b.author)
        && ((eq_int a.ts b.ts)
            && ((eq_bytes a.body b.body)
                && ((same_texts a.add b.add)
                    && ((same_texts a.remove b.remove) && (eq_bytes a.reason b.reason))))))

abbrev pub event_ts : Event → ℤ
event_ts e = e.ts

-- One round of the loop of `validate`.
unfoldable pub validate_event : Event → Result (Unit {0})
validate_event e = do
  check_text_field e.author 256
  check_text_field e.body 65_536
  check_text_field e.reason 1024
  check_ts e.ts
  check_array e.add 256 256
  check_array e.remove 256 256

unfoldable pub validate_events : List Event → Result (Unit {0})
validate_events [] = ok tt
validate_events (e ∷ es) = do validate_event e; validate_events es

unfoldable pub validate : Issue → Result (Unit {0})
validate iss = do
  check_text_field iss.title 1024
  check_text_field iss.author 256
  check_ts iss.created_ts
  check_array iss.labels 256 256
  check_array iss.assignees 256 256
  refuse_if (ltb 1024 (length iss.mentions)) (refs "mentions too long")
  refuse_if (ltb 100_000 (length iss.events)) (refs "events too long")
  validate_events iss.events

unfoldable pub validate_extends : Issue → Issue → Result (Unit {0})
validate_extends old new = do
  refuse_if (not (new.number == old.number)) (refs "issue rewind: number changed")
  refuse_if (not (issue_kind_rank new.kind == issue_kind_rank old.kind))
      (refs "issue rewind: kind changed")
  refuse_if (not (eq_int new.created_ts old.created_ts)) (refs "issue rewind: created_ts changed")
  refuse_if (not (eq_bytes new.author old.author)) (refs "issue rewind: author changed")
  refuse_if (not (eq_bytes new.title old.title)) (refs "issue rewind: title changed")
  extend_events same_event event_ts old.events new.events
