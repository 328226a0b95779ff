-- ===== src/Metadata/Prs.antt =====
-- src/prs.rs: pull requests, their limits and what an update may change.
pub mod Codec
pub mod Updates
use gyt.Base.{
  ℕ, ◌+◌, ◌-◌, ◌≤◌, ◌≡◌, refl, sym, ap, ◌∙◌, ◌↔◌, ◌⊎◌, Bool, true, false, not, ◌&&◌, ◌||◌, List, [],
  ◌∷◌, ◌++◌, map, arith, ltb, ltb_false→le, ◌==◌, ==_iff, if◌then◌else◌, All, length, drop,
  drop_left, Result, ok, err, GytError, refs, ◌>>=◌, ◌>>◌, refuse_if, after_test, after_ok,
  eq_of_not_ne, not_false→true, Bool-cases, inl, inr, ℤ, pos, lt_int, eq_int, eq_int→eq,
  eq_int_refl,
}
use gyt.Text.Cuts.{Bytes, codes, eq_bytes, eq_bytes→eq, eq_bytes_refl}
use gyt.Metadata.Limits.{
  check_text_field, check_ts, check_array, check_entries, IsText, IsTime, IsArray,
  check_text_field_lem, check_ts_lem, check_array_lem,
}
use gyt.Metadata.Events.{
  same_texts, same_texts→eq, same_texts_refl, and-fst, and-snd, not_refused, extend_events, Extends,
  extend_events_iff,
}
use gyt.Refs.{validate_ref_name}

pub data PrState : Type 0 where
  opened closed merged : PrState

abbrev pub pr_state_str : PrState → Bytes
pr_state_str opened = codes "open"
pr_state_str closed = codes "closed"
pr_state_str merged = codes "merged"

unfoldable pub parse_pr_state : Bytes → Result PrState
parse_pr_state s =
    if eq_bytes s (codes "open")
    then ok opened
    else if eq_bytes s (codes "closed")
    then ok closed
    else if eq_bytes s (codes "merged")
    then ok merged
    else err (refs "unknown pr state")

-- The place of the variant, by which `==` tells them apart.
abbrev pub pr_state_rank : PrState → ℕ
pr_state_rank opened = 0
pr_state_rank closed = 1
pr_state_rank merged = 2

pub data PrEventKind : Type 0 where
  open_event comment close reopen label assign merge ci_run : PrEventKind

abbrev pub pr_event_kind_str : PrEventKind → Bytes
pr_event_kind_str open_event = codes "open"
pr_event_kind_str comment = codes "comment"
pr_event_kind_str close = codes "close"
pr_event_kind_str reopen = codes "reopen"
pr_event_kind_str label = codes "label"
pr_event_kind_str assign = codes "assign"
pr_event_kind_str merge = codes "merge"
pr_event_kind_str ci_run = codes "ci_run"

unfoldable pub parse_pr_event_kind : Bytes → Result PrEventKind
parse_pr_event_kind s =
    if eq_bytes s (codes "open")
    then ok open_event
    else if eq_bytes s (codes "comment")
    then ok comment
    else if eq_bytes s (codes "close")
    then ok close
    else if eq_bytes s (codes "reopen")
    then ok reopen
    else if eq_bytes s (codes "label")
    then ok label
    else if eq_bytes s (codes "assign")
    then ok assign
    else if eq_bytes s (codes "merge")
    then ok merge
    else if eq_bytes s (codes "ci_run")
    then ok ci_run
    else err (refs "unknown pr event")

-- The place of the variant, by which `==` tells them apart.
abbrev pub pr_event_kind_rank : PrEventKind → ℕ
pr_event_kind_rank open_event = 0
pr_event_kind_rank comment = 1
pr_event_kind_rank close = 2
pr_event_kind_rank reopen = 3
pr_event_kind_rank label = 4
pr_event_kind_rank assign = 5
pr_event_kind_rank merge = 6
pr_event_kind_rank ci_run = 7

pub record PrEvent : Type 0 where
  pub kind : PrEventKind
  pub author : Bytes
  pub ts : ℤ
  pub body : Bytes
  pub add : List Bytes
  pub remove : List Bytes
  pub reason : Bytes
  pub result : Bytes

pub record Pr : Type 0 where
  pub number : ℕ
  pub title : Bytes
  pub state : PrState
  pub source_ref : Bytes
  pub target_ref : Bytes
  pub author : Bytes
  pub created_ts : ℤ
  pub labels : List Bytes
  pub assignees : List Bytes
  pub mentions : List ℕ
  pub events : List PrEvent

-- `==` of the derived `PartialEq`.
abbrev pub same_event : PrEvent → PrEvent → Bool
same_event a b =
    (pr_event_kind_rank a.kind == pr_event_kind_rank b.kind)
    && ((eq_bytes a.author b.author)
        && ((eq_int a.ts b.ts)
            && ((eq_bytes a.body b.body)
                && ((same_texts a.add b.add)
                    && ((same_texts a.remove b.remove)
                        && ((eq_bytes a.reason b.reason) && (eq_bytes a.result b.result)))))))

abbrev pub event_ts : PrEvent → ℤ
event_ts e = e.ts

-- `map_err` to a `Refs` error.
abbrev pub check_ref : Bytes → Result (Unit {0})
check_ref name = elim (validate_ref_name name) [
  | ok u ↦ ok u
  | err e ↦ err (refs "bad ref name")
  | Result.stuck ↦ Result.stuck
]

-- One round of the loop of `validate`.
unfoldable pub validate_event : PrEvent → Result (Unit {0})
validate_event e = do
  check_text_field e.author 256
  check_text_field e.body 65_536
  check_text_field e.reason 1024
  check_text_field e.result 4096
  check_ts e.ts
  check_array e.add 256 256
  check_array e.remove 256 256

unfoldable pub validate_events : List PrEvent → Result (Unit {0})
validate_events [] = ok tt
validate_events (e ∷ es) = do validate_event e; validate_events es

unfoldable pub validate : Pr → Result (Unit {0})
validate pr = do
  check_text_field pr.title 1024
  check_text_field pr.author 256
  check_text_field pr.source_ref 255
  check_text_field pr.target_ref 255
  check_ref pr.source_ref
  check_ref pr.target_ref
  check_ts pr.created_ts
  check_array pr.labels 256 256
  check_array pr.assignees 256 256
  refuse_if (ltb 1024 (length pr.mentions)) (refs "mentions too long")
  refuse_if (ltb 100_000 (length pr.events)) (refs "events too long")
  validate_events pr.events

-- `iter().any(|e| e.kind == PrEventKind::Merge)`
unfoldable pub has_merge : List PrEvent → Bool
has_merge [] = false
has_merge (e ∷ es) = pr_event_kind_rank e.kind == pr_event_kind_rank merge || has_merge es

-- The match on the old and the new state.
unfoldable pub check_transition : PrState → PrState → List PrEvent → Result (Unit {0})
check_transition opened opened appended = ok tt
check_transition opened closed appended = ok tt
check_transition opened merged appended =
    refuse_if (not (has_merge appended)) (refs "state -> merged requires a merge event")
check_transition closed opened appended = ok tt
check_transition closed closed appended = ok tt
check_transition closed merged appended =
    refuse_if (not (has_merge appended)) (refs "state -> merged requires a merge event")
check_transition merged opened appended = err (refs "cannot transition out of merged state")
check_transition merged closed appended = err (refs "cannot transition out of merged state")
check_transition merged merged appended = ok tt

unfoldable pub validate_extends : Pr → Pr → Result (Unit {0})
validate_extends old new = do
  refuse_if (not (new.number == old.number)) (refs "pr rewind: number changed")
  refuse_if (not (eq_int new.created_ts old.created_ts)) (refs "pr rewind: created_ts changed")
  refuse_if (not (eq_bytes new.author old.author)) (refs "pr rewind: author changed")
  refuse_if (not (eq_bytes new.title old.title)) (refs "pr rewind: title changed")
  refuse_if (not (eq_bytes new.source_ref old.source_ref)) (refs "pr rewind: source_ref changed")
  refuse_if (not (eq_bytes new.target_ref old.target_ref)) (refs "pr rewind: target_ref changed")
  extend_events same_event event_ts old.events new.events
  check_transition old.state new.state (drop (length old.events) new.events)
