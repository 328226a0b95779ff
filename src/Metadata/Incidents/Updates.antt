-- ===== src/Metadata/Incidents/Updates.antt =====
-- src/incidents.rs: which updates `validate_extends` lets through.
use gyt.Base.{
  ℕ, ◌≡◌, refl, sym, ap, ◌∙◌, ◌↔◌, Bool, true, false, not, ◌&&◌, ◌==◌, ==_iff, if◌then◌else◌, ok,
  after_test, after_ok, eq_of_not_ne, not_false→true, eq_int, eq_int→eq, eq_int_refl,
}
use gyt.Text.Cuts.{eq_bytes, eq_bytes→eq, eq_bytes_refl}
use gyt.Metadata.Events.{
  same_texts, same_texts→eq, same_texts_refl, and-fst, and-snd, not_refused, extend_events, Extends,
  extend_events_iff,
}
use gyt.Metadata.Incidents.{
  IncidentState, detected, investigating, mitigated, resolved, IncidentEventKind, open_event,
  comment, transition, severity, label, assign, set_field, resolve, reopen,
  incident_event_kind_rank, incident_state_rank, IncidentEvent, Incident, same_event, event_ts,
  is_allowed_transition, validate_extends,
}

incident_event_kind_of_rank : ℕ → IncidentEventKind
incident_event_kind_of_rank n =
    if n == 0
    then open_event
    else if n == 1
    then comment
    else if n == 2
    then transition
    else if n == 3
    then severity
    else if n == 4
    then label
    else if n == 5
    then assign
    else if n == 6
    then set_field
    else if n == 7
    then resolve
    else reopen

incident_event_kind_of_rank-incident_event_kind_rank :
    (k : IncidentEventKind) → incident_event_kind_of_rank (incident_event_kind_rank k) ≡ k
unfolding incident_event_kind_of_rank
incident_event_kind_of_rank-incident_event_kind_rank open_event = refl
incident_event_kind_of_rank-incident_event_kind_rank comment = refl
incident_event_kind_of_rank-incident_event_kind_rank transition = refl
incident_event_kind_of_rank-incident_event_kind_rank severity = refl
incident_event_kind_of_rank-incident_event_kind_rank label = refl
incident_event_kind_of_rank-incident_event_kind_rank assign = refl
incident_event_kind_of_rank-incident_event_kind_rank set_field = refl
incident_event_kind_of_rank-incident_event_kind_rank resolve = refl
incident_event_kind_of_rank-incident_event_kind_rank reopen = refl

incident_event_kind_rank_inj :
    (a b : IncidentEventKind) → incident_event_kind_rank a ≡ incident_event_kind_rank b → a ≡ b
incident_event_kind_rank_inj a b h =
    sym (incident_event_kind_of_rank-incident_event_kind_rank a)
    ∙ ap incident_event_kind_of_rank h
    ∙ incident_event_kind_of_rank-incident_event_kind_rank b

pub same_event→eq : (a b : IncidentEvent) → same_event a b ≡ true → a ≡ b
same_event→eq a b h =
    let e₁ = incident_event_kind_rank_inj a.kind b.kind ((==_iff _ _).0 (and-fst _ _ h)) in
    let h₂ = and-snd (incident_event_kind_rank a.kind == incident_event_kind_rank b.kind) _ h in
    let e₂ = eq_bytes→eq a.author b.author (and-fst _ _ h₂) in
    let h₃ = and-snd (eq_bytes a.author b.author) _ h₂ in
    let e₃ = eq_int→eq a.ts b.ts (and-fst _ _ h₃) in
    let h₄ = and-snd (eq_int a.ts b.ts) _ h₃ in
    let e₄ = eq_bytes→eq a.body b.body (and-fst _ _ h₄) in
    let h₅ = and-snd (eq_bytes a.body b.body) _ h₄ in
    let e₅ = same_texts→eq a.add b.add (and-fst _ _ h₅) in
    let h₆ = and-snd (same_texts a.add b.add) _ h₅ in
    let e₆ = same_texts→eq a.remove b.remove (and-fst _ _ h₆) in
    let h₇ = and-snd (same_texts a.remove b.remove) _ h₆ in
    let e₇ = eq_bytes→eq a.reason b.reason (and-fst _ _ h₇) in
    let h₈ = and-snd (eq_bytes a.reason b.reason) _ h₇ in
    let e₈ = eq_bytes→eq a.new_state b.new_state (and-fst _ _ h₈) in
    let h₉ = and-snd (eq_bytes a.new_state b.new_state) _ h₈ in
    let e₉ = eq_bytes→eq a.new_severity b.new_severity (and-fst _ _ h₉) in
    let h₁₀ = and-snd (eq_bytes a.new_severity b.new_severity) _ h₉ in
    let e₁₀ = eq_bytes→eq a.field_key b.field_key (and-fst _ _ h₁₀) in
    let h₁₁ = and-snd (eq_bytes a.field_key b.field_key) _ h₁₀ in
    let e₁₁ = eq_bytes→eq a.field_value b.field_value h₁₁ in cc

pub same_event_refl : (a : IncidentEvent) → same_event a a ≡ true
same_event_refl a =
    rw
      (
        (==_iff (incident_event_kind_rank a.kind) (incident_event_kind_rank a.kind)).1 refl,
        eq_bytes_refl a.author,
        eq_int_refl a.ts,
        eq_bytes_refl a.body,
        same_texts_refl a.add,
        same_texts_refl a.remove,
        eq_bytes_refl a.reason,
        eq_bytes_refl a.new_state,
        eq_bytes_refl a.new_severity,
        eq_bytes_refl a.field_key,
        eq_bytes_refl a.field_value,
      )
      refl

-- The moves of the state: from `detected` to any other, from `investigating` to any other, from
-- `mitigated` on to `resolved` or back to `investigating`, and from `resolved` to `investigating`.
pub data Move : IncidentState → IncidentState → Type 0 where
  stay : (s : IncidentState) → Move s s
  triage : Move detected investigating
  contain : Move detected mitigated
  dismiss : Move detected resolved
  retract : Move investigating detected
  mend : Move investigating mitigated
  settle : Move investigating resolved
  relapse : Move mitigated investigating
  finish : Move mitigated resolved
  revive : Move resolved investigating

abbrev moves : IncidentState → IncidentState → Bool
moves s t = not (incident_state_rank s == incident_state_rank t) && not (is_allowed_transition s t)

moves→Move : (s t : IncidentState) → moves s t ≡ false → Move s t
unfolding is_allowed_transition
moves→Move detected detected h = stay detected
moves→Move detected investigating h = triage
moves→Move detected mitigated h = contain
moves→Move detected resolved h = dismiss
moves→Move investigating detected h = retract
moves→Move investigating investigating h = stay investigating
moves→Move investigating mitigated h = mend
moves→Move investigating resolved h = settle
moves→Move mitigated detected h = absurd (cc)
moves→Move mitigated investigating h = relapse
moves→Move mitigated mitigated h = stay mitigated
moves→Move mitigated resolved h = finish
moves→Move resolved detected h = absurd (cc)
moves→Move resolved investigating h = revive
moves→Move resolved mitigated h = absurd (cc)
moves→Move resolved resolved h = stay resolved

Move→moves : (s t : IncidentState) → Move s t → moves s t ≡ false
unfolding is_allowed_transition
Move→moves detected detected m = refl
Move→moves detected investigating m = refl
Move→moves detected mitigated m = refl
Move→moves detected resolved m = refl
Move→moves investigating detected m = refl
Move→moves investigating investigating m = refl
Move→moves investigating mitigated m = refl
Move→moves investigating resolved m = refl
Move→moves mitigated detected m = elim m [ ]
Move→moves mitigated investigating m = refl
Move→moves mitigated mitigated m = refl
Move→moves mitigated resolved m = refl
Move→moves resolved detected m = elim m [ ]
Move→moves resolved investigating m = refl
Move→moves resolved mitigated m = elim m [ ]
Move→moves resolved resolved m = refl

-- An update that keeps the header and every event, adds events in order of time, and moves the state
-- one allowed step or not at all.
pub record IsUpdateOf (old new : Incident) : Type 0 where
  pub number : new.number ≡ old.number
  pub created_ts : new.created_ts ≡ old.created_ts
  pub author : new.author ≡ old.author
  pub title : new.title ≡ old.title
  pub incident_type : new.incident_type ≡ old.incident_type
  pub events : Extends same_event event_ts old.events new.events
  pub move : Move old.state new.state

-- `validate_extends` accepts exactly the updates that leave number, creation time, author, title and
-- type alone, keep every event in its place, add events in order of time, and keep the state or move
-- it as `Move` says. Severity, fields, labels, assignees and mentions are free.
pub validate_incident_extends_iff :
    (old new : Incident) → (validate_extends old new ≡ ok tt) ↔ IsUpdateOf old new
unfolding validate_extends
validate_incident_extends_iff old new = (
  λ h. after_test (not (new.number == old.number)) _ _ h λ t₁ h₁.
      after_test (not (eq_int new.created_ts old.created_ts)) _ _ h₁ λ t₂ h₂.
        after_test (not (eq_bytes new.author old.author)) _ _ h₂ λ t₃ h₃.
          after_test (not (eq_bytes new.title old.title)) _ _ h₃ λ t₄ h₄.
            after_test (not (eq_bytes new.incident_type old.incident_type)) _ _ h₄ λ t₅ h₅.
              after_ok (extend_events same_event event_ts old.events new.events) _ h₅
                λ u grown moved. record {
                  number = eq_of_not_ne new.number old.number t₁;
                  created_ts = eq_int→eq new.created_ts old.created_ts (not_false→true _ t₂);
                  author = eq_bytes→eq new.author old.author (not_false→true _ t₃);
                  title = eq_bytes→eq new.title old.title (not_false→true _ t₄);
                  incident_type =
                      eq_bytes→eq new.incident_type old.incident_type (not_false→true _ t₅);
                  events =
                      (extend_events_iff same_event event_ts same_event→eq same_event_refl
                          old.events new.events).0
                        grown;
                  move =
                      moves→Move old.state new.state
                        (not_refused (moves old.state new.state) _ moved);
                },
  λ u.
      rw
        (
          u.number,
          (==_iff old.number old.number).1 refl,
          u.created_ts,
          eq_int_refl old.created_ts,
          u.author,
          eq_bytes_refl old.author,
          u.title,
          eq_bytes_refl old.title,
          u.incident_type,
          eq_bytes_refl old.incident_type,
          (extend_events_iff same_event event_ts same_event→eq same_event_refl old.events
                new.events).1
              u.events,
          Move→moves old.state new.state u.move,
        )
        refl,
)
