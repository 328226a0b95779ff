-- ===== src/Metadata/Issues/Updates.antt =====
-- src/issues.rs: which updates `validate_extends` lets through.
use gyt.Base.{
  ℕ, ◌≡◌, refl, sym, ap, ◌∙◌, ◌↔◌, true, not, ◌==◌, ==_iff, if◌then◌else◌, ok, after_test,
  eq_of_not_ne, not_false→true, eq_int, eq_int→eq, eq_int_refl,
}
use gyt.Text.Cuts.{eq_bytes, eq_bytes→eq, eq_bytes_refl}
use gyt.Metadata.Events.{
  same_texts, same_texts→eq, same_texts_refl, and-fst, and-snd, Extends, extend_events_iff,
}
use gyt.Metadata.Issues.{
  IssueKind, EventKind, issue, discussion, open_event, comment, close, reopen, label, assign,
  issue_kind_rank, event_kind_rank, Event, Issue, same_event, event_ts, validate_extends,
}

event_kind_of_rank : ℕ → EventKind
event_kind_of_rank n =
    if n == 0
    then open_event
    else if n == 1
    then comment
    else if n == 2
    then close
    else if n == 3
    then reopen
    else if n == 4
    then label
    else assign

event_kind_of_rank-event_kind_rank : (k : EventKind) → event_kind_of_rank (event_kind_rank k) ≡ k
unfolding event_kind_of_rank
event_kind_of_rank-event_kind_rank open_event = refl
event_kind_of_rank-event_kind_rank comment = refl
event_kind_of_rank-event_kind_rank close = refl
event_kind_of_rank-event_kind_rank reopen = refl
event_kind_of_rank-event_kind_rank label = refl
event_kind_of_rank-event_kind_rank assign = refl

event_kind_rank_inj : (a b : EventKind) → event_kind_rank a ≡ event_kind_rank b → a ≡ b
event_kind_rank_inj a b h =
    sym (event_kind_of_rank-event_kind_rank a)
    ∙ ap event_kind_of_rank h
    ∙ event_kind_of_rank-event_kind_rank b

issue_kind_of_rank : ℕ → IssueKind
issue_kind_of_rank n = if n == 0 then issue else discussion

issue_kind_of_rank-issue_kind_rank : (k : IssueKind) → issue_kind_of_rank (issue_kind_rank k) ≡ k
unfolding issue_kind_of_rank
issue_kind_of_rank-issue_kind_rank issue = refl
issue_kind_of_rank-issue_kind_rank discussion = refl

issue_kind_rank_inj : (a b : IssueKind) → issue_kind_rank a ≡ issue_kind_rank b → a ≡ b
issue_kind_rank_inj a b h =
    sym (issue_kind_of_rank-issue_kind_rank a)
    ∙ ap issue_kind_of_rank h
    ∙ issue_kind_of_rank-issue_kind_rank b

pub same_event→eq : (a b : Event) → same_event a b ≡ true → a ≡ b
same_event→eq a b h =
    let e₁ = event_kind_rank_inj a.kind b.kind ((==_iff _ _).0 (and-fst _ _ h)) in
    let h₂ = and-snd (event_kind_rank a.kind == event_kind_rank b.kind) _ h in
    let e₂ = eq_bytes→eq a.author b.author (and-fst _ _ h₂) in
    let h₃ = and-snd (eq_bytes a.author b.author) _ h₂ in
    let e₃ = eq_int→eq a.ts b.ts (and-fst _ _ h₃) in
    let h₄ = and-snd (eq_int a.ts b.ts) _ h₃ in
    let e₄ = eq_bytes→eq a.body b.body (and-fst _ _ h₄) in
    let h₅ = and-snd (eq_bytes a.body b.body) _ h₄ in
    let e₅ = same_texts→eq a.add b.add (and-fst _ _ h₅) in
    let h₆ = and-snd (same_texts a.add b.add) _ h₅ in
    let e₆ = same_texts→eq a.remove b.remove (and-fst _ _ h₆) in
    let h₇ = and-snd (same_texts a.remove b.remove) _ h₆ in
    let e₇ = eq_bytes→eq a.reason b.reason h₇ in cc

pub same_event_refl : (a : Event) → same_event a a ≡ true
same_event_refl a =
    rw
      (
        (==_iff (event_kind_rank a.kind) (event_kind_rank a.kind)).1 refl,
        eq_bytes_refl a.author,
        eq_int_refl a.ts,
        eq_bytes_refl a.body,
        same_texts_refl a.add,
        same_texts_refl a.remove,
        eq_bytes_refl a.reason,
      )
      refl

-- An update that keeps the header and every event, and adds events in order of time.
pub record IsUpdateOf (old new : Issue) : Type 0 where
  pub number : new.number ≡ old.number
  pub kind : new.kind ≡ old.kind
  pub created_ts : new.created_ts ≡ old.created_ts
  pub author : new.author ≡ old.author
  pub title : new.title ≡ old.title
  pub events : Extends same_event event_ts old.events new.events

-- `validate_extends` accepts exactly the updates that leave number, kind, creation time, author and
-- title alone, keep every event in its place and add events in order of time. State, labels,
-- assignees and mentions are free.
pub validate_extends_iff :
    (old new : Issue) → (validate_extends old new ≡ ok tt) ↔ IsUpdateOf old new
unfolding validate_extends
validate_extends_iff old new = (
  λ h. after_test (not (new.number == old.number)) _ _ h λ t₁ h₁.
      after_test (not (issue_kind_rank new.kind == issue_kind_rank old.kind)) _ _ h₁ λ t₂ h₂.
        after_test (not (eq_int new.created_ts old.created_ts)) _ _ h₂ λ t₃ h₃.
          after_test (not (eq_bytes new.author old.author)) _ _ h₃ λ t₄ h₄.
            after_test (not (eq_bytes new.title old.title)) _ _ h₄ λ t₅ h₅. record {
              number = eq_of_not_ne new.number old.number t₁;
              kind = issue_kind_rank_inj new.kind old.kind (eq_of_not_ne _ _ t₂);
              created_ts = eq_int→eq new.created_ts old.created_ts (not_false→true _ t₃);
              author = eq_bytes→eq new.author old.author (not_false→true _ t₄);
              title = eq_bytes→eq new.title old.title (not_false→true _ t₅);
              events =
                  (extend_events_iff same_event event_ts same_event→eq same_event_refl old.events
                      new.events).0
                    h₅;
            },
  λ u.
      rw
        (
          u.number,
          (==_iff old.number old.number).1 refl,
          u.kind,
          (==_iff (issue_kind_rank old.kind) (issue_kind_rank old.kind)).1 refl,
          u.created_ts,
          eq_int_refl old.created_ts,
          u.author,
          eq_bytes_refl old.author,
          u.title,
          eq_bytes_refl old.title,
        )
        ((extend_events_iff same_event event_ts same_event→eq same_event_refl old.events
            new.events).1
          u.events),
)
