-- ===== src/Metadata/Prs/Updates.antt =====
-- src/prs.rs: which updates `validate_extends` lets through.
use gyt.Base.{
  ℕ, ◌≡◌, refl, sym, ap, ◌∙◌, ◌↔◌, ◌⊎◌, true, not, List, [], ◌∷◌, ◌++◌, ◌==◌, ==_iff, if◌then◌else◌,
  length, drop, drop_left, ok, GytError, refuse_if, after_test, after_ok, eq_of_not_ne,
  not_false→true, Bool-cases, inl, inr, eq_int, eq_int→eq, eq_int_refl,
}
use gyt.Text.Cuts.{eq_bytes, eq_bytes→eq, eq_bytes_refl}
use gyt.Metadata.Events.{
  same_texts, same_texts→eq, same_texts_refl, and-fst, and-snd, not_refused, extend_events, Extends,
  extend_events_iff,
}
use gyt.Metadata.Prs.{
  PrState, PrEventKind, opened, closed, merged, open_event, comment, close, reopen, label, assign,
  merge, ci_run, pr_event_kind_rank, PrEvent, Pr, same_event, event_ts, has_merge, check_transition,
  validate_extends,
}

pr_event_kind_of_rank : ℕ → PrEventKind
pr_event_kind_of_rank n =
    if n == 0
    then open_event
    else if n == 1
    then comment
    else if n == 2
    then close
    else if n == 3
    then reopen
    else if n == 4
    then label
    else if n == 5
    then assign
    else if n == 6
    then merge
    else ci_run

pr_event_kind_of_rank-pr_event_kind_rank :
    (k : PrEventKind) → pr_event_kind_of_rank (pr_event_kind_rank k) ≡ k
unfolding pr_event_kind_of_rank
pr_event_kind_of_rank-pr_event_kind_rank open_event = refl
pr_event_kind_of_rank-pr_event_kind_rank comment = refl
pr_event_kind_of_rank-pr_event_kind_rank close = refl
pr_event_kind_of_rank-pr_event_kind_rank reopen = refl
pr_event_kind_of_rank-pr_event_kind_rank label = refl
pr_event_kind_of_rank-pr_event_kind_rank assign = refl
pr_event_kind_of_rank-pr_event_kind_rank merge = refl
pr_event_kind_of_rank-pr_event_kind_rank ci_run = refl

pr_event_kind_rank_inj : (a b : PrEventKind) → pr_event_kind_rank a ≡ pr_event_kind_rank b → a ≡ b
pr_event_kind_rank_inj a b h =
    sym (pr_event_kind_of_rank-pr_event_kind_rank a)
    ∙ ap pr_event_kind_of_rank h
    ∙ pr_event_kind_of_rank-pr_event_kind_rank b

pub same_event→eq : (a b : PrEvent) → same_event a b ≡ true → a ≡ b
same_event→eq a b h =
    let e₁ = pr_event_kind_rank_inj a.kind b.kind ((==_iff _ _).0 (and-fst _ _ h)) in
    let h₂ = and-snd (pr_event_kind_rank a.kind == pr_event_kind_rank b.kind) _ h in
    let e₂ = eq_bytes→eq a.author b.author (and-fst _ _ h₂) in
    let h₃ = and-snd (eq_bytes a.author b.author) _ h₂ in
    let e₃ = eq_int→eq a.ts b.ts (and-fst _ _ h₃) in
    let h₄ = and-snd (eq_int a.ts b.ts) _ h₃ in
    let e₄ = eq_bytes→eq a.body b.body (and-fst _ _ h₄) in
    let h₅ = and-snd (eq_bytes a.body b.body) _ h₄ in
    let e₅ = same_texts→eq a.add b.add (and-fst _ _ h₅) in
    let h₆ = and-snd (same_texts a.add b.add) _ h₅ in
    let e₆ = same_texts→eq a.remove b.remove (and-fst _ _ h₆) in
    let h₇ = and-snd (same_texts a.remove b.remove) _ h₆ in
    let e₇ = eq_bytes→eq a.reason b.reason (and-fst _ _ h₇) in
    let h₈ = and-snd (eq_bytes a.reason b.reason) _ h₇ in
    let e₈ = eq_bytes→eq a.result b.result h₈ in cc

pub same_event_refl : (a : PrEvent) → same_event a a ≡ true
same_event_refl a =
    rw
      (
        (==_iff (pr_event_kind_rank a.kind) (pr_event_kind_rank a.kind)).1 refl,
        eq_bytes_refl a.author,
        eq_int_refl a.ts,
        eq_bytes_refl a.body,
        same_texts_refl a.add,
        same_texts_refl a.remove,
        eq_bytes_refl a.reason,
        eq_bytes_refl a.result,
      )
      refl

-- Some event is a merge.
abbrev pub HasMerge : List PrEvent → Type 0
HasMerge [] = ⊥
HasMerge (e ∷ es) = (e.kind ≡ merge) ⊎ HasMerge es

has_merge→HasMerge : (es : List PrEvent) → has_merge es ≡ true → HasMerge es
unfolding has_merge
has_merge→HasMerge [] h = absurd (cc)
has_merge→HasMerge (e ∷ es) h = elim (Bool-cases (pr_event_kind_rank e.kind == 6)) [
  | inl same ↦ inl (pr_event_kind_rank_inj e.kind merge ((==_iff _ _).0 same))
  | inr other ↦ inr (has_merge→HasMerge es (rw other at h))
]

HasMerge→has_merge : (es : List PrEvent) → HasMerge es → has_merge es ≡ true
unfolding has_merge
HasMerge→has_merge [] h = elim h [ ]
HasMerge→has_merge (e ∷ es) (inl same) = rw same refl
HasMerge→has_merge (e ∷ es) (inr rest) = elim (Bool-cases (pr_event_kind_rank e.kind == 6)) [
  | inl same ↦ rw same refl
  | inr other ↦ rw other (HasMerge→has_merge es rest)
]

-- The moves of the state when these events are added.
pub data Move (added : List PrEvent) : PrState → PrState → Type 0 where
  stay : (s : PrState) → Move added s s
  shut : Move added opened closed
  again : Move added closed opened
  join : (s : PrState) → HasMerge added → Move added s merged

merge_needed :
    (s : PrState) (added : List PrEvent) (e : GytError)
    → refuse_if (not (has_merge added)) e ≡ ok tt
    → Move added s merged
merge_needed s added e h =
    join s (has_merge→HasMerge added (not_false→true _ (not_refused (not (has_merge added)) e h)))

check_transition_lem :
    (s t : PrState) (added : List PrEvent) → check_transition s t added ≡ ok tt → Move added s t
unfolding check_transition
check_transition_lem opened opened added h = stay opened
check_transition_lem opened closed added h = shut
check_transition_lem opened merged added h = merge_needed opened added _ h
check_transition_lem closed opened added h = again
check_transition_lem closed closed added h = stay closed
check_transition_lem closed merged added h = merge_needed closed added _ h
check_transition_lem merged opened added h = absurd (cc)
check_transition_lem merged closed added h = absurd (cc)
check_transition_lem merged merged added h = stay merged

check_transition-ok :
    (s t : PrState) (added : List PrEvent) → Move added s t → check_transition s t added ≡ ok tt
unfolding check_transition
check_transition-ok opened opened added m = refl
check_transition-ok opened closed added m = refl
check_transition-ok opened merged added (join s h) = rw (HasMerge→has_merge added h) refl
check_transition-ok closed opened added m = refl
check_transition-ok closed closed added m = refl
check_transition-ok closed merged added (join s h) = rw (HasMerge→has_merge added h) refl
check_transition-ok merged opened added m = elim m [ ]
check_transition-ok merged closed added m = elim m [ ]
check_transition-ok merged merged added m = refl

appended : (old added new : List PrEvent) → new ≡ old ++ added → drop (length old) new ≡ added
appended old added new e = rw (e, drop_left old added) refl

-- An update that keeps the header and every event, adds events in order of time, and moves the state
-- as the added events allow.
pub record IsUpdateOf (old new : Pr) : Type 0 where
  pub number : new.number ≡ old.number
  pub created_ts : new.created_ts ≡ old.created_ts
  pub author : new.author ≡ old.author
  pub title : new.title ≡ old.title
  pub source_ref : new.source_ref ≡ old.source_ref
  pub target_ref : new.target_ref ≡ old.target_ref
  pub events : Extends same_event event_ts old.events new.events
  pub move : Move events.added old.state new.state

-- `validate_extends` accepts exactly the updates that leave number, creation time, author, title and
-- both references alone, keep every event in its place, add events in order of time, and either keep
-- the state, open or close a request that is not merged, or merge with a merge event among those
-- added.
pub validate_pr_extends_iff :
    (old new : Pr) → (validate_extends old new ≡ ok tt) ↔ IsUpdateOf old new
unfolding validate_extends
validate_pr_extends_iff old new = (
  λ h. after_test (not (new.number == old.number)) _ _ h λ t₁ h₁.
      after_test (not (eq_int new.created_ts old.created_ts)) _ _ h₁ λ t₂ h₂.
        after_test (not (eq_bytes new.author old.author)) _ _ h₂ λ t₃ h₃.
          after_test (not (eq_bytes new.title old.title)) _ _ h₃ λ t₄ h₄.
            after_test (not (eq_bytes new.source_ref old.source_ref)) _ _ h₄ λ t₅ h₅.
              after_test (not (eq_bytes new.target_ref old.target_ref)) _ _ h₅ λ t₆ h₆.
                after_ok (extend_events same_event event_ts old.events new.events) _ h₆
                  λ u grown moved.
                    let x =
                      (extend_events_iff same_event event_ts same_event→eq same_event_refl
                          old.events new.events).0
                        grown in
                    record {
                      number = eq_of_not_ne new.number old.number t₁;
                      created_ts = eq_int→eq new.created_ts old.created_ts (not_false→true _ t₂);
                      author = eq_bytes→eq new.author old.author (not_false→true _ t₃);
                      title = eq_bytes→eq new.title old.title (not_false→true _ t₄);
                      source_ref = eq_bytes→eq new.source_ref old.source_ref (not_false→true _ t₅);
                      target_ref = eq_bytes→eq new.target_ref old.target_ref (not_false→true _ t₆);
                      events = x;
                      move =
                          check_transition_lem old.state new.state x.added
                            (rw (sym (appended old.events x.added new.events x.kept)) moved);
                    },
  λ u.
      rw
        (
          u.number,
          (==_iff old.number old.number).1 refl,
          u.created_ts,
          eq_int_refl old.created_ts,
          u.author,
          eq_bytes_refl old.author,
          u.title,
          eq_bytes_refl old.title,
          u.source_ref,
          eq_bytes_refl old.source_ref,
          u.target_ref,
          eq_bytes_refl old.target_ref,
          (extend_events_iff same_event event_ts same_event→eq same_event_refl old.events
                new.events).1
              u.events,
          appended old.events u.events.added new.events u.events.kept,
        )
        (check_transition-ok old.state new.state u.events.added u.move),
)
