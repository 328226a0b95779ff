-- ===== src/Metadata/Events.antt =====
-- src/issues.rs: the loops of `validate_extends` over the events, the same in prs.rs and
-- incidents.rs, for events with an equality test and a time.
use mathlib.Core.Path.{subst}
use gyt.Base.{
  ◌≡◌, refl, ◌↔◌, Bool, true, false, not, ◌&&◌, List, [], ◌∷◌, ◌++◌, arith, ltb, length,
  length-append, Result, ok, err, GytError, refs, ◌>>◌, refuse_if, after_test, after_ok,
  not_false→true, ℤ, lt_int,
}
use gyt.Text.Cuts.{Bytes, eq_bytes, eq_bytes→eq, eq_bytes_refl}

-- `==` on lists of texts.
abbrev pub same_texts : List Bytes → List Bytes → Bool
same_texts [] [] = true
same_texts [] (y ∷ ys) = false
same_texts (x ∷ xs) [] = false
same_texts (x ∷ xs) (y ∷ ys) = eq_bytes x y && same_texts xs ys

pub and-fst : (a b : Bool) → (a && b) ≡ true → a ≡ true
and-fst true b h = refl
and-fst false b h = cc

pub and-snd : (a b : Bool) → (a && b) ≡ true → b ≡ true
and-snd true b h = h
and-snd false b h = cc

pub not_refused : (t : Bool) (e : GytError) → refuse_if t e ≡ ok tt → t ≡ false
not_refused true e h = absurd (cc)
not_refused false e h = refl

pub same_texts→eq : (xs ys : List Bytes) → same_texts xs ys ≡ true → xs ≡ ys
same_texts→eq [] [] h = refl
same_texts→eq [] (y ∷ ys) h = cc
same_texts→eq (x ∷ xs) [] h = cc
same_texts→eq (x ∷ xs) (y ∷ ys) h =
    let e = eq_bytes→eq x y (and-fst _ _ h) in
    let es = same_texts→eq xs ys (and-snd (eq_bytes x y) _ h) in cc

pub same_texts_refl : (xs : List Bytes) → same_texts xs xs ≡ true
same_texts_refl [] = refl
same_texts_refl (x ∷ xs) = rw (eq_bytes_refl x, same_texts_refl xs) refl

module _ {E : Type 0} (same : E → E → Bool) (ts_of : E → ℤ) where
  -- The loop over the old events: each stands unchanged at its place.
  unfoldable pub keep_events : List E → List E → Result (Unit {0})
  keep_events [] new = ok tt
  keep_events (o ∷ old) [] = err (refs "rewind: event was modified")
  keep_events (o ∷ old) (n ∷ new) = do
    refuse_if (not (same n o)) (refs "rewind: event was modified")
    keep_events old new

  -- The loop over the windows of two: no event is older than the one before it.
  unfoldable pub order_events : List E → Result (Unit {0})
  order_events [] = ok tt
  order_events (a ∷ []) = ok tt
  order_events (a ∷ b ∷ es) = do
    refuse_if (lt_int (ts_of b) (ts_of a)) (refs "event ts not monotonic")
    order_events (b ∷ es)

  unfoldable pub extend_events : List E → List E → Result (Unit {0})
  extend_events old new = do
    refuse_if (ltb (length new) (length old)) (refs "rewind: event count decreased")
    keep_events old new
    order_events new

  -- The times of the events do not decrease.
  abbrev pub IsChronological : List E → Type 0
  IsChronological [] = Unit
  IsChronological (a ∷ []) = Unit
  IsChronological (a ∷ b ∷ es) = (lt_int (ts_of b) (ts_of a) ≡ false) × IsChronological (b ∷ es)

  -- The new list is the old one with some events behind it, in order of time.
  pub record Extends (old new : List E) : Type 0 where
    pub added : List E
    pub kept : new ≡ old ++ added
    pub chronological : IsChronological new

  order_events_lem : (es : List E) → order_events es ≡ ok tt → IsChronological es
  unfolding order_events
  order_events_lem [] h = tt
  order_events_lem (a ∷ []) h = tt
  order_events_lem (a ∷ b ∷ es) h =
      after_test (lt_int (ts_of b) (ts_of a)) _ _ h
        λ later rest. (later, order_events_lem (b ∷ es) rest)

  order_events-ok : (es : List E) → IsChronological es → order_events es ≡ ok tt
  unfolding order_events
  order_events-ok [] h = refl
  order_events-ok (a ∷ []) h = refl
  order_events-ok (a ∷ b ∷ es) h = rw h.0 (order_events-ok (b ∷ es) h.1)

  keep_events_lem :
      ((a b : E) → same a b ≡ true → a ≡ b)
      → (old new : List E) → keep_events old new ≡ ok tt
      → (added : List E) × (new ≡ old ++ added)
  unfolding keep_events
  keep_events_lem sound [] new h = (new, refl)
  keep_events_lem sound (o ∷ old) [] h = absurd (cc)
  keep_events_lem sound (o ∷ old) (n ∷ new) h = after_test (not (same n o)) _ _ h λ kept rest.
      let (added, e) = keep_events_lem sound old new rest in
      let first = sound n o (not_false→true _ kept) in (added, cc)

  keep_events-ok :
      ((a : E) → same a a ≡ true) → (old added : List E) → keep_events old (old ++ added) ≡ ok tt
  unfolding keep_events
  keep_events-ok total [] added = refl
  keep_events-ok total (o ∷ old) added = rw (total o) (keep_events-ok total old added)

  not_shorter : (old added : List E) → ltb (length (old ++ added)) (length old) ≡ false
  not_shorter old added = ground (arith, length-append old added)

  -- The loops together accept exactly the extensions.
  pub extend_events_iff :
      ((a b : E) → same a b ≡ true → a ≡ b)
      → ((a : E) → same a a ≡ true)
      → (old new : List E) → (extend_events old new ≡ ok tt) ↔ Extends old new
  unfolding extend_events
  extend_events_iff sound total old new = (
    λ h. after_test (ltb (length new) (length old)) _ _ h λ longer h₁.
        after_ok (keep_events old new) _ h₁ λ u kept h₂.
          let (added, e) = keep_events_lem sound old new kept in
          record { added = added; kept = e; chronological = order_events_lem new h₂ },
    λ x.
        rw
          (
            x.kept,
            not_shorter old x.added,
            keep_events-ok total old x.added,
            order_events-ok (old ++ x.added)
                (subst (λ t. IsChronological t) x.kept x.chronological),
          )
          refl,
  )
