-- ===== src/Text/Parts.antt =====
-- What the tests of `str` on parts of a text say, in terms of `++`.
use gyt.Base.{
  ℕ, ◌≡◌, refl, ap, ◌∙◌, ◌≢◌, Bool, true, false, ◌&&◌, Bool-cases, inl, inr, List, [], ◌∷◌, ◌++◌,
  arith, ◌==◌, ==_iff, All,
}
use gyt.Text.Cuts.{Bytes, Lacks}
use gyt.Text.Trim.{onto_first, split, contains_pair, starts_with, ends_with}

same_true : (c : ℕ) → (c == c) ≡ true
same_true c = (==_iff c c).1 refl

-- A test that is `false` whenever its text has no such part.
pub when_not : {A : Type 0} (t : Bool) → (t ≡ true → A) → ¬ A → t ≡ false
when_not true f n = absurd (n (f refl))
when_not false f n = refl

pub starts_with-cons : (c : ℕ) (rest : Bytes) → starts_with c (c ∷ rest) ≡ true
unfolding starts_with
starts_with-cons c rest = same_true c

pub starts_with-eq-true :
    (c : ℕ) (s : Bytes) → starts_with c s ≡ true → (rest : Bytes) × (s ≡ c ∷ rest)
unfolding starts_with
starts_with-eq-true c [] h = absurd (cc)
starts_with-eq-true c (x ∷ s) h = (s, ap (λ y. y ∷ s) ((==_iff x c).0 h))

pub ends_with-append : (c : ℕ) (s : Bytes) → ends_with c (s ++ (c ∷ [])) ≡ true
unfolding ends_with
ends_with-append c [] = same_true c
ends_with-append c (x ∷ []) = same_true c
ends_with-append c (x ∷ y ∷ s) = ends_with-append c (y ∷ s)

pub ends_with-eq-true :
    (c : ℕ) (s : Bytes) → ends_with c s ≡ true → (init : Bytes) × (s ≡ init ++ (c ∷ []))
unfolding ends_with
ends_with-eq-true c [] h = absurd (cc)
ends_with-eq-true c (x ∷ []) h = ([], ap (λ y. y ∷ []) ((==_iff x c).0 h))
ends_with-eq-true c (x ∷ y ∷ s) h =
    let (init, e) = ends_with-eq-true c (y ∷ s) h in (x ∷ init, ap (λ t. x ∷ t) e)

pub contains_pair-append : (a b : ℕ) (s t : Bytes) → contains_pair a b (s ++ (a ∷ b ∷ t)) ≡ true
unfolding contains_pair
contains_pair-append a b [] t = rw (same_true a, same_true b) refl
contains_pair-append a b (x ∷ []) t = ground (arith, contains_pair-append a b [] t)
contains_pair-append a b (x ∷ y ∷ s) t = ground (arith, contains_pair-append a b (y ∷ s) t)

pub contains_pair-eq-true :
    (a b : ℕ) (s : Bytes)
    → contains_pair a b s ≡ true
    → (pre : Bytes) × (post : Bytes) × (s ≡ pre ++ (a ∷ b ∷ post))
unfolding contains_pair
contains_pair-eq-true a b [] h = absurd (cc)
contains_pair-eq-true a b (x ∷ []) h = absurd (cc)
contains_pair-eq-true a b (x ∷ y ∷ s) h = elim (Bool-cases (x == a && y == b)) [
  | inl here ↦ ([], s, let e : x ≡ a = ground arith in let k : y ≡ b = ground arith in cc)
  | inr later ↦
      let (pre, post, e) = contains_pair-eq-true a b (y ∷ s) (rw later at h) in
      (x ∷ pre, post, ap (λ t. x ∷ t) e)
]

pub lacks_start : (c : ℕ) (s : Bytes) → ((rest : Bytes) → s ≢ c ∷ rest) → starts_with c s ≡ false
lacks_start c s n = when_not (starts_with c s) (starts_with-eq-true c s) λ p. n p.0 p.1

pub lacks_end :
    (c : ℕ) (s : Bytes) → ((init : Bytes) → s ≢ init ++ (c ∷ [])) → ends_with c s ≡ false
lacks_end c s n = when_not (ends_with c s) (ends_with-eq-true c s) λ p. n p.0 p.1

pub lacks_pair :
    (a b : ℕ) (s : Bytes)
    → ((pre post : Bytes) → s ≢ pre ++ (a ∷ b ∷ post))
    → contains_pair a b s ≡ false
lacks_pair a b s n =
    when_not (contains_pair a b s) (contains_pair-eq-true a b s) λ (pre, post, e). n pre post e

-- The parts with `c` between them.
unfoldable pub intercalate : ℕ → List Bytes → Bytes
intercalate c [] = []
intercalate c (l ∷ []) = l
intercalate c (l ∷ m ∷ ls) = l ++ (c ∷ intercalate c (m ∷ ls))

intercalate_onto :
    (c x : ℕ) (ls : List Bytes) → ls ≢ [] → intercalate c (onto_first x ls) ≡ x ∷ intercalate c ls
unfolding intercalate
intercalate_onto c x [] n = absurd (n refl)
intercalate_onto c x (l ∷ []) n = refl
intercalate_onto c x (l ∷ m ∷ ls) n = refl

pub split_nonempty : (c : ℕ) (s : Bytes) → split c s ≢ []
unfolding split
split_nonempty c [] h = cc
split_nonempty c (x ∷ s) h = elim (Bool-cases (x == c)) [
  | inl e ↦ (let k = (rw e at h) in cc)
  | inr e ↦ onto_nonempty x (split c s) (rw e at h)
]
  where
    onto_nonempty : (x : ℕ) (ls : List Bytes) → onto_first x ls ≢ []
    onto_nonempty x [] h = cc
    onto_nonempty x (l ∷ ls) h = cc

pub intercalate-split : (c : ℕ) (s : Bytes) → intercalate c (split c s) ≡ s
unfolding intercalate split
intercalate-split c [] = refl
intercalate-split c (x ∷ s) = elim (Bool-cases (x == c)) [
  | inl e ↦ rw e (cut x ((==_iff x c).0 e) (split c s) (split_nonempty c s) (intercalate-split c s))
  | inr e ↦
      rw (e, intercalate_onto c x (split c s) (split_nonempty c s))
        (ap (λ t. x ∷ t) (intercalate-split c s))
]
  where
    cut :
        (x : ℕ)
        → x ≡ c
        → (ls : List Bytes) → ls ≢ []
        → intercalate c ls ≡ s
        → intercalate c ([] ∷ ls) ≡ x ∷ s
    cut x e [] n h = absurd (n refl)
    cut x e (l ∷ ls) n h = rw (h, e) refl

Lacks-onto :
    (c x : ℕ) (ls : List Bytes)
    → (x == c) ≡ false
    → All (Lacks c) ls
    → All (Lacks c) (onto_first x ls)
Lacks-onto c x [] n h = ((λ e. cc (n, (==_iff x c).1 e), tt), tt)
Lacks-onto c x (l ∷ ls) n h = ((λ e. cc (n, (==_iff x c).1 e), h.0), h.1)

pub split-Lacks : (c : ℕ) (s : Bytes) → All (Lacks c) (split c s)
unfolding split
split-Lacks c [] = (tt, tt)
split-Lacks c (x ∷ s) = elim (Bool-cases (x == c)) [
  | inl e ↦ rw e (tt, split-Lacks c s)
  | inr e ↦ rw e (Lacks-onto c x (split c s) e (split-Lacks c s))
]

split_part : (c : ℕ) (l : Bytes) → Lacks c l → split c l ≡ l ∷ []
unfolding split
split_part c [] h = refl
split_part c (x ∷ l) h =
    let other : (x == c) ≡ false = ground (arith, h.0) in rw (other, split_part c l h.1) refl

split_cut : (c : ℕ) (l r : Bytes) → Lacks c l → split c (l ++ (c ∷ r)) ≡ l ∷ split c r
unfolding split
split_cut c [] r h = rw (same_true c) refl
split_cut c (x ∷ l) r h =
    let other : (x == c) ≡ false = ground (arith, h.0) in rw (other, split_cut c l r h.1) refl

-- Parts without `c` are what `split` gives back.
pub split-intercalate :
    (c : ℕ) (ls : List Bytes) → ls ≢ [] → All (Lacks c) ls → split c (intercalate c ls) ≡ ls
unfolding intercalate
split-intercalate c [] n h = absurd (n refl)
split-intercalate c (l ∷ []) n h = split_part c l h.0
split-intercalate c (l ∷ m ∷ ls) n h =
    split_cut c l (intercalate c (m ∷ ls)) h.0
    ∙ ap (λ t. l ∷ t) (split-intercalate c (m ∷ ls) (λ e. cc) h.1)
