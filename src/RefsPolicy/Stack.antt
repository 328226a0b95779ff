-- ===== src/RefsPolicy/Stack.antt =====
-- src/net/refs_policy.rs: sets of ids, and the stack of the first two walks.
use gyt.Base.{
  ◌≡◌, refl, sym, ◌↔◌, ◌⊎◌, inl, inr, Bool, true, false, ◌||◌, Option, none, some, List, [], ◌∷◌,
  Bool-cases,
}
use gyt.Text.Cuts.{eq_bytes, eq_bytes→eq, eq_bytes_refl}
use gyt.Hash.{ObjectId}
use gyt.RefsPolicy.Graph.{mem, push_all, next_unseen}

-- Some element satisfies `P`.
abbrev pub Any {ℓ} : {A : Type ℓ} → (A → Type 0) → List A → Type 0
Any P [] = ⊥
Any P (x ∷ xs) = P x ⊎ Any P xs

pub or-cases : (a b : Bool) → (a || b) ≡ true → (a ≡ true) ⊎ (b ≡ true)
or-cases true b h = inl refl
or-cases false b h = inr h

pub or-inl : (a b : Bool) → a ≡ true → (a || b) ≡ true
or-inl a b h = rw h refl

pub or-inr : (a b : Bool) → b ≡ true → (a || b) ≡ true
or-inr true b h = refl
or-inr false b h = h

pub other_way : (x y : ObjectId) → eq_bytes x y ≡ false → eq_bytes y x ≡ false
other_way x y h = elim (Bool-cases (eq_bytes y x)) [
  | inl e ↦ absurd (let k : eq_bytes x y ≡ true = rw (eq_bytes→eq y x e) (eq_bytes_refl x) in cc)
  | inr e ↦ e
]

pub lacks-visit :
    (a id : ObjectId) (seen : List ObjectId)
    → eq_bytes a id ≡ false
    → mem a seen ≡ false
    → mem a (id ∷ seen) ≡ false
unfolding mem
lacks-visit a id seen other lacks = rw (other, lacks) refl

-- What the next id to visit and the rest of the stack say of the whole stack.
pub record Next (seen stack : List ObjectId) (id : ObjectId) (rest : List ObjectId) : Type 0 where
  pub new : mem id seen ≡ false
  pub here : mem id stack ≡ true
  pub later : (x : ObjectId) → mem x rest ≡ true → mem x stack ≡ true
  pub split :
      (x : ObjectId) → mem x stack ≡ true → (mem x seen ≡ true) ⊎ (x ≡ id) ⊎ (mem x rest ≡ true)

Next-top :
    (seen : List ObjectId) (x : ObjectId) (stack : List ObjectId)
    → mem x seen ≡ false
    → Next seen (x ∷ stack) x stack
unfolding mem
Next-top seen x stack unseen = record {
  new = unseen;
  here = or-inl _ _ (eq_bytes_refl x);
  later = λ y k. or-inr (eq_bytes y x) _ k;
  split = λ y k. elim (or-cases (eq_bytes y x) _ k) [
    | inl same ↦ inr (inl (eq_bytes→eq y x same))
    | inr below ↦ inr (inr below)
  ];
}

pub next_unseen-some :
    (seen stack : List ObjectId) (id : ObjectId) (rest : List ObjectId)
    → next_unseen seen stack ≡ some (id, rest)
    → Next seen stack id rest
unfolding next_unseen mem
next_unseen-some seen [] id rest h = absurd (cc)
next_unseen-some seen (x ∷ stack) id rest h = elim (Bool-cases (mem x seen)) [
  | inl old ↦
      let n = next_unseen-some seen stack id rest (rw old at h) in
      record {
        new = n.new;
        here = or-inr (eq_bytes id x) _ n.here;
        later = λ y k. or-inr (eq_bytes y x) _ (n.later y k);
        split = λ y k. elim (or-cases (eq_bytes y x) _ k) [
          | inl same ↦ inl (rw (eq_bytes→eq y x same) old)
          | inr below ↦ n.split y below
        ];
      }
  | inr unseen ↦
      let e : ◌≡◌ {A = Option (ObjectId × List ObjectId)} (some (x, stack)) (some (id, rest)) =
        rw unseen at h in
      let top : x ≡ id = cc in
      let below : stack ≡ rest = cc in rw (sym top, sym below) (Next-top seen x stack unseen)
]

pub next_unseen-none :
    (seen stack : List ObjectId)
    → next_unseen seen stack ≡ none
    → (x : ObjectId) → mem x stack ≡ true
    → mem x seen ≡ true
unfolding next_unseen mem
next_unseen-none seen [] h x k = absurd (cc)
next_unseen-none seen (y ∷ stack) h x k = elim (Bool-cases (mem y seen)) [
  | inl old ↦ elim (or-cases (eq_bytes x y) _ k) [
    | inl same ↦ rw (eq_bytes→eq x y same) old
    | inr below ↦ next_unseen-none seen stack (rw old at h) x below
  ]
  | inr unseen ↦ absurd (
      let e : ◌≡◌ {A = Option (ObjectId × List ObjectId)} (some (y, stack)) none = rw unseen at h in
      cc)
]

pub mem-push_all :
    (ps stack : List ObjectId) (x : ObjectId)
    → (mem x (push_all (λ p. p) ps stack) ≡ true) ↔ ((mem x ps ≡ true) ⊎ (mem x stack ≡ true))
unfolding push_all mem
mem-push_all [] stack x = (λ h. inr h, λ h. elim h [ inl k ↦ absurd (cc) | inr k ↦ k ])
mem-push_all (p ∷ ps) stack x = (
  λ h. elim ((mem-push_all ps (p ∷ stack) x).0 h) [
    | inl k ↦ inl (or-inr (eq_bytes x p) _ k)
    | inr k ↦ elim (or-cases (eq_bytes x p) (mem x stack) k) [
      | inl e ↦ inl (or-inl _ _ e)
      | inr m ↦ inr m
    ]
  ],
  λ h. (mem-push_all ps (p ∷ stack) x).1 (elim h [
    | inl k ↦ elim (or-cases (eq_bytes x p) (mem x ps) k) [
      | inl e ↦ inr (or-inl _ _ e)
      | inr m ↦ inl m
    ]
    | inr k ↦ inr (or-inr (eq_bytes x p) _ k)
  ]),
)
