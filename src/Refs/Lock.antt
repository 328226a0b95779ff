-- ===== src/Refs/Lock.antt =====
-- src/refs.rs: the components that end in `.lock`.
use gyt.Base.{
  ℕ, suc, ◌-◌, ◌≡◌, refl, sym, ap, ◌∙◌, true, ◌⊎◌, [], ◌∷◌, ◌++◌, map, arith, leb, length, take,
  drop, take-append-drop, length-drop, length-append,
}
use gyt.Text.Cuts.{Bytes, codes, eq_bytes}
use gyt.Object.Tree.{ascii_lower}
use gyt.Metadata.Events.{and-fst, and-snd}
use gyt.Refs.{ends_in_lock}

-- `.lock` in letters of either case.
abbrev pub IsLock : ℕ → ℕ → ℕ → ℕ → ℕ → Type 0
IsLock dot l o c k =
    (dot ≡ b'.')
    × ((l ≡ b'l') ⊎ (l ≡ b'L'))
    × ((o ≡ b'o') ⊎ (o ≡ b'O'))
    × ((c ≡ b'c') ⊎ (c ≡ b'C'))
    × ((k ≡ b'k') ⊎ (k ≡ b'K'))

five-IsLock :
    (a b c d e : ℕ)
    → eq_bytes (map ascii_lower (a ∷ b ∷ c ∷ d ∷ e ∷ [])) (codes ".lock") ≡ true
    → IsLock a b c d e
unfolding eq_bytes
five-IsLock a b c d e h = ground arith

lock_five :
    (a b c d e : ℕ)
    → IsLock a b c d e
    → eq_bytes (map ascii_lower (a ∷ b ∷ c ∷ d ∷ e ∷ [])) (codes ".lock") ≡ true
unfolding eq_bytes
lock_five a b c d e h = ground arith

drop_stem :
    (stem five : Bytes) → length five ≡ 5 → drop (length (stem ++ five) - 5) (stem ++ five) ≡ five
drop_stem [] five h = rw h refl
drop_stem (x ∷ stem) five h =
    let e : length (x ∷ stem ++ five) - 5 ≡ suc (length (stem ++ five) - 5) =
      omega (arith, length-append stem five) in
    rw e (drop_stem stem five h)

pub ends_in_lock-append :
    (stem : Bytes) (dot l o c k : ℕ)
    → IsLock dot l o c k
    → ends_in_lock (stem ++ (dot ∷ l ∷ o ∷ c ∷ k ∷ [])) ≡ true
unfolding ends_in_lock
ends_in_lock-append stem dot l o c k h =
    let five = dot ∷ l ∷ o ∷ c ∷ k ∷ [] in
    let long : leb 5 (length (stem ++ five)) ≡ true = ground (arith, length-append stem five) in
    rw (drop_stem stem five refl, lock_five dot l o c k h, long) refl

five_parts :
    (tail : Bytes)
    → length tail ≡ 5
    → eq_bytes (map ascii_lower tail) (codes ".lock") ≡ true
    → (dot : ℕ) × (l : ℕ) × (o : ℕ) × (c : ℕ) × (k : ℕ) × (tail ≡ dot ∷ l ∷ o ∷ c ∷ k ∷ [])
      × IsLock dot l o c k
five_parts [] n h = absurd (omega arith)
five_parts (a ∷ []) n h = absurd (omega arith)
five_parts (a ∷ b ∷ []) n h = absurd (omega arith)
five_parts (a ∷ b ∷ c ∷ []) n h = absurd (omega arith)
five_parts (a ∷ b ∷ c ∷ d ∷ []) n h = absurd (omega arith)
five_parts (a ∷ b ∷ c ∷ d ∷ e ∷ []) n h = (a, b, c, d, e, refl, five-IsLock a b c d e h)
five_parts (a ∷ b ∷ c ∷ d ∷ e ∷ f ∷ t) n h = absurd (omega arith)

pub ends_in_lock-eq-true :
    (comp : Bytes)
    → ends_in_lock comp ≡ true
    → (stem : Bytes) × (dot : ℕ) × (l : ℕ) × (o : ℕ) × (c : ℕ) × (k : ℕ) × (comp
        ≡ stem ++ (dot ∷ l ∷ o ∷ c ∷ k ∷ []))
      × IsLock dot l o c k
unfolding ends_in_lock
ends_in_lock-eq-true comp h =
    let n = length comp - 5 in
    let same =
      and-fst (eq_bytes (map ascii_lower (drop n comp)) (codes ".lock")) (leb 5 (length comp)) h in
    let long =
      and-snd (eq_bytes (map ascii_lower (drop n comp)) (codes ".lock")) (leb 5 (length comp)) h in
    let size : length (drop n comp) ≡ 5 = ground (arith, length-drop n comp) in
    let (dot, l, o, c, k, e, lock) = five_parts (drop n comp) size same in
    (
      take n comp,
      dot,
      l,
      o,
      c,
      k,
      sym (take-append-drop n comp) ∙ ap (λ t. take n comp ++ t) e,
      lock,
    )
