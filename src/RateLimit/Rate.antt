-- ===== src/RateLimit/Rate.antt =====
-- src/net/rate_limit.rs: how many requests a bucket lets through in a span of time.
use native.Mathlib.Nat.{mul-add, mul-le-mul_left, mul_comm}
use gyt.Base.{
  ℕ, ◌+◌, ◌-◌, ◌*◌, ◌/◌, ◌%◌, ◌≤◌, ◌≡◌, refl, sym, ◌≢◌, Bool, true, false, Option, none, some,
  arith, ltb, leb, Bool-cases, inl, inr,
}
use gyt.RateLimit.{
  Key, LimitConfig, Bucket, Buckets, lookup, cap_of, entry_or_full, elapsed_ms, refill, charge,
  is_refused, take, u64_size,
}
use gyt.RateLimit.Map.{lookup-insert, lookup-insert_other}

-- A token spent, in millitokens.
abbrev pub cost : Bool → ℕ
cost true = 1000
cost false = 0

-- What a bucket can still pay until the time `end`, seen at `now`: its content and the refill.
abbrev pub potential : LimitConfig → ℕ → ℕ → Option Bucket → ℕ
potential cfg end now none = cap_of cfg + cfg.refill_per_sec * ((end - now) / 1000000)
potential cfg end now (some b) =
    b.millitokens + cfg.refill_per_sec * ((end - b.last_refill) / 1000000)

-- The bucket was last refilled at `now` or before.
abbrev pub IsPast : ℕ → Option Bucket → Type 0
IsPast now none = Unit
IsPast now (some b) = b.last_refill ≤ now

spans :
    (end now last : ℕ)
    → last ≤ now
    → now ≤ end
    → (now - last) / 1000000 + (end - now) / 1000000 ≤ (end - last) / 1000000
spans end now last h k = omega arith

refill_span :
    (r end now last e : ℕ)
    → last ≤ now
    → now ≤ end
    → e ≤ (now - last) / 1000000
    → r * e + r * ((end - now) / 1000000) ≤ r * ((end - last) / 1000000)
refill_span r end now last e h k small =
    rw (sym (mul-add r e ((end - now) / 1000000)))
      (mul-le-mul_left r (omega (arith, spans end now last h k)))

wrapped : (e r : ℕ) → e * r % u64_size ≤ r * e
wrapped e r = omega (arith, mul_comm e r)

potential-refill :
    (cfg : LimitConfig) (end now : ℕ) (b : Bucket)
    → b.last_refill ≤ now
    → now ≤ end
    → (potential cfg end now (some (refill cfg now b)) ≤ potential cfg end now (some b))
      × ((refill cfg now b).last_refill ≤ now)
unfolding refill
potential-refill cfg end now b h k = elim (Bool-cases (ltb 0 (elapsed_ms now b.last_refill))) [
  | inl moved ↦ rw moved (
    omega (
      arith,
      wrapped (elapsed_ms now b.last_refill) cfg.refill_per_sec,
      refill_span cfg.refill_per_sec end now b.last_refill (elapsed_ms now b.last_refill) h k
          (omega arith),
    ),
    omega arith,
  )
  | inr still ↦ rw still (omega arith, h)
]

potential-charge :
    (cfg : LimitConfig) (end now : ℕ) (b : Bucket)
    → (cost (charge b).0 + potential cfg end now (some (charge b).1)
        ≡ potential cfg end now (some b))
      × ((charge b).1.last_refill ≡ b.last_refill)
unfolding charge
potential-charge cfg end now b = elim (Bool-cases (leb 1000 b.millitokens)) [
  | inl enough ↦ rw enough (ground arith, refl)
  | inr short ↦ rw short (omega arith, refl)
]

pub later :
    (cfg : LimitConfig) (end t now : ℕ) (o : Option Bucket)
    → t ≤ now
    → now ≤ end
    → IsPast t o
    → (potential cfg end now o ≤ potential cfg end t o) × IsPast now o
later cfg end t now none h k p = (
  omega (
    arith,
    mul-le-mul_left {m = (end - now) / 1000000} {n = (end - t) / 1000000} cfg.refill_per_sec
        (omega arith),
  ),
  tt,
)
later cfg end t now (some b) h k p = (omega arith, omega (arith, p))

entry_lem :
    (cfg : LimitConfig) (end now : ℕ) (o : Option Bucket)
    → IsPast now o
    → (potential cfg end now (some (entry_or_full cfg now o)) ≡ potential cfg end now o)
      × ((entry_or_full cfg now o).last_refill ≤ now)
entry_lem cfg end now none p = (refl, omega arith)
entry_lem cfg end now (some b) p = (refl, p)

-- One `take` is paid from the potential of its bucket.
abbrev Pays : Key → LimitConfig → ℕ → ℕ → Option Bucket → Bool × Buckets → Type 0
Pays k cfg end now before (granted, m) =
    (cost granted + potential cfg end now (lookup k m) ≤ potential cfg end now before)
    × IsPast now (lookup k m)

take_now :
    (m : Buckets) (k : Key) (cfg : LimitConfig) (end now : ℕ)
    → now ≤ end
    → IsPast now (lookup k m)
    → Pays k cfg end now (lookup k m) (take m k cfg now)
unfolding take
take_now m k cfg end now h p = elim (Bool-cases (is_refused (lookup k m) m)) [
  | inl full ↦ rw full (omega arith, p)
  | inr room ↦
      let (same, past) = entry_lem cfg end now (lookup k m) p in
      let b = entry_or_full cfg now (lookup k m) in
      let (less, past') = potential-refill cfg end now b past h in
      let (paid, kept) = potential-charge cfg end now (refill cfg now b) in
      rw (room, lookup-insert k (charge (refill cfg now b)).1 m)
        (omega (arith, same, less, paid), omega (arith, kept, past'))
]

-- Another key's bucket is not touched.
pub take_other :
    (m : Buckets) (k l : Key) (cfg : LimitConfig) (now : ℕ)
    → l ≢ k
    → lookup l (take m k cfg now).1 ≡ lookup l m
unfolding take
take_other m k l cfg now n = elim (Bool-cases (is_refused (lookup k m) m)) [
  | inl full ↦ rw full refl
  | inr room ↦ rw (room, lookup-insert_other k l _ m n) refl
]

pub take_lem :
    (m : Buckets) (k : Key) (cfg : LimitConfig) (end t now : ℕ)
    → t ≤ now
    → now ≤ end
    → IsPast t (lookup k m)
    → (cost (take m k cfg now).0 + potential cfg end now (lookup k (take m k cfg now).1)
        ≤ potential cfg end t (lookup k m))
      × IsPast now (lookup k (take m k cfg now).1)
take_lem m k cfg end t now h h' p =
    let (less, past) = later cfg end t now (lookup k m) h h' p in
    let (pays, past') = take_now m k cfg end now h' past in (omega (arith, less, pays), past')
