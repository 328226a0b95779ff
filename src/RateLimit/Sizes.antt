-- ===== src/RateLimit/Sizes.antt =====
-- src/net/rate_limit.rs: the bounds on the map and on what a bucket holds.
use mathlib.Core.Path.{subst}
use gyt.Base.{
  ℕ, suc, ◌-◌, ◌≤◌, ◌≡◌, refl, sym, false, Option, none, some, [], ◌∷◌, arith, ltb, ◌==◌,
  if◌then◌else◌, length, All, Bool-cases, Option-cases, inl, inr,
}
use gyt.Text.Cuts.{Bytes}
use gyt.RateLimit.{
  Key, ip, actor, LimitConfig, Bucket, Buckets, RateLimiter, same_key, lookup, insert, contains,
  cap_of, entry_or_full, refill, charge, is_refused, take, take_side, key_of, allow, retain,
  gc_idle, max_rate_limit_entries,
}
use gyt.RateLimit.Map.{same_key→eq, length-insert}

-- The configuration of a key's side.
abbrev pub cfg_for : LimitConfig → LimitConfig → Key → LimitConfig
cfg_for ip_cfg actor_cfg (ip a) = ip_cfg
cfg_for ip_cfg actor_cfg (actor a) = actor_cfg

module _ (ip_cfg actor_cfg : LimitConfig) where
  abbrev pub IsWithin : Key × Bucket → Type 0
  IsWithin e = e.1.millitokens ≤ cap_of (cfg_for ip_cfg actor_cfg e.0)

  -- At most 65,536 buckets, none over its capacity.
  abbrev pub IsBounded : Buckets → Type 0
  IsBounded m = (length m ≤ max_rate_limit_entries) × All IsWithin m

  insert-IsWithin :
      (k : Key) (b : Bucket) (m : Buckets)
      → IsWithin (k, b)
      → All IsWithin m
      → All IsWithin (insert k b m)
  unfolding insert
  insert-IsWithin k b [] h hs = (h, tt)
  insert-IsWithin k b ((k', b') ∷ m) h hs = elim (Bool-cases (same_key k k')) [
    | inl same ↦ rw (same, sym (same_key→eq k k' same)) (h, hs.1)
    | inr other ↦ rw other (hs.0, insert-IsWithin k b m h hs.1)
  ]

  lookup-IsWithin :
      (k : Key) (b : Bucket) (m : Buckets) → lookup k m ≡ some b → All IsWithin m → IsWithin (k, b)
  unfolding lookup
  lookup-IsWithin k b [] e hs = absurd (cc)
  lookup-IsWithin k b ((k', b') ∷ m) e hs = elim (Bool-cases (same_key k k')) [
    | inl same ↦ rw (same_key→eq k k' same) (ground (arith, same, hs.0, e))
    | inr other ↦ lookup-IsWithin k b m (rw other at e) hs.1
  ]

  entry-IsWithin :
      (k : Key) (cfg : LimitConfig) (now : ℕ) (m : Buckets)
      → cfg_for ip_cfg actor_cfg k ≡ cfg
      → All IsWithin m
      → IsWithin (k, entry_or_full cfg now (lookup k m))
  entry-IsWithin k cfg now m e hs = elim (Option-cases (lookup k m)) [
    | inl absent ↦ rw (absent, e) (omega arith)
    | inr (b, found) ↦ rw found (lookup-IsWithin k b m found hs)
  ]

refill_within :
    (cfg : LimitConfig) (now : ℕ) (b : Bucket)
    → b.millitokens ≤ cap_of cfg
    → (refill cfg now b).millitokens ≤ cap_of cfg
unfolding refill
refill_within cfg now b h = ground arith

charge_within : (b : Bucket) → (charge b).1.millitokens ≤ b.millitokens
unfolding charge
charge_within b = ground arith

room :
    (m : Buckets) (k : Key) (b : Bucket)
    → length m ≤ max_rate_limit_entries
    → is_refused (lookup k m) m ≡ false
    → length (insert k b m) ≤ max_rate_limit_entries
room m k b h free = rw length-insert (cases (lookup k m) free)
  where
    cases :
        (o : Option Bucket)
        → is_refused o m ≡ false
        → (if contains o then length m else suc (length m)) ≤ max_rate_limit_entries
    cases none f = ground arith
    cases (some x) f = h

module _ (ip_cfg actor_cfg : LimitConfig) where
  take-IsBounded :
      (m : Buckets) (k : Key) (cfg : LimitConfig) (now : ℕ)
      → cfg_for ip_cfg actor_cfg k ≡ cfg
      → IsBounded ip_cfg actor_cfg m
      → IsBounded ip_cfg actor_cfg (take m k cfg now).1
  unfolding take
  take-IsBounded m k cfg now e h = elim (Bool-cases (is_refused (lookup k m) m)) [
    | inl full ↦ rw full h
    | inr free ↦
        let b = entry_or_full cfg now (lookup k m) in
        let held : b.millitokens ≤ cap_of cfg =
          subst (λ c. b.millitokens ≤ cap_of c) e
            (entry-IsWithin ip_cfg actor_cfg k cfg now m e h.1) in
        rw free (
          room m k (charge (refill cfg now b)).1 h.0 free,
          insert-IsWithin ip_cfg actor_cfg k (charge (refill cfg now b)).1 m
              (rw e (omega (arith, charge_within (refill cfg now b), refill_within cfg now b held)))
              h.1,
        )
  ]

  side-IsBounded :
      (m : Buckets) (k : Option Key) (cfg : LimitConfig) (now : ℕ)
      → ((k' : Key) → k ≡ some k' → cfg_for ip_cfg actor_cfg k' ≡ cfg)
      → IsBounded ip_cfg actor_cfg m
      → IsBounded ip_cfg actor_cfg (take_side m k cfg now).1
  side-IsBounded m none cfg now e h = h
  side-IsBounded m (some k) cfg now e h = elim (Bool-cases (cfg.capacity == 0)) [
    | inl off ↦ rw off h
    | inr on ↦ rw on (take-IsBounded m k cfg now (e k refl) h)
  ]

  ip_cfg-lem :
      (o : Option Bytes) (k : Key) → key_of ip o ≡ some k → cfg_for ip_cfg actor_cfg k ≡ ip_cfg
  ip_cfg-lem none k h = absurd (cc)
  ip_cfg-lem (some x) (ip a) h = refl
  ip_cfg-lem (some x) (actor a) h = absurd (cc)

  actor_cfg-lem :
      (o : Option Bytes) (k : Key)
      → key_of actor o ≡ some k
      → cfg_for ip_cfg actor_cfg k ≡ actor_cfg
  actor_cfg-lem none k h = absurd (cc)
  actor_cfg-lem (some x) (actor a) h = refl
  actor_cfg-lem (some x) (ip a) h = absurd (cc)

-- A request keeps the bounds.
pub allow-IsBounded :
    (rl : RateLimiter) (addr who : Option Bytes) (now : ℕ)
    → IsBounded rl.ip_cfg rl.actor_cfg rl.inner
    → let (passed, rl') = allow rl addr who now in IsBounded rl'.ip_cfg rl'.actor_cfg rl'.inner
unfolding allow
allow-IsBounded rl addr who now h =
    side-IsBounded rl.ip_cfg rl.actor_cfg _ (key_of actor who) rl.actor_cfg now
      (actor_cfg-lem rl.ip_cfg rl.actor_cfg who)
      (side-IsBounded rl.ip_cfg rl.actor_cfg rl.inner (key_of ip addr) rl.ip_cfg now
        (ip_cfg-lem rl.ip_cfg rl.actor_cfg addr) h)

retain-IsBounded :
    (ip_cfg actor_cfg : LimitConfig) (now max_idle : ℕ) (m : Buckets)
    → All (IsWithin ip_cfg actor_cfg) m
    → (length (retain now max_idle m) ≤ length m)
      × All (IsWithin ip_cfg actor_cfg) (retain now max_idle m)
unfolding retain
retain-IsBounded ip_cfg actor_cfg now max_idle [] h = (omega arith, tt)
retain-IsBounded ip_cfg actor_cfg now max_idle ((k, b) ∷ m) h =
    let (shorter, kept) = retain-IsBounded ip_cfg actor_cfg now max_idle m h.1 in
    elim (Bool-cases (ltb (now - b.last_seen) max_idle)) [
      | inl young ↦ rw young (omega (arith, shorter), (h.0, kept))
      | inr old ↦ rw old (omega (arith, shorter), kept)
    ]

pub gc_idle-IsBounded :
    (rl : RateLimiter) (max_idle now : ℕ)
    → IsBounded rl.ip_cfg rl.actor_cfg rl.inner
    → IsBounded rl.ip_cfg rl.actor_cfg (gc_idle rl max_idle now).inner
unfolding gc_idle
gc_idle-IsBounded rl max_idle now h =
    let (shorter, kept) = retain-IsBounded rl.ip_cfg rl.actor_cfg now max_idle rl.inner h.1 in
    (omega (arith, h.0, shorter), kept)
