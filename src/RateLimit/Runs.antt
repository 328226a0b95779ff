-- ===== src/RateLimit/Runs.antt =====
-- src/net/rate_limit.rs: the limiters that requests and collections lead to.
use gyt.Base.{
  ℕ, ◌-◌, ◌≡◌, refl, sym, ◌∙◌, ◌≢◌, true, false, Option, none, some, [], ◌∷◌, arith, ltb, ◌==◌,
  if◌then◌else◌, Bool-cases, inl, inr,
}
use gyt.Text.Cuts.{Bytes}
use gyt.RateLimit.{
  Key, ip, actor, LimitConfig, Bucket, Buckets, RateLimiter, new, same_key, lookup, insert,
  is_refused, entry_or_full, refill, charge, take, take_side, key_of, allow, retain, gc_idle,
}
use gyt.RateLimit.Map.{same_key_refl, same_key→eq, lookup-insert_other}
use gyt.RateLimit.Sizes.{IsBounded, allow-IsBounded, gc_idle-IsBounded}

-- A new limiter, and what a request or a collection makes of one.
pub data Reached : RateLimiter → Type 0 where
  started : (ip_cfg actor_cfg : LimitConfig) → Reached (new ip_cfg actor_cfg)
  requested :
      (rl : RateLimiter) (addr who : Option Bytes) (now : ℕ)
      → Reached rl
      → Reached (allow rl addr who now).1
  collected : (rl : RateLimiter) (max_idle now : ℕ) → Reached rl → Reached (gc_idle rl max_idle now)

-- From a new limiter on, whatever requests and collections follow at whatever times, there are at
-- most 65,536 buckets, and none holds more than the capacity of its side.
pub Reached-IsBounded : (rl : RateLimiter) → Reached rl → IsBounded rl.ip_cfg rl.actor_cfg rl.inner
unfolding new allow gc_idle
Reached-IsBounded _ (started ip_cfg actor_cfg) = (omega arith, tt)
Reached-IsBounded _ (requested rl addr who now before) =
    allow-IsBounded rl addr who now (Reached-IsBounded rl before)
Reached-IsBounded _ (collected rl max_idle now before) =
    gc_idle-IsBounded rl max_idle now (Reached-IsBounded rl before)

-- No key stands twice.
unfoldable pub IsDistinct : Buckets → Type 0
IsDistinct [] = Unit
IsDistinct ((k, b) ∷ m) = (lookup k m ≡ none) × IsDistinct m

insert-IsDistinct : (k : Key) (b : Bucket) (m : Buckets) → IsDistinct m → IsDistinct (insert k b m)
unfolding IsDistinct insert lookup
insert-IsDistinct k b [] h = (refl, tt)
insert-IsDistinct k b ((k', b') ∷ m) h = elim (Bool-cases (same_key k k')) [
  | inl same ↦ rw same h
  | inr other ↦
      let different : k' ≢ k =
        λ e. let f : true ≡ false = sym (same_key_refl k) ∙ rw e at other in cc in
      rw other (lookup-insert_other k k' b m different ∙ h.0, insert-IsDistinct k b m h.1)
]

take-IsDistinct :
    (m : Buckets) (k : Key) (cfg : LimitConfig) (now : ℕ)
    → IsDistinct m
    → IsDistinct (take m k cfg now).1
unfolding take
take-IsDistinct m k cfg now h = elim (Bool-cases (is_refused (lookup k m) m)) [
  | inl full ↦ rw full h
  | inr free ↦
      rw free
        (insert-IsDistinct k (charge (refill cfg now (entry_or_full cfg now (lookup k m)))).1 m h)
]

side-IsDistinct :
    (m : Buckets) (k : Option Key) (cfg : LimitConfig) (now : ℕ)
    → IsDistinct m
    → IsDistinct (take_side m k cfg now).1
side-IsDistinct m none cfg now h = h
side-IsDistinct m (some k) cfg now h = elim (Bool-cases (cfg.capacity == 0)) [
  | inl off ↦ rw off h
  | inr on ↦ rw on (take-IsDistinct m k cfg now h)
]

lookup-retain-none :
    (k : Key) (now max_idle : ℕ) (m : Buckets)
    → lookup k m ≡ none
    → lookup k (retain now max_idle m) ≡ none
unfolding lookup retain
lookup-retain-none k now max_idle [] h = refl
lookup-retain-none k now max_idle ((k', b) ∷ m) h = elim (Bool-cases (same_key k k')) [
  | inl same ↦ absurd (let f : some b ≡ none = rw same at h in cc)
  | inr other ↦
      let rest = lookup-retain-none k now max_idle m (rw other at h) in
      elim (Bool-cases (ltb (now - b.last_seen) max_idle)) [
        | inl young ↦ rw (young, other) rest
        | inr old ↦ rw old rest
      ]
]

retain-IsDistinct :
    (now max_idle : ℕ) (m : Buckets) → IsDistinct m → IsDistinct (retain now max_idle m)
unfolding IsDistinct retain
retain-IsDistinct now max_idle [] h = tt
retain-IsDistinct now max_idle ((k, b) ∷ m) h =
    elim (Bool-cases (ltb (now - b.last_seen) max_idle)) [
      | inl young ↦
          rw young (lookup-retain-none k now max_idle m h.0, retain-IsDistinct now max_idle m h.1)
      | inr old ↦ rw old (retain-IsDistinct now max_idle m h.1)
    ]

Reached-IsDistinct : (rl : RateLimiter) → Reached rl → IsDistinct rl.inner
unfolding new allow gc_idle IsDistinct
Reached-IsDistinct _ (started ip_cfg actor_cfg) = tt
Reached-IsDistinct _ (requested rl addr who now before) =
    side-IsDistinct _ (key_of actor who) rl.actor_cfg now
      (side-IsDistinct rl.inner (key_of ip addr) rl.ip_cfg now (Reached-IsDistinct rl before))
Reached-IsDistinct _ (collected rl max_idle now before) =
    retain-IsDistinct now max_idle rl.inner (Reached-IsDistinct rl before)

-- A bucket that was seen within `max_idle`.
abbrev pub recent : ℕ → ℕ → Option Bucket → Option Bucket
recent now max_idle none = none
recent now max_idle (some b) = if ltb (now - b.last_seen) max_idle then some b else none

lookup-retain :
    (k : Key) (now max_idle : ℕ) (m : Buckets)
    → IsDistinct m
    → lookup k (retain now max_idle m) ≡ recent now max_idle (lookup k m)
unfolding lookup retain IsDistinct
lookup-retain k now max_idle [] h = refl
lookup-retain k now max_idle ((k', b) ∷ m) h = elim (Bool-cases (same_key k k')) [
  | inl same ↦ elim (Bool-cases (ltb (now - b.last_seen) max_idle)) [
    | inl young ↦ rw (young, same, young) refl
    | inr old ↦
        rw (old, same, old)
          (lookup-retain-none k now max_idle m (rw (sym (same_key→eq k k' same)) at h.0))
  ]
  | inr other ↦ elim (Bool-cases (ltb (now - b.last_seen) max_idle)) [
    | inl young ↦ rw (young, other) (lookup-retain k now max_idle m h.1)
    | inr old ↦ rw (old, other) (lookup-retain k now max_idle m h.1)
  ]
]

-- In a limiter that requests and collections led to, `gc_idle` leaves the bucket of every key that
-- was seen less than `max_idle` before `now` as it is, and drops that of every other key.
pub lookup-gc_idle :
    (rl : RateLimiter) (max_idle now : ℕ) (k : Key)
    → Reached rl
    → lookup k (gc_idle rl max_idle now).inner ≡ recent now max_idle (lookup k rl.inner)
unfolding gc_idle
lookup-gc_idle rl max_idle now k reached =
    lookup-retain k now max_idle rl.inner (Reached-IsDistinct rl reached)
