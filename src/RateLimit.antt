-- ===== src/RateLimit.antt =====
-- src/net/rate_limit.rs: the token buckets of the server. The map behind the mutex is an association
-- list, an `Instant` a count of nanoseconds that the caller passes in, an address its octets.
pub mod Map
pub mod Rate
pub mod Bounds
pub mod Sizes
pub mod Runs
mod Examples
use gyt.Base.{
  ℕ, ◌+◌, ◌-◌, ◌*◌, ◌/◌, ◌%◌, ◌^◌, min, ◌≡◌, Bool, true, false, not, ◌&&◌, Option, none, some, List,
  [], ◌∷◌, ltb, leb, ◌==◌, if◌then◌else◌, length,
}
use gyt.Text.Cuts.{Bytes, eq_bytes}

pub data Key : Type 0 where
  ip actor : Bytes → Key

-- `Key: Eq`
abbrev pub same_key : Key → Key → Bool
same_key (ip a) (ip b) = eq_bytes a b
same_key (actor a) (actor b) = eq_bytes a b
same_key (ip a) (actor b) = false
same_key (actor a) (ip b) = false

-- Two `u32`.
pub record LimitConfig : Type 0 where
  pub capacity : ℕ
  pub refill_per_sec : ℕ

abbrev pub default_ip : LimitConfig
default_ip = record { capacity = 60; refill_per_sec = 10 }

abbrev pub default_actor : LimitConfig
default_actor = record { capacity = 600; refill_per_sec = 100 }

pub record Bucket : Type 0 where
  pub millitokens : ℕ
  pub last_refill : ℕ
  pub last_seen : ℕ

abbrev pub Buckets : Type 0
Buckets = List (Key × Bucket)

pub record RateLimiter : Type 0 where
  pub inner : Buckets
  pub ip_cfg : LimitConfig
  pub actor_cfg : LimitConfig

unfoldable pub new : LimitConfig → LimitConfig → RateLimiter
new ip_cfg actor_cfg = record { inner = []; ip_cfg = ip_cfg; actor_cfg = actor_cfg }

abbrev pub max_rate_limit_entries : ℕ
max_rate_limit_entries = 65536

abbrev pub u64_size : ℕ
u64_size = 2 ^ 64

-- `map.get(&key)`
unfoldable pub lookup : Key → Buckets → Option Bucket
lookup k [] = none
lookup k ((k', b) ∷ m) = if same_key k k' then some b else lookup k m

unfoldable pub insert : Key → Bucket → Buckets → Buckets
insert k b [] = (k, b) ∷ []
insert k b ((k', b') ∷ m) = if same_key k k' then (k', b) ∷ m else (k', b') ∷ insert k b m

abbrev pub contains : Option Bucket → Bool
contains none = false
contains (some b) = true

-- `cap`; it fits a `u64`.
abbrev pub cap_of : LimitConfig → ℕ
cap_of cfg = cfg.capacity * 1000

-- The bucket that `or_insert` gives.
abbrev pub entry_or_full : LimitConfig → ℕ → Option Bucket → Bucket
entry_or_full cfg now none = record { millitokens = cap_of cfg; last_refill = now; last_seen = now }
entry_or_full cfg now (some b) = b

-- `duration_since` of an earlier time is zero; the product wraps in the release build.
abbrev pub elapsed_ms : ℕ → ℕ → ℕ
elapsed_ms now last = (now - last) / 1000000 % u64_size

unfoldable pub refill : LimitConfig → ℕ → Bucket → Bucket
refill cfg now b =
    let elapsed = elapsed_ms now b.last_refill in
    if ltb 0 elapsed
    then record {
      millitokens =
          min (min (b.millitokens + elapsed * cfg.refill_per_sec % u64_size) (u64_size - 1))
            (cap_of cfg);
      last_refill = now;
      last_seen = now;
    }
    else record b { last_seen = now }

-- Whether a token was there, and the bucket without it.
unfoldable pub charge : Bucket → Bool × Bucket
charge b =
    if leb 1000 b.millitokens
    then (true, record b { millitokens = b.millitokens - 1000 })
    else (false, b)

-- The map is full and the key is not in it.
abbrev pub is_refused : Option Bucket → Buckets → Bool
is_refused found m = not (contains found) && leb max_rate_limit_entries (length m)

take_entry : Buckets → Key → LimitConfig → ℕ → Option Bucket → Bool × Buckets
take_entry m k cfg now found =
    if is_refused found m
    then (false, m)
    else let (granted, b) = charge (refill cfg now (entry_or_full cfg now found)) in
      (granted, insert k b m)

unfoldable pub take : Buckets → Key → LimitConfig → ℕ → Bool × Buckets
unfolding take_entry
take m k cfg now = take_entry m k cfg now (lookup k m)

-- One side of `allow`: a capacity of zero and a missing identity let the request pass.
abbrev pub take_side : Buckets → Option Key → LimitConfig → ℕ → Bool × Buckets
take_side m none cfg now = (true, m)
take_side m (some k) cfg now = if cfg.capacity == 0 then (true, m) else take m k cfg now

abbrev pub key_of : (Bytes → Key) → Option Bytes → Option Key
key_of make none = none
key_of make (some x) = some (make x)

-- Both sides are charged, whichever denies.
unfoldable pub allow : RateLimiter → Option Bytes → Option Bytes → ℕ → Bool × RateLimiter
allow rl addr who now =
    let (ip_ok, m₁) = take_side rl.inner (key_of ip addr) rl.ip_cfg now in
    let (actor_ok, m₂) = take_side m₁ (key_of actor who) rl.actor_cfg now in
    (ip_ok && actor_ok, record rl { inner = m₂ })

unfoldable pub retain : ℕ → ℕ → Buckets → Buckets
retain now max_idle [] = []
retain now max_idle ((k, b) ∷ m) =
    if ltb (now - b.last_seen) max_idle
    then (k, b) ∷ retain now max_idle m
    else retain now max_idle m

unfoldable pub gc_idle : RateLimiter → ℕ → ℕ → RateLimiter
gc_idle rl max_idle now = record rl { inner = retain now max_idle rl.inner }
