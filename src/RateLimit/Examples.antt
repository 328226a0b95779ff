-- ===== src/RateLimit/Examples.antt =====
-- src/net/rate_limit.rs at concrete inputs, its unit tests among them.
use gyt.Base.{◌≢◌, ℕ, ◌+◌, ◌-◌, ◌*◌, ◌/◌, ◌≤◌, ◌≡◌, refl, true, false, none, some, [], ◌∷◌, arith}
use gyt.Text.Cuts.{Bytes, eq_bytes}
use gyt.RateLimit.{
  ip, LimitConfig, default_ip, default_actor, RateLimiter, new, lookup, insert, allow, refill,
  charge, take, retain, gc_idle,
}
use gyt.RateLimit.Bounds.{Request, granted_to, allow_rate}
use gyt.RateLimit.Sizes.{IsBounded}
use gyt.RateLimit.Runs.{Reached, started, requested, Reached-IsBounded, recent, lookup-gc_idle}

abbrev localhost : Bytes
localhost = 127 ∷ 0 ∷ 0 ∷ 1 ∷ []

abbrev burst_of_3 : LimitConfig
burst_of_3 = record { capacity = 3; refill_per_sec = 0 }

abbrev fresh : RateLimiter
fresh = record { inner = []; ip_cfg = burst_of_3; actor_cfg = default_actor }

abbrev request_at : ℕ → Request
request_at t = record { addr = some localhost; who = none; now = t }

-- `allow_then_deny_after_burst`
allow_then_deny :
    granted_to localhost fresh (request_at 0 ∷ request_at 1 ∷ request_at 2 ∷ request_at 3 ∷ []) ≡ 3
unfolding granted_to allow take lookup insert refill charge eq_bytes
allow_then_deny = refl

-- A bucket that is empty and never refilled is collected like a full one: the address gets a new
-- full bucket.
abbrev drained : RateLimiter
drained = record {
  inner = (ip localhost, record { millitokens = 0; last_refill = 0; last_seen = 0 }) ∷ [];
  ip_cfg = burst_of_3;
  actor_cfg = default_actor;
}

gc_idle_drops_a_drained_bucket : (gc_idle drained 300 301).inner ≡ []
unfolding gc_idle retain
gc_idle_drops_a_drained_bucket = refl

refused_before_gc : (allow drained (some localhost) none 301).0 ≡ false
unfolding allow take lookup insert refill charge eq_bytes
refused_before_gc = refl

passes_after_gc : (allow (gc_idle drained 300 301) (some localhost) none 301).0 ≡ true
unfolding gc_idle retain allow take lookup insert refill charge eq_bytes
passes_after_gc = refl

allow_rate_example :
    granted_to localhost (new default_ip default_actor) (request_at 5 ∷ request_at 7 ∷ []) * 1000
    ≤ 60 * 1000 + 10 * ((1000000000 - 0) / 1000000)
allow_rate_example =
    allow_rate default_ip default_actor localhost (request_at 5 ∷ request_at 7 ∷ []) 0 1000000000
      refl (omega arith)

-- One request, at time 5.
abbrev once : RateLimiter
once = (allow (new burst_of_3 default_actor) (some localhost) none 5).1

once-Reached : Reached once
once-Reached =
    requested (new burst_of_3 default_actor) (some localhost) none 5
      (started burst_of_3 default_actor)

Reached-IsBounded_example : IsBounded once.ip_cfg once.actor_cfg once.inner
Reached-IsBounded_example = Reached-IsBounded once once-Reached

lookup-gc_idle_example :
    lookup (ip localhost) (gc_idle once 300 200).inner
    ≡ recent 200 300 (lookup (ip localhost) once.inner)
lookup-gc_idle_example = lookup-gc_idle once 300 200 (ip localhost) once-Reached

seen_lately : lookup (ip localhost) (gc_idle once 300 304).inner ≢ none
unfolding gc_idle retain allow take lookup insert refill charge eq_bytes new
seen_lately = λ e. cc
