-- ===== src/RateLimit/Bounds.antt =====
-- src/net/rate_limit.rs: the rate that one address gets in a run of requests.
use gyt.Base.{
  ℕ, ◌+◌, ◌-◌, ◌*◌, ◌/◌, ◌≤◌, ◌≡◌, refl, ◌≢◌, Bool, true, false, ◌&&◌, Option, none, some, List, [],
  ◌∷◌, arith, ◌==◌, if◌then◌else◌, Bool-cases, inl, inr,
}
use gyt.Text.Cuts.{Bytes, eq_bytes, eq_bytes_refl, eq_bytes→eq}
use gyt.RateLimit.{
  ip, actor, LimitConfig, Bucket, Buckets, RateLimiter, new, lookup, take, take_side, key_of, allow,
}
use gyt.RateLimit.Rate.{cost, potential, IsPast, take_lem, take_other, later}

pub record Request : Type 0 where
  pub addr : Option Bytes
  pub who : Option Bytes
  pub now : ℕ

-- The requests come in the order of their times, from `t` to `end`.
abbrev pub InOrder : ℕ → ℕ → List Request → Type 0
InOrder t end [] = t ≤ end
InOrder t end (r ∷ rs) = (t ≤ r.now) × InOrder r.now end rs

abbrev pub is_from : Bytes → Option Bytes → Bool
is_from a none = false
is_from a (some x) = eq_bytes x a

-- How many requests of the address a run of `allow` lets through.
unfoldable pub granted_to : Bytes → RateLimiter → List Request → ℕ
granted_to a rl [] = 0
granted_to a rl (r ∷ rs) =
    let (passed, rl') = allow rl r.addr r.who r.now in
    (if passed && is_from a r.addr then 1 else 0) + granted_to a rl' rs

end_after : (t end : ℕ) (rs : List Request) → InOrder t end rs → t ≤ end
end_after t end [] h = h
end_after t end (r ∷ rs) h = omega (arith, h.0, end_after r.now end rs h.1)

actor_side :
    (m : Buckets) (a : Bytes) (who : Option Bytes) (cfg : LimitConfig) (now : ℕ)
    → lookup (ip a) (take_side m (key_of actor who) cfg now).1 ≡ lookup (ip a) m
actor_side m a none cfg now = refl
actor_side m a (some w) cfg now = elim (Bool-cases (cfg.capacity == 0)) [
  | inl off ↦ rw off refl
  | inr on ↦ rw on (take_other m (actor w) (ip a) cfg now λ e. cc)
]

and_true : (b : Bool) → (b && true) ≡ b
and_true true = refl
and_true false = refl

and_false : (b : Bool) → (b && false) ≡ false
and_false true = refl
and_false false = refl

cost_and : (b c d : Bool) → cost ((b && c) && d) ≤ cost (b && d)
cost_and true true d = omega arith
cost_and true false d = omega arith
cost_and false c d = omega arith

cost_times : (b : Bool) (n : ℕ) → ((if b then 1 else 0) + n) * 1000 ≡ cost b + n * 1000
cost_times true n = omega arith
cost_times false n = omega arith

ip_inj : {a b : Bytes} → ip a ≡ ip b → a ≡ b
ip_inj h = cc

differ : (x a : Bytes) → eq_bytes x a ≡ false → ip a ≢ ip x
differ x a other e = let same : eq_bytes x a ≡ true = rw (ip_inj e) (eq_bytes_refl x) in cc

unpaid :
    (cfg : LimitConfig) (end t now : ℕ) (o : Option Bucket)
    → t ≤ now
    → now ≤ end
    → IsPast t o
    → (0 + potential cfg end now o ≤ potential cfg end t o) × IsPast now o
unpaid cfg end t now o h k p =
    let (less, past) = later cfg end t now o h k p in (omega (arith, less), past)

ip_side :
    (m : Buckets) (a : Bytes) (addr : Option Bytes) (cfg : LimitConfig) (end t now : ℕ)
    → (cfg.capacity == 0) ≡ false
    → t ≤ now
    → now ≤ end
    → IsPast t (lookup (ip a) m)
    → let (passed, m') = take_side m (key_of ip addr) cfg now in
      (cost (passed && is_from a addr) + potential cfg end now (lookup (ip a) m')
        ≤ potential cfg end t (lookup (ip a) m))
      × IsPast now (lookup (ip a) m')
ip_side m a none cfg end t now on h k p = unpaid cfg end t now (lookup (ip a) m) h k p
ip_side m a (some x) cfg end t now on h k p = elim (Bool-cases (eq_bytes x a)) [
  | inl same ↦
      rw (same, eq_bytes→eq x a same, on, and_true (take m (ip a) cfg now).0)
        (take_lem m (ip a) cfg end t now h k p)
  | inr other ↦
      rw
        (
          other,
          on,
          and_false (take m (ip x) cfg now).0,
          take_other m (ip x) (ip a) cfg now (differ x a other),
        )
        (unpaid cfg end t now (lookup (ip a) m) h k p)
]

allow_lem :
    (rl : RateLimiter) (a : Bytes) (r : Request) (end t : ℕ)
    → (rl.ip_cfg.capacity == 0) ≡ false
    → t ≤ r.now
    → r.now ≤ end
    → IsPast t (lookup (ip a) rl.inner)
    → let (passed, rl') = allow rl r.addr r.who r.now in
      (cost (passed && is_from a r.addr) + potential rl.ip_cfg end r.now (lookup (ip a) rl'.inner)
        ≤ potential rl.ip_cfg end t (lookup (ip a) rl.inner))
      × IsPast r.now (lookup (ip a) rl'.inner)
unfolding allow
allow_lem rl a r end t on h k p =
    let (ip_ok, m₁) = take_side rl.inner (key_of ip r.addr) rl.ip_cfg r.now in
    let (actor_ok, m₂) = take_side m₁ (key_of actor r.who) rl.actor_cfg r.now in
    let (pays, past) = ip_side rl.inner a r.addr rl.ip_cfg end t r.now on h k p in
    rw (actor_side m₁ a r.who rl.actor_cfg r.now)
      (omega (arith, pays, cost_and ip_ok actor_ok (is_from a r.addr)), past)

rate_lem :
    (rl : RateLimiter) (a : Bytes) (rs : List Request) (t end : ℕ)
    → (rl.ip_cfg.capacity == 0) ≡ false
    → InOrder t end rs
    → IsPast t (lookup (ip a) rl.inner)
    → granted_to a rl rs * 1000 ≤ potential rl.ip_cfg end t (lookup (ip a) rl.inner)
unfolding granted_to allow
rate_lem rl a [] t end on h p = omega arith
rate_lem rl a (r ∷ rs) t end on h p =
    let (passed, rl') = allow rl r.addr r.who r.now in
    let (pays, past) = allow_lem rl a r end t on h.0 (end_after r.now end rs h.1) p in
    let rest : granted_to a rl' rs * 1000
        ≤ potential rl.ip_cfg end r.now (lookup (ip a) rl'.inner) =
      rate_lem rl' a rs r.now end on h.1 past in
    omega (arith, pays, rest, cost_times (passed && is_from a r.addr) (granted_to a rl' rs))

-- However requests of this and of other addresses and actors are mixed, from a fresh limiter one
-- address gets at most its capacity and the refill of the time passed, while its limit is on and
-- no bucket is collected. (The tokens of whole milliseconds, in millitokens.)
pub allow_rate :
    (ip_cfg actor_cfg : LimitConfig) (a : Bytes) (rs : List Request) (t end : ℕ)
    → (ip_cfg.capacity == 0) ≡ false
    → InOrder t end rs
    → granted_to a (new ip_cfg actor_cfg) rs * 1000
      ≤ ip_cfg.capacity * 1000 + ip_cfg.refill_per_sec * ((end - t) / 1000000)
unfolding new lookup
allow_rate ip_cfg actor_cfg a rs t end on h = rate_lem (new ip_cfg actor_cfg) a rs t end on h tt
