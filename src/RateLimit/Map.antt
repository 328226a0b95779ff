-- ===== src/RateLimit/Map.antt =====
-- src/net/rate_limit.rs: the bucket map as a `HashMap`.
use gyt.Base.{
  suc, ◌≡◌, refl, sym, ap, ◌≢◌, Bool, true, false, some, [], ◌∷◌, if◌then◌else◌, length, Bool-cases,
  inl, inr,
}
use gyt.Text.Cuts.{eq_bytes_refl, eq_bytes→eq}
use gyt.RateLimit.{Key, ip, actor, same_key, Bucket, Buckets, lookup, insert, contains}

pub same_key_refl : (k : Key) → same_key k k ≡ true
same_key_refl (ip a) = eq_bytes_refl a
same_key_refl (actor a) = eq_bytes_refl a

pub same_key→eq : (k l : Key) → same_key k l ≡ true → k ≡ l
same_key→eq (ip a) (ip b) h = ap ip (eq_bytes→eq a b h)
same_key→eq (actor a) (actor b) h = ap actor (eq_bytes→eq a b h)
same_key→eq (ip a) (actor b) h = cc
same_key→eq (actor a) (ip b) h = cc

pub same_key_ne : (k l : Key) → k ≢ l → same_key k l ≡ false
same_key_ne k l n = elim (Bool-cases (same_key k l)) [
  | inl same ↦ absurd (n (same_key→eq k l same))
  | inr other ↦ other
]

pub lookup-insert : (k : Key) (b : Bucket) (m : Buckets) → lookup k (insert k b m) ≡ some b
unfolding lookup insert
lookup-insert k b [] = rw (same_key_refl k) refl
lookup-insert k b ((k', b') ∷ m) = elim (Bool-cases (same_key k k')) [
  | inl same ↦ rw (same, same) refl
  | inr other ↦ rw (other, other) (lookup-insert k b m)
]

pub lookup-insert_other :
    (k l : Key) (b : Bucket) (m : Buckets) → l ≢ k → lookup l (insert k b m) ≡ lookup l m
unfolding lookup insert
lookup-insert_other k l b [] n = rw (same_key_ne l k n) refl
lookup-insert_other k l b ((k', b') ∷ m) n = elim (Bool-cases (same_key k k')) [
  | inl same ↦ rw (same, sym (same_key→eq k k' same), same_key_ne l k n) refl
  | inr other ↦ rw (other, lookup-insert_other k l b m n) refl
]

-- A key that is there keeps the size, another adds one.
pub length-insert :
    (k : Key) (b : Bucket) (m : Buckets)
    → length (insert k b m) ≡ (if contains (lookup k m) then length m else suc (length m))
unfolding lookup insert
length-insert k b [] = refl
length-insert k b ((k', b') ∷ m) = elim (Bool-cases (same_key k k')) [
  | inl same ↦ rw same refl
  | inr other ↦ rw (other, length-insert k b m) (shift (contains (lookup k m)))
]
  where
    shift :
        (c : Bool)
        → suc (if c then length m else suc (length m))
          ≡ (if c then suc (length m) else suc (suc (length m)))
    shift true = refl
    shift false = refl
