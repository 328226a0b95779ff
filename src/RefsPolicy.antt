-- ===== src/RefsPolicy.antt =====
-- src/net/refs_policy.rs: what the server lets a push do to its references. Graph walks the commits,
-- Signatures checks one commit, Evaluate one update and the batch.
pub mod Graph
pub mod Stack
pub mod Reachable
pub mod Enough
pub mod Excluded
pub mod NextNew
pub mod Visited
pub mod NewCommits
pub mod Signatures
pub mod Payload
pub mod Evaluate
pub mod Safety
pub mod FastForward
pub mod Histories
mod Examples
mod IssueExamples
use gyt.Base.{◌≡◌, refl, Bool, true, false, Result, ok, err, GytError}
use gyt.Text.Cuts.{Bytes}
use gyt.Hash.{ObjectId}

pub data PolicyError : Type 0 where
  not_fast_forward : Bytes → PolicyError
  unsigned_commit bad_signature signer_not_allowed : ObjectId → PolicyError
  missing_allowed_signers : PolicyError
  bad_ref_name : Bytes → PolicyError
  internal : PolicyError

-- `Result` of the checks, whose errors are `PolicyError`.
pub data Checked {ℓ} (A : Type ℓ) : Type ℓ where
  passed : A → Checked A
  refused : PolicyError → Checked A

infixl 5 ◌>>=◌ ◌>>◌
abbrev pub ◌>>=◌ {ℓ κ} : {A : Type ℓ} {B : Type κ} → Checked A → (A → Checked B) → Checked B
passed a >>= f = f a
refused e >>= f = refused e

abbrev pub ◌>>◌ {ℓ} : {B : Type ℓ} → Checked (Unit {0}) → Checked B → Checked B
m >> k = m >>= λ _. k

abbrev pub refuse_when : Bool → PolicyError → Checked (Unit {0})
refuse_when true e = refused e
refuse_when false e = passed tt

-- `map_err` to a policy error.
abbrev pub or_refuse {ℓ} : {A : Type ℓ} → Result A → PolicyError → Checked A
or_refuse (ok a) e = passed a
or_refuse (err e') e = refused e
or_refuse Result.stuck e = refused e

-- Inversions of a check that passed.
module _ {ℓ κ μ} {A : Type ℓ} {B : Type κ} {P : Type μ} where
  pub after_passed :
      (m : Checked A) (f : A → Checked B) {b : B}
      → (m >>= f) ≡ passed b
      → ((a : A) → m ≡ passed a → f a ≡ passed b → P)
      → P
  after_passed (passed a) f h k = k a refl h
  after_passed (refused e) f h k = absurd (cc)

  pub after_or_refuse :
      (m : Result A) (e : PolicyError) (f : A → Checked B) {b : B}
      → (or_refuse m e >>= f) ≡ passed b
      → ((a : A) → m ≡ ok a → f a ≡ passed b → P)
      → P
  after_or_refuse (ok a) e f h k = k a refl h
  after_or_refuse (err e') e f h k = absurd (cc)
  after_or_refuse Result.stuck e f h k = absurd (cc)

module _ {κ μ} {B : Type κ} {P : Type μ} where
  pub after_refuse :
      (t : Bool) (e : PolicyError) (m : Checked B) {b : B}
      → (refuse_when t e >> m) ≡ passed b
      → (t ≡ false → m ≡ passed b → P)
      → P
  after_refuse true e m h k = absurd (cc)
  after_refuse false e m h k = k refl h
