-- ===== src/Base/Errors.antt =====
-- errors.rs: the crate's error type, and its `Result`. A variant keeps the fixed text of its
-- message; what `format!` interpolates is left out. `stuck` is no Rust value: a loop on fuel ran out,
-- or (in Ticket) the code panicked.
use Prim.Native.String.{String}
use mathlib.Core.Path.{◌≡◌, refl}
use mathlib.Core.Logic.{◌≢◌, ◌⊎◌, inl, inr}
use mathlib.Core.Bool.{Bool, true, false}
use mathlib.Core.Option.{Option, none, some}

pub data GytError : Type 0 where
  io parse repo object index refs net not_found : String → GytError
  invalid_argument unsupported ci : String → GytError

pub data Result {ℓ} (A : Type ℓ) : Type ℓ where
  ok : A → Result A
  err : GytError → Result A
  stuck : Result A

infixl 5 ◌>>=◌ ◌>>◌
abbrev pub ◌>>=◌ {ℓ κ} : {A : Type ℓ} {B : Type κ} → Result A → (A → Result B) → Result B
ok a >>= f = f a
err e >>= f = err e
stuck >>= f = stuck

abbrev pub ◌>>◌ {ℓ} : {B : Type ℓ} → Result (Unit {0}) → Result B → Result B
m >> k = m >>= λ _. k

-- `if c { return Err(e); }`
abbrev pub refuse_if : Bool → GytError → Result (Unit {0})
refuse_if true e = err e
refuse_if false e = ok tt

-- `o.ok_or(e)?`
abbrev pub ok_or {ℓ} : {A : Type ℓ} → Option A → GytError → Result A
ok_or none e = err e
ok_or (some a) e = ok a

-- Inversions of a successful step. They hand the parts to a continuation, as variables.
module _ {ℓ κ μ} {A : Type ℓ} {B : Type κ} {P : Type μ} where
  pub after_ok :
      (m : Result A) (f : A → Result B) {b : B}
      → (m >>= f) ≡ ok b
      → ((a : A) → m ≡ ok a → f a ≡ ok b → P)
      → P
  after_ok (ok a) f h k = k a refl h
  after_ok (err e) f h k = absurd (cc)
  after_ok stuck f h k = absurd (cc)

  pub after_some :
      (o : Option A) (e : GytError) (f : A → Result B) {b : B}
      → (ok_or o e >>= f) ≡ ok b
      → ((a : A) → o ≡ some a → f a ≡ ok b → P)
      → P
  after_some none e f h k = absurd (cc)
  after_some (some a) e f h k = k a refl h

module _ {κ μ} {B : Type κ} {P : Type μ} where
  pub after_test :
      (t : Bool) (e : GytError) (m : Result B) {b : B}
      → (refuse_if t e >> m) ≡ ok b
      → (t ≡ false → m ≡ ok b → P)
      → P
  after_test true e m h k = absurd (cc)
  after_test false e m h k = k refl h

-- A chain of steps that never run out of fuel does not either.
module _ {ℓ κ} {A : Type ℓ} {B : Type κ} where
  pub >>=-ne-stuck :
      (m : Result A) (f : A → Result B)
      → m ≢ stuck
      → ((a : A) → m ≡ ok a → f a ≢ stuck)
      → (m >>= f) ≢ stuck
  >>=-ne-stuck (ok a) f hm hf h = hf a refl h
  >>=-ne-stuck (err e) f hm hf h = cc
  >>=-ne-stuck stuck f hm hf h = hm refl

pub refuse_if-ne-stuck : (b : Bool) (e : GytError) → refuse_if b e ≢ stuck
refuse_if-ne-stuck true e h = cc
refuse_if-ne-stuck false e h = cc

pub ok_or-ne-stuck {ℓ} : {A : Type ℓ} (o : Option A) (e : GytError) → ok_or o e ≢ stuck
ok_or-ne-stuck none e h = cc
ok_or-ne-stuck (some a) e h = cc

pub Result-cases {ℓ} :
    {A : Type ℓ} (r : Result A)
    → ((a : A) × (r ≡ ok a)) ⊎ ((e : GytError) × (r ≡ err e)) ⊎ (r ≡ stuck)
Result-cases (ok a) = inl (a, refl)
Result-cases (err e) = inr (inl (e, refl))
Result-cases stuck = inr (inr refl)
