-- ===== src/Prelude/Outcome.antt =====
-- What a request comes to, for any type of errors, and chains of `await`.
use mathlib.Core.Path.{◌≡◌, refl, ap}
use mathlib.Core.Logic.{◌≢◌, ◌⊎◌, inl, inr}
use mathlib.Core.Bool.{Bool}
use mathlib.Core.Option.{Option, none, some}
use mothercare_backend.Prelude.Tests.{if◌then◌else◌}

-- The throw, or the value that the request goes on with.
pub data Outcome {κ} (E : Type 0) (V : Type κ) : Type κ where
  err : E → Outcome E V
  ok : V → Outcome E V

module _ {κ μ} {E : Type 0} {V : Type κ} {W : Type μ} where
  infixl 5 ◌>>=◌
  abbrev pub ◌>>=◌ : Outcome E V → (V → Outcome E W) → Outcome E W
  (err thrown) >>= rest = err thrown
  (ok value) >>= rest = rest value

  pub both_ok :
      (first : Outcome E V) (rest : V → Outcome E W) {last : W}
      → (first >>= rest) ≡ ok last
      → (value : V) × (first ≡ ok value) × (rest value ≡ ok last)
  both_ok (ok value) rest h = (value, refl, h)
  both_ok (err thrown) rest h = absurd (cc (h))

module _ {κ} {E : Type 0} {V : Type κ} where
  pub ok-same : {a b : V} → ◌≡◌ {A = Outcome E V} (ok a) (ok b) → a ≡ b
  ok-same h = cc (h)

  pub err-same : {a b : E} → ◌≡◌ {A = Outcome E V} (err a) (err b) → a ≡ b
  err-same h = cc (h)

  pub not_both : {a : E} {b : V} {o : Outcome E V} → o ≡ err a → o ≢ ok b
  not_both p q = absurd (cc (p, q))

  -- `value ?? throw`
  abbrev pub or_throw : Option V → E → Outcome E V
  or_throw (some value) thrown = ok value
  or_throw none thrown = err thrown

  pub or_throw-some : (o : Option V) (thrown : E) {v : V} → or_throw o thrown ≡ ok v → o ≡ some v
  or_throw-some (some value) thrown h = ap some (ok-same h)
  or_throw-some none thrown h = absurd (cc (h))

module _ {μ} {E : Type 0} {W : Type μ} where
  infixl 5 ◌>>◌
  -- A check of which only the throw matters.
  abbrev pub ◌>>◌ : Outcome E (Unit {0}) → Outcome E W → Outcome E W
  (err thrown) >> rest = err thrown
  (ok checked) >> rest = rest

  -- `if (!holds) throw`
  pub guarded :
      (holds : Bool) (thrown : E) (rest : Outcome E W) {last : W}
      → (or_throw (if holds then some tt else none) thrown >> rest) ≡ ok last
      → (holds ≡ Bool.true) × (rest ≡ ok last)
  guarded Bool.true thrown rest h = (refl, h)
  guarded Bool.false thrown rest h = absurd (cc (h))

-- `if (!holds) throw`
abbrev pub guard : {E : Type 0} → Bool → E → Outcome E (Unit {0})
guard holds thrown = or_throw (if holds then some tt else none) thrown

pub Outcome-cases {κ} :
    {E : Type 0} {V : Type κ} (answer : Outcome E V)
    → ((thrown : E) × (answer ≡ err thrown)) ⊎ ((value : V) × (answer ≡ ok value))
Outcome-cases (ok value) = inr (value, refl)
Outcome-cases (err thrown) = inl (thrown, refl)
