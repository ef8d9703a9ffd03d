-- ===== src/Control/Problem.antt =====
-- app/api/problems.py: the errors that the routes raise, and results that may be such an error.
use daas_engine.Base.{Bool, String, false, inl, inr, refl, true, ℕ, ◌≡◌, ◌⊎◌}

-- A `ProblemError`: its HTTP status and its machine-readable code.
pub record Problem : Type 0 where
  pub status : ℕ
  pub code : String

abbrev pub problem : ℕ → String → Problem
problem status code = record { status = status; code = code }

pub data Result {ℓ} (A : Type ℓ) : Type ℓ where
  ok : A → Result A
  err : Problem → Result A

-- `if condition: raise ProblemError(status, code)`.
abbrev pub raise_if : Bool → ℕ → String → Result (Unit {0})
raise_if true status code = err (problem status code)
raise_if false status code = ok tt

infixl 5 ◌>>=◌ ◌>>◌
abbrev pub ◌>>=◌ {ℓ κ} : {A : Type ℓ} {B : Type κ} → Result A → (A → Result B) → Result B
ok a >>= f = f a
err p >>= f = err p

abbrev pub ◌>>◌ {ℓ} : {B : Type ℓ} → Result (Unit {0}) → Result B → Result B
m >> k = m >>= λ _. k

-- To split on a computed result and keep the equation.
pub Result-cases {ℓ} :
    {A : Type ℓ} (r : Result A) → ((a : A) × (r ≡ ok a)) ⊎ ((p : Problem) × (r ≡ err p))
Result-cases (ok a) = inl (a, refl)
Result-cases (err p) = inr (p, refl)
