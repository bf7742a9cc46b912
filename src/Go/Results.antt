-- ===== src/Go/Results.antt =====
-- Functions that return a value and an error, alone and over a state that they change.
use microservices_course.Common.{◌≡◌, refl, ◌⊎◌, inl, inr}
use microservices_course.Go.Errors.{Err}

-- `(A, error)`: where the error is not nil the callers read nothing of the value.
pub data Result (S A : Type 0) : Type 0 where
  ok : A → Result S A
  err : Err S → Result S A

-- A call that may change the state; what was written before an error stays written.
abbrev pub Action : Type 0 → Type 0 → Type 0 → Type 0
Action St S A = St → Result S A × St

module _ {St S : Type 0} where
  abbrev pub pure : {A : Type 0} → A → Action St S A
  pure a s = (ok a, s)

  abbrev pub throw : {A : Type 0} → Err S → Action St S A
  throw e s = (err e, s)

  -- the result of a call that changes nothing
  abbrev pub lift : {A : Type 0} → Result S A → Action St S A
  lift r s = (r, s)

  -- `a, err := m(); if err != nil { return err }`
  infixl 5 ◌>>=◌ ◌>>◌
  abbrev pub ◌>>=◌ : {A B : Type 0} → Action St S A → (A → Action St S B) → Action St S B
  ◌>>=◌ m f s = let (r, t) = m s in elim r [ ok a ↦ f a t | err e ↦ (err e, t) ]

  abbrev pub ◌>>◌ : {A B : Type 0} → Action St S A → Action St S B → Action St S B
  m >> k = m >>= λ _. k

pub Result-cases :
    {S A : Type 0} (r : Result S A) → ((a : A) × (r ≡ ok a)) ⊎ ((e : Err S) × (r ≡ err e))
Result-cases (ok a) = inl (a, refl)
Result-cases (err e) = inr (e, refl)
