-- ===== src/Action.antt =====
-- Go functions that may fail and that change shared state: the state goes through every step, and
-- what was done before an error or a panic stays done.
use ework_runner.Prelude.{◌≡◌, refl, ◌⊎◌, inl, inr}
use ework_runner.Domain.Errors.{Error}

-- `panic` is an uncaught Go panic, such as the use of a nil pointer.
pub data Result {ℓ} (A : Type ℓ) : Type ℓ where
  ok : A → Result A
  err : Error → Result A
  panic : Result A

abbrev pub Action : Type 0 → Type 0 → Type 0
Action S A = S → Result A × S

module _ {S A : Type 0} where
  abbrev pub pure : A → Action S A
  pure a s = (ok a, s)

  abbrev pub raise : Error → Action S A
  raise e s = (err e, s)

  abbrev pub panics : Action S A
  panics s = (panic, s)

module _ {S A B : Type 0} where
  abbrev pub continue : Result A → (A → Action S B) → Action S B
  continue (ok a) f s = f a s
  continue (err e) f s = (err e, s)
  continue panic f s = (panic, s)

  infixl 10 ◌>>=◌ ◌>>◌
  abbrev pub ◌>>=◌ : Action S A → (A → Action S B) → Action S B
  ◌>>=◌ m f s = let (r, s') = m s in continue r f s'

  abbrev pub ◌>>◌ : Action S A → Action S B → Action S B
  m >> n = m >>= λ _. n

  -- The error of `m` handed to `handler`, as in `if err != nil { … }`.
  abbrev pub handle_result : Result A → (A → Action S B) → (Error → Action S B) → Action S B
  handle_result (ok a) f handler s = f a s
  handle_result (err e) f handler s = handler e s
  handle_result panic f handler s = (panic, s)

  abbrev pub on_result : Action S A → (A → Action S B) → (Error → Action S B) → Action S B
  on_result m f handler s = let (r, s') = m s in handle_result r f handler s'

pub result_cases {ℓ} :
    {A : Type ℓ} (r : Result A) → ((a : A) × (r ≡ ok a)) ⊎ ((e : Error) × (r ≡ err e)) ⊎ (r ≡ panic)
result_cases (ok a) = inl (a, refl)
result_cases (err e) = inr (inl (e, refl))
result_cases panic = inr (inr refl)
