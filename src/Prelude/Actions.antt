-- ===== src/Prelude/Actions.antt =====
-- Fallible steps over a state, which comes back also when a step fails. A panic is a fault of its
-- own, since `?` passes it on and no arm on `Err` catches it; so is a loop whose fuel runs out.
use mathlib.Core.Path.{◌≡◌, ap}
use mathlib.Core.Option.{Option, none, some}
use emporium.Prelude.Results.{Result, ok, err}

pub data Fault {ℓ} (E : Type ℓ) : Type ℓ where
  failed : E → Fault E
  panicked : Fault E
  diverged : Fault E

abbrev pub Action {ℓ κ μ} : Type ℓ → Type κ → Type μ → Type (ℓ ⊔ κ ⊔ μ)
Action S A E = S → Result A (Fault E) × S

module _ {ℓ κ μ} {S : Type ℓ} {A : Type κ} {E : Type μ} where
  abbrev pub pure : A → Action S A E
  pure a s = (ok a, s)

  abbrev pub fail : E → Action S A E
  fail e s = (err (failed e), s)

  abbrev pub panic : Action S A E
  panic s = (err panicked, s)

  -- the fuel of a loop is spent
  abbrev pub diverge : Action S A E
  diverge s = (err diverged, s)

  -- a step run to its end, with its outcome as a value
  abbrev pub attempt : Action S A E → Action S (Result A (Fault E)) E
  attempt m s = let (r, s') = m s in (ok r, s')

  -- an outcome made one's own
  abbrev pub settle : Result A (Fault E) → Action S A E
  settle r s = (r, s)

  -- `Option::unwrap`
  abbrev pub unwrap : Option A → Action S A E
  unwrap none = panic
  unwrap (some a) = pure a

  -- a result that does not depend on the state
  abbrev pub lift : Result A E → Action S A E
  lift (ok a) = pure a
  lift (err e) = fail e

  -- `Result::map_err`
  abbrev pub map_fail {ν} : {F : Type ν} → (F → E) → Action S A F → Action S A E
  map_fail f m s =
      let (r, s') = m s in
      elim r [
        | ok a ↦ (ok a, s')
        | err (failed e) ↦ (err (failed (f e)), s')
        | err panicked ↦ (err panicked, s')
        | err diverged ↦ (err diverged, s')
      ]

infixl 5 ◌>>=◌ ◌>>◌
abbrev pub ◌>>=◌ {ℓ κ ν μ} :
    {S : Type ℓ} {A : Type κ} {B : Type ν} {E : Type μ}
    → Action S A E
    → (A → Action S B E)
    → Action S B E
◌>>=◌ m f s = let (r, s') = m s in elim r [ ok a ↦ f a s' | err e ↦ (err e, s') ]

abbrev pub ◌>>◌ {ℓ κ ν μ} :
    {S : Type ℓ} {A : Type κ} {B : Type ν} {E : Type μ} → Action S A E → Action S B E → Action S B E
m >> k = m >>= λ _. k

-- how a bind goes on, by the outcome of its first step
module _ {ℓ κ ν μ} {S : Type ℓ} {A : Type κ} {B : Type ν} {E : Type μ} (m : Action S A E)
    (f : A → Action S B E) {s t : S} where
  pub bind_ok : {a : A} → m s ≡ (ok a, t) → (m >>= f) s ≡ f a t
  bind_ok e = ap (λ p. ((λ _. p) >>= f) s) e

  pub bind_err : {e : Fault E} → m s ≡ (err e, t) → (m >>= f) s ≡ (err e, t)
  bind_err h = ap (λ p. ((λ _. p) >>= f) s) h
