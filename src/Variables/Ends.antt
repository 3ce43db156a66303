-- ===== src/Variables/Ends.antt =====
-- How runs on the API's stack end: the machine that they leave, if they come back.
use squirrel_debug_server.Base.{◌≡◌, Option, Bool, true, false, none, some, arith, refl, subst}
use squirrel_debug_server.Variables.Machine.{Machine, then_run}

module _ {Object Heap : Type 0} where
  -- If it comes back, the machine is `m`.
  unfoldable pub Ends :
      {A : Type 0} → Machine Object Heap → Option (A × Machine Object Heap) → Type 0
  Ends {A} m o = (a : A) (m' : Machine Object Heap) → o ≡ some (a, m') → m' ≡ m

  pub none-Ends : (A : Type 0) (m : Machine Object Heap) → Ends {A = A} m none
  unfolding Ends
  none-Ends A m a m' e = ground arith

  pub some-Ends : {A : Type 0} (b : A) (m : Machine Object Heap) → Ends m (some (b, m))
  unfolding Ends
  some-Ends b m a m' e = ground (arith, e)

  -- A run, and what follows it.
  pub then_run-Ends :
      {A B : Type 0} (m₁ m : Machine Object Heap) (o : Option (A × Machine Object Heap))
      (k : A × Machine Object Heap → Option (B × Machine Object Heap))
      → Ends m₁ o
      → ((a : A) → Ends m (k (a, m₁)))
      → Ends m (then_run o k)
  unfolding Ends
  then_run-Ends m₁ m none k first rest b m' e = ground arith
  then_run-Ends m₁ m (some (a, m₂)) k first rest b m' e =
      rest a b m' (subst (λ x. k (a, x) ≡ some (b, m')) (first a m₂ refl) e)

  -- A value that is read, and what follows.
  pub read-Ends :
      {A B : Type 0} (m : Machine Object Heap) (o : Option A)
      (k : A → Option (B × Machine Object Heap))
      → ((a : A) → o ≡ some a → Ends m (k a))
      → Ends m (then_run o k)
  unfolding Ends
  read-Ends m none k rest b m' e = ground arith
  read-Ends m (some a) k rest b m' e = rest a refl b m' e

  -- A test of a value that may be missing.
  pub option-Ends :
      {A B : Type 0} (m : Machine Object Heap) (o : Option A) (x : Option (B × Machine Object Heap))
      (k : A → Option (B × Machine Object Heap))
      → Ends m x
      → ((a : A) → o ≡ some a → Ends m (k a))
      → Ends m (elim o [ none ↦ x | some a ↦ k a ])
  option-Ends m none x k missing found = missing
  option-Ends m (some a) x k missing found = found a refl

  pub test-Ends :
      {B : Type 0} (m : Machine Object Heap) (b : Bool) (x y : Option (B × Machine Object Heap))
      → Ends m x
      → Ends m y
      → Ends m (elim b [ true ↦ x | false ↦ y ])
  test-Ends m true x y if_true if_false = if_true
  test-Ends m false x y if_true if_false = if_false
