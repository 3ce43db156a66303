-- ===== src/Immediate/Keeps.antt =====
-- What the parts of an evaluation leave on the stack, and which references they have added.
use squirrel_debug_server.Base.{
  ◌⊎◌, ℕ, ◌+◌, ◌≡◌, refl, subst, Option, none, some, List, [], ◌∷◌, ◌++◌, inl, inr, arith,
}
use squirrel_debug_server.Data.{ReturnCode}
use squirrel_debug_server.Variables.Machine.{Machine, Run, then_run}
use squirrel_debug_server.Immediate.Stays.{Left, Left-trans, Stays}
use squirrel_debug_server.Immediate.{Step}
use squirrel_debug_server.Immediate.Evaluate.{owing, and_then}

module _ {Object Heap : Type 0} (references : Heap → Object → ℕ) (same : Object → Object → ℕ) where
  -- The references on `x` that `~RefOwner` gives back.
  unfoldable pub owed : List Object → Object → ℕ
  owed [] x = 0
  owed (o ∷ os) x = same o x + owed os x

  owed-append : (os ps : List Object) (x : Object) → owed (os ++ ps) x ≡ owed os x + owed ps x
  unfolding owed
  owed-append [] ps x = omega arith
  owed-append (o ∷ os) ps x = omega (arith, owed-append os ps x)

  -- A part that adds the references that it says it adds.
  unfoldable pub Keeps :
      {A : Type 0} → Machine Object Heap → Option (Step Object A × Machine Object Heap) → Type 0
  unfolding owed
  Keeps {A} m o =
      (s : ReturnCode ⊎ A) (owned : List Object) (m' : Machine Object Heap)
      → o ≡ some ((s, owned), m')
      → Left references same m m' (owed owned)

  -- The same outcome, whichever way it is written.
  Left-same :
      (m m₁ m₂ : Machine Object Heap) (os ps : List Object)
      → Left references same m m₁ (owed os)
      → os ≡ ps
      → m₁ ≡ m₂
      → Left references same m m₂ (owed ps)
  Left-same m m₁ m₂ os ps l p q =
      subst (λ y. Left references same m m₂ (owed y)) p
        (subst (λ y. Left references same m y (owed os)) q l)

  pub kept :
      {A : Type 0} (s : ReturnCode ⊎ A) (owned : List Object) (m' m : Machine Object Heap)
      → Keeps m (some ((s, owned), m'))
      → Left references same m m' (owed owned)
  unfolding Keeps
  kept s owned m' m keeps = keeps s owned m' refl

  pub some-Keeps :
      {A : Type 0} (s : ReturnCode ⊎ A) (owned : List Object) (m m' : Machine Object Heap)
      → Left references same m m' (owed owned)
      → Keeps m (some ((s, owned), m'))
  unfolding Keeps
  some-Keeps s owned m m' left s' owned' m'' e =
      Left-same m m' m'' owned owned' left (ground (arith, e)) (ground (arith, e))

  pub none-Keeps : (A : Type 0) (m : Machine Object Heap) → Keeps {A = A} m none
  unfolding Keeps
  none-Keeps A m s owned m' e = ground (arith, e)

  pub done-Keeps :
      {A : Type 0} (s : ReturnCode ⊎ A) (m m' : Machine Object Heap)
      → Left references same m m' (λ x. 0)
      → Keeps m (some ((s, []), m'))
  unfolding owed
  done-Keeps s m m' left = some-Keeps s [] m m' left

  owing-Keeps :
      {A : Type 0} (os : List Object) (m m₁ : Machine Object Heap)
      (o : Option (Step Object A × Machine Object Heap))
      → Left references same m m₁ (owed os)
      → Keeps m₁ o
      → Keeps m (owing os o)
  owing-Keeps {A} os m m₁ none left keeps = none-Keeps A m
  owing-Keeps os m m₁ (some ((s, more), m₂)) left keeps = some-Keeps s (os ++ more) m m₂ (
      Left-trans references same m m₁ m₂ (owed os) (owed more) (owed (os ++ more)) left
        (kept s more m₂ m₁ keeps) (λ x. owed-append os more x))

  pub and_then-Keeps :
      {A B : Type 0} (m : Machine Object Heap) (o : Option (Step Object A × Machine Object Heap))
      (k : A → Run Object Heap (Step Object B))
      → Keeps m o
      → ((a : A) (m₁ : Machine Object Heap) → Keeps m₁ (k a m₁))
      → Keeps m (and_then o k)
  and_then-Keeps {B = B} m none k first rest = none-Keeps B m
  and_then-Keeps m (some ((inl rc, os), m₁)) k first rest =
      some-Keeps (inl rc) os m m₁ (kept (inl rc) os m₁ m first)
  and_then-Keeps m (some ((inr a, os), m₁)) k first rest =
      owing-Keeps os m m₁ (k a m₁) (kept (inr a) os m₁ m first) (rest a m₁)

  -- A run that adds no reference, and a part that follows it.
  pub then_run-Keeps :
      {A B : Type 0} (m : Machine Object Heap) (o : Option (A × Machine Object Heap))
      (k : A × Machine Object Heap → Option (Step Object B × Machine Object Heap))
      → Stays references same m o
      → ((a : A) (m₁ : Machine Object Heap)
          → Left references same m m₁ (λ x. 0)
          → Keeps m (k (a, m₁)))
      → Keeps m (then_run o k)
  unfolding Stays
  then_run-Keeps {B = B} m none k first rest = none-Keeps B m
  then_run-Keeps m (some (a, m₁)) k first rest = rest a m₁ (first a m₁ refl)

  pub either-Keeps :
      {A B : Type 0} (xs : List A) (m : Machine Object Heap)
      (o : Option (Step Object B × Machine Object Heap))
      (k : A → List A → Option (Step Object B × Machine Object Heap))
      → Keeps m o
      → ((x : A) (rest : List A) → Keeps m (k x rest))
      → Keeps m (elim xs [ [] ↦ o | x ∷ rest ↦ k x rest ])
  either-Keeps [] m o k nothing something = nothing
  either-Keeps (x ∷ xs) m o k nothing something = something x xs
