-- ===== src/Immediate/Stays.antt =====
-- What a run leaves on the stack, and how many references it has added.
use squirrel_debug_server.Base.{
  ℕ, ◌+◌, ◌-◌, ◌≡◌, refl, sym, ◌∙◌, subst, ap, drop, Bool, true, false, Option, none, some, ◌∷◌,
  arith,
}
use squirrel_debug_server.Variables.Machine.{SquirrelApi, Machine, pop, then_run}
use squirrel_debug_server.Variables.Ends.{Ends}

-- How many references the host holds on each object: only `sq_addref` and `sq_release` change that.
-- `same o x` is 1 if `o` is the object `x`, and 0 if not.
pub record CountsReferences {Object Heap : Type 0} (api : SquirrelApi Object Heap)
    (references : Heap → Object → ℕ) (same : Object → Object → ℕ) : Type 0 where
  pub added :
      (heap : Heap) (o x : Object)
      → references (api.add_ref heap o) x ≡ same o x + references heap x
  pub released :
      (heap : Heap) (o x : Object)
      → references (api.release heap o) x ≡ references heap x - same o x
  pub new_kept :
      (heap : Heap) (x : Object) → references (api.new_table heap).1 x ≡ references heap x
  pub set_kept :
      (heap : Heap) (t key value x : Object)
      → references (api.raw_set heap t key value) x ≡ references heap x

module _ {Object Heap : Type 0} (references : Heap → Object → ℕ) (same : Object → Object → ℕ) where
  -- The stack is as it was, and `n` more references on each object are held.
  pub record Left (m m' : Machine Object Heap) (n : Object → ℕ) : Type 0 where
    pub stack : m'.stack ≡ m.stack
    pub held : (x : Object) → references m'.heap x ≡ n x + references m.heap x

  -- A run that adds no reference.
  unfoldable pub Stays :
      {A : Type 0} → Machine Object Heap → Option (A × Machine Object Heap) → Type 0
  Stays {A} m o = (a : A) (m' : Machine Object Heap) → o ≡ some (a, m') → Left m m' (λ x. 0)

  pub Left-refl : (m : Machine Object Heap) → Left m m (λ x. 0)
  Left-refl m = record { stack = refl; held = λ x. omega arith }

  pub Left-trans :
      (m₁ m₂ m₃ : Machine Object Heap) (j k n : Object → ℕ)
      → Left m₁ m₂ j
      → Left m₂ m₃ k
      → ((x : Object) → n x ≡ j x + k x)
      → Left m₁ m₃ n
  Left-trans m₁ m₂ m₃ j k n a b total = record {
    stack = b.stack ∙ a.stack;
    held = λ x. omega (arith, a.held x, b.held x, total x);
  }

  pub Ends-Stays :
      {A : Type 0} (m m₁ : Machine Object Heap) (o : Option (A × Machine Object Heap))
      → Left m m₁ (λ x. 0)
      → Ends m₁ o
      → Stays m o
  unfolding Ends Stays
  Ends-Stays m m₁ o left ends a m' e = subst (λ x. Left m x (λ y. 0)) (sym (ends a m' e)) left

  -- The object that was pushed is popped.
  pub Left-pop :
      (o : Object) (heap : Heap) (m m' : Machine Object Heap)
      → ((x : Object) → references heap x ≡ references m.heap x)
      → Left (record { stack = o ∷ m.stack; heap = heap }) m' (λ x. 0)
      → Left m (pop 1 m') (λ x. 0)
  Left-pop o heap m m' same_heap left = record {
    stack = ap (drop 1) left.stack;
    held = λ x. left.held x ∙ ap (λ n. 0 + n) (same_heap x);
  }

  pub some-Stays : {A : Type 0} (a : A) (m : Machine Object Heap) → Stays m (some (a, m))
  unfolding Stays
  some-Stays a m b m' e = subst (λ x. Left m x (λ y. 0)) (ground (arith, e)) (Left-refl m)

  pub none-Stays : (A : Type 0) (m : Machine Object Heap) → Stays {A = A} m none
  unfolding Stays
  none-Stays A m a m' e = ground (arith, e)

  pub then_run-Stays :
      {A B : Type 0} (m : Machine Object Heap) (o : Option (A × Machine Object Heap))
      (k : A × Machine Object Heap → Option (B × Machine Object Heap))
      → Stays m o
      → ((a : A) (m₁ : Machine Object Heap) → Left m m₁ (λ x. 0) → Stays m (k (a, m₁)))
      → Stays m (then_run o k)
  unfolding Stays
  then_run-Stays m none k first rest b m' e = ground (arith, e)
  then_run-Stays m (some (a, m₁)) k first rest b m' e = rest a m₁ (first a m₁ refl) b m' e

  pub read-Stays :
      {A B : Type 0} (m : Machine Object Heap) (o : Option A)
      (k : A → Option (B × Machine Object Heap))
      → ((a : A) → Stays m (k a))
      → Stays m (then_run o k)
  read-Stays {B = B} m none k rest = none-Stays B m
  read-Stays m (some a) k rest = rest a

  pub option-Stays :
      {A B : Type 0} (m : Machine Object Heap) (o : Option A) (x : Option (B × Machine Object Heap))
      (k : A → Option (B × Machine Object Heap))
      → Stays m x
      → ((a : A) → Stays m (k a))
      → Stays m (elim o [ none ↦ x | some a ↦ k a ])
  option-Stays m none x k missing found = missing
  option-Stays m (some a) x k missing found = found a

  pub test-Stays :
      {B : Type 0} (m : Machine Object Heap) (b : Bool) (x y : Option (B × Machine Object Heap))
      → Stays m x
      → Stays m y
      → Stays m (elim b [ true ↦ x | false ↦ y ])
  test-Stays m true x y if_true if_false = if_true
  test-Stays m false x y if_true if_false = if_false

  pub Left-Stays :
      {A : Type 0} (a : A) (m m₁ : Machine Object Heap)
      → Left m m₁ (λ x. 0)
      → Stays m (some (a, m₁))
  unfolding Stays
  Left-Stays a m m₁ left b m' e = subst (λ x. Left m x (λ y. 0)) (ground (arith, e)) left

  -- A run with an object on top, which is popped behind it.
  pub pop-Stays :
      {A : Type 0} (pushed : Object) (heap : Heap) (m : Machine Object Heap)
      (o : Option (A × Machine Object Heap))
      → ((x : Object) → references heap x ≡ references m.heap x)
      → Stays (record { stack = pushed ∷ m.stack; heap = heap }) o
      → Stays m (then_run o (λ (r : A × Machine Object Heap). some (r.0, pop 1 r.1)))
  unfolding Stays
  pop-Stays {A} pushed heap m none same_heap stays = none-Stays A m
  pop-Stays pushed heap m (some (a, m₁)) same_heap stays =
      Left-Stays a m (pop 1 m₁) (Left-pop pushed heap m m₁ same_heap (stays a m₁ refl))

  -- What follows a run that added none.
  pub after-Stays :
      {A : Type 0} (m m₁ : Machine Object Heap) (o : Option (A × Machine Object Heap))
      → Left m m₁ (λ x. 0)
      → Stays m₁ o
      → Stays m o
  unfolding Stays
  after-Stays m m₁ o left stays a m' e =
      Left-trans m m₁ m' (λ x. 0) (λ x. 0) (λ x. 0) left (stays a m' e) (λ x. omega arith)
