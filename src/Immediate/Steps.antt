-- ===== src/Immediate/Steps.antt =====
-- How the parts of an evaluation compose.
use squirrel_debug_server.Base.{
  ◌≡◌, refl, ap, subst, Option, none, some, List, [], ◌++◌, append_assoc, append-nil, inl, inr,
  arith,
}
use squirrel_debug_server.Variables.Machine.{Machine, Run}
use squirrel_debug_server.Immediate.{Step}
use squirrel_debug_server.Immediate.Evaluate.{owing, and_then, done}

module _ {Object Heap : Type 0} where
  owing-owing :
      {A : Type 0} (os ps : List Object) (o : Option (Step Object A × Machine Object Heap))
      → owing (os ++ ps) o ≡ owing os (owing ps o)
  owing-owing os ps none = refl
  owing-owing os ps (some ((s, more), m)) =
      ap (λ owned. some ((s, owned), m)) (append_assoc os ps more)

  owing-and_then :
      {A B : Type 0} (os : List Object) (o : Option (Step Object A × Machine Object Heap))
      (k : A → Run Object Heap (Step Object B))
      → and_then (owing os o) k ≡ owing os (and_then o k)
  owing-and_then os none k = refl
  owing-and_then os (some ((inl rc, owned), m)) k = refl
  owing-and_then os (some ((inr a, owned), m)) k = owing-owing os owned (k a m)

  pub and_then_assoc :
      {A B C : Type 0} (o : Option (Step Object A × Machine Object Heap))
      (k : A → Run Object Heap (Step Object B)) (j : B → Run Object Heap (Step Object C))
      → and_then (and_then o k) j ≡ and_then o (λ a m. and_then (k a m) j)
  and_then_assoc none k j = refl
  and_then_assoc (some ((inl rc, owned), m)) k j = refl
  and_then_assoc (some ((inr a, owned), m)) k j = owing-and_then owned (k a m) j

  pub and_then-done :
      {A : Type 0} (o : Option (Step Object A × Machine Object Heap)) → and_then o done ≡ o
  and_then-done none = refl
  and_then-done (some ((inl rc, owned), m)) = refl
  and_then-done (some ((inr a, owned), m)) = ap (λ os. some ((inr a, os), m)) (append-nil owned)

  owing_nothing : {A : Type 0} (o : Option (Step Object A × Machine Object Heap)) → owing [] o ≡ o
  owing_nothing none = refl
  owing_nothing (some ((s, owned), m)) = refl

  pub done-and_then :
      {A B : Type 0} (a : A) (m : Machine Object Heap) (k : A → Run Object Heap (Step Object B))
      → and_then (done a m) k ≡ k a m
  done-and_then a m k = owing_nothing (k a m)

  -- If it goes on, with a value that satisfies `P`.
  unfoldable pub Goes :
      {A : Type 0} → (A → Type 0) → Option (Step Object A × Machine Object Heap) → Type 0
  Goes {A} P o =
      (a : A) (owned : List Object) (m : Machine Object Heap) → o ≡ some ((inr a, owned), m) → P a

  pub and_then_cong :
      {A B : Type 0} (P : A → Type 0) (o : Option (Step Object A × Machine Object Heap))
      (k j : A → Run Object Heap (Step Object B))
      → Goes P o
      → ((a : A) (m : Machine Object Heap) → P a → k a m ≡ j a m)
      → and_then o k ≡ and_then o j
  unfolding Goes
  and_then_cong P none k j goes same = refl
  and_then_cong P (some ((inl rc, owned), m)) k j goes same = refl
  and_then_cong P (some ((inr a, owned), m)) k j goes same =
      ap (owing owned) (same a m (goes a owned m refl))

  owing-Goes :
      {A : Type 0} (P : A → Type 0) (os : List Object)
      (o : Option (Step Object A × Machine Object Heap))
      → Goes P o
      → Goes P (owing os o)
  unfolding Goes
  owing-Goes P os none goes a owned m e = ground (arith, e)
  owing-Goes P os (some ((inl rc, more), m')) goes a owned m e = ground (arith, e)
  owing-Goes P os (some ((inr b, more), m')) goes a owned m e =
      subst P (ground (arith, e)) (goes b more m' refl)

  pub and_then-Goes :
      {A B : Type 0} (P : A → Type 0) (Q : B → Type 0)
      (o : Option (Step Object A × Machine Object Heap)) (k : A → Run Object Heap (Step Object B))
      → Goes P o
      → ((a : A) (m : Machine Object Heap) → P a → Goes Q (k a m))
      → Goes Q (and_then o k)
  unfolding Goes
  and_then-Goes P Q none k goes next b owned m e = ground (arith, e)
  and_then-Goes P Q (some ((inl rc, owned'), m')) k goes next b owned m e = ground (arith, e)
  and_then-Goes P Q (some ((inr a, owned'), m')) k goes next b owned m e =
      owing-Goes Q owned' (k a m') (next a m' (goes a owned' m' refl)) b owned m e

  pub done-Goes :
      {A : Type 0} (P : A → Type 0) (a : A) (m : Machine Object Heap) → P a → Goes P (done a m)
  unfolding Goes
  done-Goes P a m p b owned m' e = subst P (ground (arith, e)) p

  pub Goes-true :
      {A : Type 0} (o : Option (Step Object A × Machine Object Heap)) → Goes (λ (a : A). Unit) o
  unfolding Goes
  Goes-true o a owned m e = tt

  pub Goes-map :
      {A : Type 0} (P Q : A → Type 0) (o : Option (Step Object A × Machine Object Heap))
      → ((a : A) → P a → Q a)
      → Goes P o
      → Goes Q o
  unfolding Goes
  Goes-map P Q o f goes a owned m e = f a (goes a owned m e)
