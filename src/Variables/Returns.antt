-- ===== src/Variables/Returns.antt =====
-- Runs on the API's stack that come back: a value, a stack and the same heap.
use squirrel_debug_server.Base.{
  ◌≡◌, ◌∙◌, refl, ap, Bool, true, false, Option, none, some, List, ◌∷◌, Option-cases, inl, inr,
}
use squirrel_debug_server.Variables.Machine.{SquirrelApi, Machine, then_run}
use squirrel_debug_server.Variables.Show.{sq_next}

module _ {Object Heap : Type 0} (heap : Heap) where
  abbrev pub machine : List Object → Machine Object Heap
  machine xs = record { stack = xs; heap = heap }

  -- The run comes back, with this stack and the same heap.
  unfoldable pub Returns : {A : Type 0} → List Object → Option (A × Machine Object Heap) → Type 0
  Returns {A} xs o = (a : A) × (o ≡ some (a, machine xs))

  pub some-Returns : {A : Type 0} (a : A) (xs : List Object) → Returns xs (some (a, machine xs))
  unfolding Returns
  some-Returns a xs = (a, refl)

  pub then_run-Returns :
      {A B : Type 0} (xs ys : List Object) (o : Option (A × Machine Object Heap))
      (k : A × Machine Object Heap → Option (B × Machine Object Heap))
      → Returns xs o
      → ((a : A) → Returns ys (k (a, machine xs)))
      → Returns ys (then_run o k)
  unfolding Returns
  then_run-Returns xs ys o k (a, e) rest = let r = rest a in (r.0, ap (λ x. then_run x k) e ∙ r.1)

  pub test-Returns :
      {A : Type 0} (xs : List Object) (b : Bool) (x y : Option (A × Machine Object Heap))
      → Returns xs x
      → Returns xs y
      → Returns xs (elim b [ true ↦ x | false ↦ y ])
  test-Returns xs true x y if_true if_false = if_true
  test-Returns xs false x y if_true if_false = if_false

  pub option-Returns :
      {A B : Type 0} (xs : List Object) (o : Option A) (x : Option (B × Machine Object Heap))
      (k : A → Option (B × Machine Object Heap))
      → Returns xs x
      → ((a : A) → Returns xs (k a))
      → Returns xs (elim o [ none ↦ x | some a ↦ k a ])
  option-Returns xs none x k missing found = missing
  option-Returns xs (some a) x k missing found = found a

  -- A step of an iterator, and what follows.
  pub sq_next-Returns :
      (api : SquirrelApi Object Heap) {B : Type 0} (i container : Object) (below ys : List Object)
      (k : Option (Machine Object Heap) → Option (B × Machine Object Heap))
      → (api.next heap container i ≡ none → Returns ys (k none))
      → ((i' key value : Object)
          → api.next heap container i ≡ some (i', key, value)
          → Returns ys (k (some (machine (value ∷ key ∷ i' ∷ container ∷ below)))))
      → Returns ys (then_run (sq_next api (machine (i ∷ container ∷ below))) k)
  unfolding sq_next
  sq_next-Returns api i container below ys k at_none at_some =
      elim (Option-cases (api.next heap container i)) [
        | inl n ↦ rw (n) (at_none n)
        | inr ((i', key, value), n) ↦ rw (n) (at_some i' key value n)
      ]
