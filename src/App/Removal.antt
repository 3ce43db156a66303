-- ===== src/App/Removal.antt =====
-- The end of `Run` takes one VM out of the list, and keeps the others.
use squirrel_debug_server.Base.{
  ℕ, zero, suc, ◌+◌, ◌-◌, ◌≡◌, refl, Bool, some, List, [], ◌∷◌, length, get_elem?, ◌==◌,
  if◌then◌else◌, arith, subst, Bool-cases, Option-cases, inl, inr,
}
use squirrel_debug_server.App.Vms.{VmInfo, find_vm, write_at, swap, pop_back, remove_running}

module _ {ℓ} {A : Type ℓ} (test : A → Bool) where
  abbrev pub one_if : Bool → ℕ
  one_if b = if b then 1 else 0

  -- How many elements satisfy the test.
  unfoldable pub tally : List A → ℕ
  tally [] = 0
  tally (x ∷ xs) = one_if (test x) + tally xs

  tally-write_at :
      (i : ℕ) (a b : A) (xs : List A)
      → get_elem? xs i ≡ some a
      → tally (write_at i b xs) + one_if (test a) ≡ tally xs + one_if (test b)
  unfolding tally write_at
  tally-write_at i a b [] h = ground (arith, h)
  tally-write_at zero a b (x ∷ xs) h = ground (arith, h)
  tally-write_at (suc i) a b (x ∷ xs) h = omega (arith, tally-write_at i a b xs h)

  tally-pop_back :
      (x : A) (xs : List A) (a : A)
      → get_elem? (x ∷ xs) (length xs) ≡ some a
      → tally (pop_back (x ∷ xs)) + one_if (test a) ≡ tally (x ∷ xs)
  unfolding tally pop_back
  tally-pop_back x [] a h = ground (arith, h)
  tally-pop_back x (y ∷ ys) a h = omega (arith, tally-pop_back y ys a h)

module _ {ℓ} {A : Type ℓ} where
  length-write_at : (i : ℕ) (a : A) (xs : List A) → length (write_at i a xs) ≡ length xs
  unfolding write_at
  length-write_at i a [] = refl
  length-write_at zero a (x ∷ xs) = refl
  length-write_at (suc i) a (x ∷ xs) = omega (arith, length-write_at i a xs)

  get_elem?-write_at :
      (i : ℕ) (a b : A) (xs : List A)
      → get_elem? xs i ≡ some a
      → get_elem? (write_at i b xs) i ≡ some b
  unfolding write_at
  get_elem?-write_at i a b [] h = ground (arith, h)
  get_elem?-write_at zero a b (x ∷ xs) h = refl
  get_elem?-write_at (suc i) a b (x ∷ xs) h = get_elem?-write_at i a b xs h

  -- Where the element of an index goes over another with the same value or none.
  get_elem?-write_at_same :
      (i j : ℕ) (b : A) (xs : List A)
      → get_elem? xs j ≡ some b
      → get_elem? (write_at i b xs) j ≡ some b
  unfolding write_at
  get_elem?-write_at_same i j b [] h = h
  get_elem?-write_at_same zero zero b (x ∷ xs) h = refl
  get_elem?-write_at_same zero (suc j) b (x ∷ xs) h = h
  get_elem?-write_at_same (suc i) zero b (x ∷ xs) h = h
  get_elem?-write_at_same (suc i) (suc j) b (x ∷ xs) h = get_elem?-write_at_same i j b xs h

last_element {ℓ} :
    {A : Type ℓ} (xs : List A) (n : ℕ) → length xs ≡ suc n → (a : A) × (get_elem? xs n ≡ some a)
last_element [] n h = let absurd : ⊥ = omega (arith, h) in elim absurd [ ]
last_element (x ∷ []) zero h = (x, refl)
last_element (x ∷ []) (suc n) h = let absurd : ⊥ = omega (arith, h) in elim absurd [ ]
last_element (x ∷ y ∷ ys) zero h = let absurd : ⊥ = omega (arith, h) in elim absurd [ ]
last_element (x ∷ y ∷ ys) (suc n) h = last_element (y ∷ ys) n (omega (arith, h))

tally-pop_back_last {ℓ} :
    {A : Type ℓ} (test : A → Bool) (xs : List A) (n : ℕ) (a : A)
    → length xs ≡ suc n
    → get_elem? xs n ≡ some a
    → tally test (pop_back xs) + one_if test (test a) ≡ tally test xs
tally-pop_back_last test [] n a h g = let absurd : ⊥ = omega (arith, h) in elim absurd [ ]
tally-pop_back_last test (x ∷ xs) n a h g =
    tally-pop_back test x xs a (subst (λ k. get_elem? (x ∷ xs) k ≡ some a) (omega (arith, h)) g)

module _ {D : Type 0} where
  find_vm-element :
      (v : ℕ) (infos : List (VmInfo D)) (i : ℕ)
      → find_vm v infos ≡ some i
      → (info : VmInfo D) × (get_elem? infos i ≡ some info) × (info.0 ≡ v)
  unfolding find_vm
  find_vm-element v [] i h = let absurd : ⊥ = ground (arith, h) in elim absurd [ ]
  find_vm-element v (info ∷ infos) i h = elim (Bool-cases (info.0 == v)) [
    | inl here ↦ (info, ground (arith, h, here), ground (arith, here))
    | inr other ↦ elim (Option-cases (find_vm v infos)) [
      | inl missing ↦ let absurd : ⊥ = ground (arith, h, other, missing) in elim absurd [ ]
      | inr (j, at) ↦
          let (found, is_at, is_v) = find_vm-element v infos j at in
          (found, ground (arith, h, other, at, is_at), is_v)
    ]
  ]

  remove_running-swap :
      (v i : ℕ) (a b : VmInfo D) (infos : List (VmInfo D))
      → find_vm v infos ≡ some i
      → get_elem? infos i ≡ some a
      → get_elem? infos (length infos - 1) ≡ some b
      → remove_running v infos
        ≡ some (pop_back (write_at (length infos - 1) a (write_at i b infos)))
  unfolding remove_running swap
  remove_running-swap v i a b infos found at_i at_n = ground (arith, found, at_i, at_n)

  -- If the VM is in the list, the end of `Run` takes one entry of it out and no other: every test of
  -- entries holds of as many as before, less the entry that was taken.
  pub remove_running-tally :
      (v : ℕ) (infos : List (VmInfo D)) (i : ℕ)
      → find_vm v infos ≡ some i
      → (info : VmInfo D) × (rest : List (VmInfo D)) × (info.0 ≡ v)
        × (remove_running v infos ≡ some rest)
        × ((test : VmInfo D → Bool) → tally test rest + one_if test (test info) ≡ tally test infos)
  unfolding find_vm
  remove_running-tally v [] i h = let absurd : ⊥ = ground (arith, h) in elim absurd [ ]
  remove_running-tally v (x ∷ xs) i h =
      let infos : List (VmInfo D) = x ∷ xs in
      let n : ℕ = length xs in
      let (a, at_i, is_v) = find_vm-element v infos i h in
      let (b, at_n) = last_element infos n refl in
      let moved : List (VmInfo D) = write_at i b infos in
      let moved_n = get_elem?-write_at_same i n b infos at_n in
      let last_a = get_elem?-write_at n b a moved moved_n in
      let size : length (write_at n a moved) ≡ suc n =
        omega (arith, length-write_at n a moved, length-write_at i b infos) in
      let index : length infos - 1 ≡ n = omega arith in
      (
        a,
        pop_back (write_at n a moved),
        is_v,
        subst
            (λ k.
              get_elem? infos k ≡ some b
              → remove_running v infos ≡ some (pop_back (write_at k a (write_at i b infos))))
            index (remove_running-swap v i a b infos h at_i) at_n,
        λ test. omega (
          arith,
          tally-pop_back_last test (write_at n a moved) n a size last_a,
          tally-write_at test n b a moved moved_n,
          tally-write_at test i a b infos at_i,
        ),
      )
