-- ===== src/Variables/LookupTrip.antt =====
-- The iterators that `GetObjectFromExpression` answers with are a path that `WithVariableAtPath` can
-- walk.
use squirrel_debug_server.Base.{
  ◌⊎◌, ℕ, zero, suc, ◌<◌, ◌≡◌, refl, ℤ, pos, Bool-cases, Option-cases, inl, inr, Option, none, some,
  List, [], ◌∷◌, ◌==◌, arith,
}
use squirrel_debug_server.Data.{array, table, instance_, VariableType}
use squirrel_debug_server.Variables.Machine.{SquirrelApi, Machine, Run}
use squirrel_debug_server.Variables.Reach.{child, follow}
use squirrel_debug_server.Variables.Lookup.{
  Lookup, found, refused, wrap_uint32, onward, in_array, find_key, in_table,
  get_object_from_expression,
}

unfoldable IsTable : VariableType → Type 0
IsTable t = (t ≡ table) ⊎ (t ≡ instance_)

module _ {Object Heap : Type 0} (api : SquirrelApi Object Heap) where
  -- Arrays and iterators go by the integer values of their keys, which are small and not negative.
  pub record CountsFromZero : Type 0 where
    pub element :
        (heap : Heap) (o key value : Object) (i : ℤ)
        → api.type_of o ≡ array
        → api.integer_value key ≡ some i
        → api.get heap o key ≡ some value
        → (n : ℕ) × (i ≡ pos n)
          × (n < api.size heap o)
          × (n < 2147483648)
          × (api.get heap o (api.integer_object (pos n)) ≡ some value)
    pub entry :
        (heap : Heap) (o iterator : Object) (triple : Object × Object × Object) (i : ℤ)
        → api.integer_value iterator ≡ some i
        → api.next heap o iterator ≡ some triple
        → (n : ℕ) × (i ≡ pos n)
          × (n < 2147483648)
          × (api.next heap o (api.integer_object (pos n)) ≡ some triple)

  -- If it comes back with an object, the path leads from `top` to it.
  unfoldable pub LeadsTo : Heap → Object → Option (Lookup Object × Machine Object Heap) → Type 0
  LeadsTo heap top o =
      (value : Object) (ps : List ℕ) (m' : Machine Object Heap)
      → o ≡ some (found value ps, m')
      → follow api heap top ps ≡ some value

  unfoldable pub RestLeads : Run Object Heap (Lookup Object) → Type 0
  RestLeads rest =
      (heap : Heap) (top : Object) (below : List Object)
      → LeadsTo heap top (rest (record { stack = top ∷ below; heap = heap }))

  onward-LeadsTo :
      (n p : ℕ) (heap : Heap) (top c : Object) (o : Option (Lookup Object × Machine Object Heap))
      → child api heap top p ≡ some c
      → LeadsTo heap c o
      → LeadsTo heap top (onward api n p o)
  unfolding LeadsTo follow
  onward-LeadsTo n p heap top c none step rest value ps m' e = ground (arith, e)
  onward-LeadsTo n p heap top c (some (refused rc, m)) step rest value ps m' e = ground (arith, e)
  onward-LeadsTo n p heap top c (some (found o qs, m)) step rest value ps m' e =
      ground (arith, e, step, rest o qs m refl)

  child_of_index :
      (heap : Heap) (top c : Object) (n : ℕ)
      → api.type_of top ≡ array
      → n < api.size heap top
      → n < 2147483648
      → api.get heap top (api.integer_object (pos n)) ≡ some c
      → child api heap top n ≡ some c
  unfolding child
  child_of_index heap top c n t inside small got = ground (arith, t, got)

  wrap_small : (n : ℕ) → n < 2147483648 → wrap_uint32 (pos n) ≡ n
  wrap_small n h = ground arith

  child_of_iterator :
      (heap : Heap) (top : Object) (triple : Object × Object × Object) (n : ℕ)
      → IsTable (api.type_of top)
      → n < 2147483648
      → api.next heap top (api.integer_object (pos n)) ≡ some triple
      → child api heap top n ≡ some triple.2
  unfolding child IsTable
  child_of_iterator heap top triple n (inl t) small next = ground (arith, t, next)
  child_of_iterator heap top triple n (inr t) small next = ground (arith, t, next)

  in_array-LeadsTo :
      (laws : CountsFromZero) (heap : Heap) (top key : Object) (below : List Object)
      (rest : Run Object Heap (Lookup Object))
      → api.type_of top ≡ array
      → RestLeads rest
      → LeadsTo heap top (in_array api top key rest (record { stack = top ∷ below; heap = heap }))
  unfolding in_array LeadsTo RestLeads
  in_array-LeadsTo laws heap top key below rest t leads value ps m' e =
      elim (Option-cases (api.integer_value key)) [
        | inl no_value ↦ ground (arith, no_value, e)
        | inr (i, index) ↦ elim (Option-cases (api.get heap top key)) [
          | inl missing ↦ ground (arith, index, missing, e)
          | inr (c, got) ↦
              let (n, is_n, inside, small, got_n) = laws.element heap top key c i t index got in
              let step = child_of_index heap top c n t inside small got_n in
              onward-LeadsTo 1 n heap top c (rest (record { stack = c ∷ top ∷ below; heap = heap }))
                step (leads heap c (top ∷ below)) value ps m'
                (ground (arith, index, got, is_n, wrap_small n small, e))
        ]
      ]

  find_key-LeadsTo :
      (laws : CountsFromZero) (f : ℕ) (heap : Heap) (top key iterator v : Object)
      (below : List Object) (rest : Run Object Heap (Lookup Object))
      → IsTable (api.type_of top)
      → RestLeads rest
      → LeadsTo heap top
          (find_key api f key rest (record { stack = iterator ∷ v ∷ top ∷ below; heap = heap }))
  unfolding find_key LeadsTo RestLeads
  find_key-LeadsTo laws zero heap top key iterator v below rest t leads value ps m' e =
      ground (arith, e)
  find_key-LeadsTo laws (suc f) heap top key iterator v below rest t leads value ps m' e =
      elim (Option-cases (api.integer_value iterator)) [
        | inl no_value ↦ ground (arith, no_value, e)
        | inr (i, index) ↦ elim (Option-cases (api.next heap top iterator)) [
          | inl at_end ↦ ground (arith, index, at_end, e)
          | inr ((iterator', key', c), next) ↦
              let (n, is_n, small, next_n) =
                laws.entry heap top iterator (iterator', key', c) i index next in
              let step = child_of_iterator heap top (iterator', key', c) n t small next_n in
              elim (Bool-cases (api.raw_value key' == api.raw_value key)) [
                | inl same ↦
                    onward-LeadsTo 4 n heap top c
                      (rest
                        (record { stack = c ∷ key' ∷ iterator' ∷ v ∷ top ∷ below; heap = heap }))
                      step (leads heap c (key' ∷ iterator' ∷ v ∷ top ∷ below)) value ps m'
                      (ground (arith, index, next, same, is_n, wrap_small n small, e))
                | inr other ↦
                    find_key-LeadsTo laws f heap top key iterator' v below rest t leads value ps m'
                      (ground (arith, index, next, other, e))
              ]
        ]
      ]

  in_table-LeadsTo :
      (laws : CountsFromZero) (f : ℕ) (heap : Heap) (top key : Object) (below : List Object)
      (rest : Run Object Heap (Lookup Object))
      → IsTable (api.type_of top)
      → RestLeads rest
      → LeadsTo heap top (in_table api f top key rest (record { stack = top ∷ below; heap = heap }))
  unfolding in_table LeadsTo
  in_table-LeadsTo laws f heap top key below rest t leads value ps m' e =
      elim (Option-cases (api.get heap top key)) [
        | inl missing ↦ ground (arith, missing, e)
        | inr (v, got) ↦
            find_key-LeadsTo laws f heap top key (api.integer_object (pos 0)) v below rest t leads
              value ps m' (ground (arith, got, e))
      ]

  -- Where arrays and iterators go by small numbers, the iterators that `GetObjectFromExpression` adds
  -- to the path lead, when they are followed from where it started, to the object that it found.
  pub get_object-follow :
      (laws : CountsFromZero) (f : ℕ) (keys : List Object) (heap : Heap) (top value : Object)
      (below : List Object) (ps : List ℕ) (m' : Machine Object Heap)
      → get_object_from_expression api f keys (record { stack = top ∷ below; heap = heap })
        ≡ some (found value ps, m')
      → follow api heap top ps ≡ some value
  unfolding get_object_from_expression LeadsTo RestLeads follow IsTable
  get_object-follow laws f [] heap top value below ps m' e = ground (arith, e)
  get_object-follow laws f (key ∷ keys) heap top value below ps m' e =
      let rest = get_object_from_expression api f keys in
      let leads : RestLeads rest = λ h o b v qs m₁. get_object-follow laws f keys h o v b qs m₁ in
      let indexed = in_array-LeadsTo laws heap top key below rest in
      let keyed = in_table-LeadsTo laws f heap top key below rest in
      ground (
        arith,
        e,
        λ (t : api.type_of top ≡ array). indexed t leads value ps m',
        λ (t : api.type_of top ≡ table). keyed (inl t) leads value ps m',
        λ (t : api.type_of top ≡ instance_). keyed (inr t) leads value ps m',
      )
