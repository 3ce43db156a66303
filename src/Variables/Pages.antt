-- ===== src/Variables/Pages.antt =====
-- SquirrelVmHelpers.cpp: the pages of a listing, by which the web client reads a table piece by piece.
use squirrel_debug_server.Base.{
  ℕ, zero, suc, ◌+◌, ◌<◌, ◌≡◌, ◌∙◌, refl, sym, ap, subst, ℤ, pos, true, false, Option, none, some,
  List, [], ◌∷◌, ◌++◌, length, drop, ltb, arith, Option-cases, Bool-cases, inl, inr, ◌⊎◌,
}
use squirrel_debug_server.Data.{Variable, VariableType, table, instance_}
use squirrel_debug_server.Variables.Machine.{SquirrelApi, Machine, Run, at, push, pop, then_run}
use squirrel_debug_server.Variables.Types.{Platform}
use squirrel_debug_server.Variables.Show.{
  KeyToTableIter, sq_next, table_keys, sort_keys, max_table_size_to_sort, to_string,
}
use squirrel_debug_server.Variables.Children.{
  table_child, children_at_keys, sorted_children, table_children, create_child_variables,
}
use squirrel_debug_server.Variables.ShowEnds.{
  HasNames, HasNames-key, HasNames-value, NamedAt, NamedBelow, at-NamedAt, table_keys-Ends,
}
use squirrel_debug_server.Variables.Ends.{Ends}
use squirrel_debug_server.Variables.Balance.{ChildEnds, table_child-Ends, pushed_to_string-Ends}

drop-drop : {A : Type 0} (n a : ℕ) (xs : List A) → drop a (drop n xs) ≡ drop (n + a) xs
drop-drop zero a xs = let add : 0 + a ≡ a = omega arith in rw (add) refl
drop-drop (suc n) zero [] = let add : suc n + 0 ≡ suc n = omega arith in rw (add) refl
drop-drop (suc n) (suc a) [] =
    let add : suc n + suc a ≡ suc (n + suc a) = omega arith in rw (add) refl
drop-drop (suc n) a (x ∷ xs) =
    let add : suc n + a ≡ suc (n + a) = omega arith in rw (add) (drop-drop n a xs)

module _ {Object Heap : Type 0} where
  -- If the first run gives `n` entries and the second comes back, then the whole one gives the entries
  -- of both.
  unfoldable Joins :
      ℕ → (first second whole : Option (List Variable × Machine Object Heap)) → Type 0
  Joins n first second whole =
      (us ws : List Variable) (m₁ m₂ : Machine Object Heap)
      → first ≡ some (us, m₁)
      → length us ≡ n
      → second ≡ some (ws, m₂)
      → whole ≡ some (us ++ ws, m₂)

  read-Joins :
      {A : Type 0} (n : ℕ) (o : Option A) (second : Option (List Variable × Machine Object Heap))
      (k₁ k₂ : A → Option (List Variable × Machine Object Heap))
      → ((a : A) → o ≡ some a → Joins n (k₁ a) second (k₂ a))
      → Joins n (then_run o k₁) second (then_run o k₂)
  unfolding Joins
  read-Joins n none second k₁ k₂ rest us ws m₁ m₂ e l s = ground arith
  read-Joins n (some a) second k₁ k₂ rest us ws m₁ m₂ e l s = rest a refl us ws m₁ m₂ e l s

  all-Joins :
      {A : Type 0} (n : ℕ) (o : Option A)
      (k₁ k₂ k₃ : A → Option (List Variable × Machine Object Heap))
      → ((a : A) → o ≡ some a → Joins n (k₁ a) (k₂ a) (k₃ a))
      → Joins n (then_run o k₁) (then_run o k₂) (then_run o k₃)
  unfolding Joins
  all-Joins n none k₁ k₂ k₃ joins us ws m₁ m₂ e l s = ground arith
  all-Joins n (some a) k₁ k₂ k₃ joins us ws m₁ m₂ e l s = joins a refl us ws m₁ m₂ e l s

  too_short-Joins :
      (n : ℕ) (second whole : Option (List Variable × Machine Object Heap))
      (m : Machine Object Heap)
      → Joins (suc n) (some ([], m)) second whole
  unfolding Joins
  too_short-Joins n second whole m us ws m₁ m₂ e l s = ground (arith, e, l)

  none-Joins :
      (n : ℕ) (second : Option (List Variable × Machine Object Heap)) (m : Machine Object Heap)
      → Joins zero (some ([], m)) second second
  unfolding Joins
  none-Joins n second m us ws m₁ m₂ e l s = ground (arith, e, s)

  abbrev with_first :
      Variable → List Variable × Machine Object Heap → Option (List Variable × Machine Object Heap)
  with_first v vs = some (v ∷ vs.0, vs.1)

  abbrev joined :
      List Variable
      → List Variable
      → Machine Object Heap
      → Option (List Variable × Machine Object Heap)
  joined xs ws m = some (xs ++ ws, m)

  abbrev entries : Option (List Variable × Machine Object Heap) → List Variable
  entries none = []
  entries (some (vs, m)) = vs

  cons-Joins :
      (n : ℕ) (v : Variable) (first second whole : Option (List Variable × Machine Object Heap))
      → Joins n first second whole
      → Joins (suc n) (then_run first (with_first v)) second (then_run whole (with_first v))
  unfolding Joins
  cons-Joins n v none second whole rest us ws m₁ m₂ e l s = ground arith
  cons-Joins n v (some (us', m')) second whole rest us ws m₁ m₂ e l s =
      let same : (v ∷ us') ≡ us = ap entries e in
      let short : length us' ≡ n = omega (arith, ap (λ xs. length xs) same ∙ l) in
      rw (rest us' ws m' m₂ refl short s) (ap (λ xs. joined xs ws m₂) same)

module _ {Object Heap : Type 0} (platform : Platform) (bit_index : VariableType → ℕ)
    (api : SquirrelApi Object Heap) where
  -- What `sq_next` leaves, of a container that leads to no anonymous function.
  sq_next-pushed :
      (start : Object) (m m' : Machine Object Heap)
      → NamedAt api 0 m
      → sq_next api (push start m) ≡ some (some m')
      → (iterator key value : Object) × (m' ≡ push value (push key (push iterator m)))
        × HasNames api m.heap key
        × HasNames api m.heap value
  unfolding sq_next NamedAt
  sq_next-pushed start m m' named e = elim (Option-cases (at 0 m)) [
    | inl a ↦ ground (arith, a, e)
    | inr (container, a) ↦ elim (Option-cases (api.next m.heap container start)) [
      | inl n ↦ ground (arith, a, n, e)
      | inr ((iterator, key, value), n) ↦ (
        iterator,
        key,
        value,
        ground (arith, a, n, e),
        HasNames-key api m.heap container start iterator key value n (named container a),
        HasNames-value api m.heap container start iterator key value n (named container a),
      )
    ]
  ]

  module _ (child : ℤ → Run Object Heap Variable)
      (ends : ChildEnds platform bit_index api child) where
    abbrev listed : ℕ → List KeyToTableIter → Run Object Heap (List Variable)
    listed count es m = children_at_keys platform bit_index api child count es m

    after_next :
        KeyToTableIter
        → ℕ
        → List KeyToTableIter
        → Machine Object Heap
        → Option (Machine Object Heap)
        → Option (List Variable × Machine Object Heap)
    after_next e count es m none = some ([], m)
    after_next e count es m (some m') =
        then_run (child e.1 m') (λ (v : Variable × Machine Object Heap).
          then_run (listed count es (pop 1 v.1)) (with_first v.0))

    after_next-Joins :
        (a whole : ℕ) (e : KeyToTableIter) (es : List KeyToTableIter) (m : Machine Object Heap)
        (second : Option (List Variable × Machine Object Heap)) (o : Option (Machine Object Heap))
        → NamedAt api 0 m
        → sq_next api (push (api.integer_object e.1) m) ≡ some o
        → Joins a (listed a es m) second (listed whole es m)
        → Joins (suc a) (after_next e a es m o) second (after_next e whole es m o)
    unfolding after_next ChildEnds Ends
    after_next-Joins a whole e es m second none named next rest =
        too_short-Joins a second (some ([], m)) m
    after_next-Joins a whole e es m second (some m') named next rest =
        read-Joins (suc a) (child e.1 m') second _ _ (λ v found.
          let pushed = sq_next-pushed (api.integer_object e.1) m m' named next in
          let back : pop 1 v.1 ≡ m =
            ap (λ (x : Machine Object Heap). pop 1 x)
              (ends e.1 pushed.1 pushed.2 (push pushed.0 m) pushed.4 pushed.5 v.0 v.1
                (subst (λ x. child e.1 x ≡ some v) pushed.3 found)) in
          rw (back) (cons-Joins a v.0 (listed a es m) second (listed whole es m) rest))

    children_at_keys-Joins :
        (a b : ℕ) (es : List KeyToTableIter) (m : Machine Object Heap)
        → NamedAt api 0 m
        → Joins a (listed a es m) (listed b (drop a es) m) (listed (a + b) es m)
    unfolding children_at_keys after_next
    children_at_keys-Joins zero b es m named =
        let add : 0 + b ≡ b = omega arith in rw (add) (none-Joins zero (listed b es m) m)
    children_at_keys-Joins (suc a) b [] m named =
        let add : suc a + b ≡ suc (a + b) = omega arith in
        rw (add) (too_short-Joins a (listed b [] m) (some ([], m)) m)
    children_at_keys-Joins (suc a) b (e ∷ es) m named =
        let m₁ = push (api.integer_object e.1) m in
        let second = listed b (drop a es) m in
        let add : suc a + b ≡ suc (a + b) = omega arith in
        rw (add) (
          read-Joins (suc a) (sq_next api m₁) second (after_next e a es m)
            (after_next e (a + b) es m)
            (λ o next.
              after_next-Joins a (a + b) e es m second o named next
                (children_at_keys-Joins a b es m named)))

  module _ (f : ℕ) where
    -- A page of the table whose sorted keys are known.
    abbrev page : List KeyToTableIter → ℕ → ℕ → Run Object Heap (List Variable)
    page keys begin count m = elim (ltb (length keys) begin) [
      | true ↦ none
      | false ↦
          children_at_keys platform bit_index api (table_child platform bit_index api f) count
            (drop begin (sort_keys keys)) m
    ]

    page_inside :
        (keys : List KeyToTableIter) (begin count : ℕ) (m : Machine Object Heap)
        → ltb (length keys) begin ≡ false
        → page keys begin count m
          ≡ children_at_keys platform bit_index api
              (table_child platform bit_index api f)
              count
              (drop begin (sort_keys keys))
              m
    page_inside keys begin count m inside = rw (page, inside) refl

    page-Joins :
        (keys : List KeyToTableIter) (begin a b : ℕ) (m : Machine Object Heap)
        → NamedAt api 0 m
        → Joins a (page keys begin a m) (page keys (begin + a) b m) (page keys begin (a + b) m)
    unfolding Joins
    page-Joins keys begin a b m named us ws m₁ m₂ e l s =
        elim (Bool-cases (ltb (length keys) (begin + a))) [
          | inl past ↦ ground (arith, past, s)
          | inr inside₂ ↦
              let inside : ltb (length keys) begin ≡ false = ground (arith, inside₂) in
              page_inside keys begin (a + b) m inside
              ∙ children_at_keys-Joins (table_child platform bit_index api f)
                  (table_child-Ends platform bit_index api f) a b (drop begin (sort_keys keys)) m
                  named us ws m₁ m₂ (sym (page_inside keys begin a m inside) ∙ e) l
                  (rw (drop-drop begin a (sort_keys keys))
                    (sym (page_inside keys (begin + a) b m inside₂) ∙ s))
        ]

    sorted_children-Joins :
        (begin a b : ℕ) (m : Machine Object Heap)
        → NamedAt api 0 m
        → Joins a
            (sorted_children platform bit_index api f begin a m)
            (sorted_children platform bit_index api f (begin + a) b m)
            (sorted_children platform bit_index api f begin (a + b) m)
    unfolding sorted_children NamedBelow Ends
    sorted_children-Joins begin a b m named =
        let show = to_string platform bit_index api f 0 in
        let start = push (api.integer_object (pos 0)) m in
        all-Joins a (table_keys api show f start) (λ keys. page keys.0 begin a keys.1)
          (λ keys. page keys.0 (begin + a) b keys.1) (λ keys. page keys.0 begin (a + b) keys.1)
          (λ keys read.
            let back =
              table_keys-Ends api show f start (pushed_to_string-Ends platform bit_index api f)
                named keys.0 keys.1 read in
            page-Joins keys.0 begin a b keys.1 (subst (λ x. NamedAt api 0 x) (sym back) named))

    -- A table or an instance, whose keys are sorted.
    abbrev IsSortedTable : Object → Machine Object Heap → Type 0
    IsSortedTable o m =
        ((api.type_of o ≡ table) ⊎ (api.type_of o ≡ instance_))
        × (api.size m.heap o < max_table_size_to_sort)

    create_child_variables-sorted :
        (begin count : ℕ) (top : Object) (m : Machine Object Heap)
        → at 0 m ≡ some top
        → IsSortedTable top m
        → create_child_variables platform bit_index api f begin count m
          ≡ sorted_children platform bit_index api f begin count m
    unfolding create_child_variables table_children
    create_child_variables-sorted begin count top m a (inl t, small) = ground (arith, a, t, small)
    create_child_variables-sorted begin count top m a (inr t, small) = ground (arith, a, t, small)

    -- Of a table or an instance with less than 1000 keys that leads to no anonymous function, if
    -- `CreateChildVariables` gives a full page of `a` variables from `begin` on, and the page of at most
    -- `b` behind it comes back, then the page of at most `a + b` from `begin` on comes back with the
    -- variables of both, in order, and nothing is listed twice or left out between two pages. `begin`
    -- counts keys in the order of their texts; it is no iterator of the table.
    pub create_child_variables-pages :
        (begin a b : ℕ) (top : Object) (m m₁ m₂ : Machine Object Heap) (us ws : List Variable)
        → at 0 m ≡ some top
        → IsSortedTable top m
        → HasNames api m.heap top
        → create_child_variables platform bit_index api f begin a m ≡ some (us, m₁)
        → length us ≡ a
        → create_child_variables platform bit_index api f (begin + a) b m ≡ some (ws, m₂)
        → create_child_variables platform bit_index api f begin (a + b) m ≡ some (us ++ ws, m₂)
    unfolding Joins
    create_child_variables-pages begin a b top m m₁ m₂ us ws top_is is_sorted has_names first full
          second =
        let named = at-NamedAt api top m top_is has_names in
        let same = λ (n count : ℕ). create_child_variables-sorted n count top m top_is is_sorted in
        same begin (a + b)
        ∙ sorted_children-Joins begin a b m named us ws m₁ m₂ (sym (same begin a) ∙ first) full
            (sym (same (begin + a) b) ∙ second)
