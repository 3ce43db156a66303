-- ===== src/Variables/PageTests.antt =====
-- The order of keys and the pages of a listing at concrete inputs: a table with the keys `y` and `x`.
use squirrel_debug_server.Base.{
  ℕ, zero, suc, ◌≡◌, refl, pos, Option, none, some, List, [], ◌∷◌, Text, codes, arith, map, inl,
  sym, ◌≢◌, ◌∙◌, ap, ◌+◌, ◌++◌,
}
use mathlib.Core.List.{Memᴰ, Permᴰ}
use squirrel_debug_server.Data.{Variable}
use squirrel_debug_server.Variables.Machine.{SquirrelApi, Machine}
use squirrel_debug_server.Variables.Types.{msvc, position}
use squirrel_debug_server.Variables.Show.{KeyToTableIter, to_string, show_integer, sort_keys}
use squirrel_debug_server.Variables.Sorting.{NamesEntries, IsSorted, sort_keys_unique}
use squirrel_debug_server.Variables.Children.{create_child_variables}
use squirrel_debug_server.Variables.Pages.{create_child_variables-pages}
use squirrel_debug_server.Variables.ShowEnds.{HasNames}
use squirrel_debug_server.Variables.Tests.{Object, globals, whole, chars, Heap, small_api, heap₀}

abbrev pair_next : Heap → Object → Object → Option (Object × Object × Object)
pair_next heap globals (whole (pos zero)) = some (whole (pos 1), chars (codes "y"), heap.entry)
pair_next heap globals (whole (pos (suc zero))) =
    some (whole (pos 2), chars (codes "x"), heap.element)
pair_next heap _ _ = none

abbrev pair_api : SquirrelApi Object Heap
pair_api = record small_api { next = pair_next; size = λ heap o. 2 }

abbrev pair_machine : Machine Object Heap
pair_machine = record { stack = globals ∷ []; heap = heap₀ }

abbrev variables_of : Option (List Variable × Machine Object Heap) → List Variable
variables_of none = []
variables_of (some (vs, m)) = vs

abbrev names_of : List Variable → List Text
names_of vs = map (λ (v : Variable). v.path_ui_string) vs

abbrev page_of : ℕ → ℕ → Option (List Variable × Machine Object Heap)
page_of begin count = create_child_variables msvc position pair_api 9 begin count pair_machine

lists_sorted : names_of (variables_of (page_of 0 9)) ≡ codes "x" ∷ codes "y" ∷ []
unfolding create_child_variables position to_string show_integer sort_keys
lists_sorted = refl

create_child_variables-pages_example :
    page_of 0 (1 + 1)
    ≡ some (variables_of (page_of 0 1) ++ variables_of (page_of (0 + 1) 1), pair_machine)
unfolding create_child_variables position to_string show_integer sort_keys HasNames
create_child_variables-pages_example =
    create_child_variables-pages msvc position pair_api 9 0 1 1 globals pair_machine pair_machine
      pair_machine (variables_of (page_of 0 1)) (variables_of (page_of (0 + 1) 1)) refl
      (inl refl, omega arith) (λ x name leads e. ground (arith, e)) refl refl refl

abbrev two_keys : List KeyToTableIter
two_keys = (codes "y", pos 0) ∷ (codes "x", pos 1) ∷ []

abbrev keys_in_order : List KeyToTableIter
keys_in_order = (codes "x", pos 1) ∷ (codes "y", pos 0) ∷ []

abbrev first_code : Text → ℕ
first_code [] = 0
first_code (c ∷ cs) = c

-- The two entries have different texts.
different_texts :
    (a b : KeyToTableIter) (s t : Text)
    → a.0 ≡ s
    → b.0 ≡ t
    → a.0 ≡ b.0
    → first_code s ≢ first_code t
    → a ≡ b
different_texts a b s t p q same differ = absurd (differ (ap first_code (sym p ∙ same ∙ q)))

two_keys-NamesEntries : NamesEntries two_keys
unfolding NamesEntries
two_keys-NamesEntries a b (Memᴰ.head p) (Memᴰ.head q) same = p ∙ sym q
two_keys-NamesEntries a b (Memᴰ.head p) (Memᴰ.tail (Memᴰ.head q)) same =
    different_texts a b (codes "y") (codes "x") (ap (λ (k : KeyToTableIter). k.0) p)
      (ap (λ (k : KeyToTableIter). k.0) q) same (λ e. omega arith)
two_keys-NamesEntries a b (Memᴰ.head p) (Memᴰ.tail (Memᴰ.tail q)) same = elim q [ ]
two_keys-NamesEntries a b (Memᴰ.tail (Memᴰ.head p)) (Memᴰ.head q) same =
    different_texts a b (codes "x") (codes "y") (ap (λ (k : KeyToTableIter). k.0) p)
      (ap (λ (k : KeyToTableIter). k.0) q) same (λ e. omega arith)
two_keys-NamesEntries a b (Memᴰ.tail (Memᴰ.head p)) (Memᴰ.tail (Memᴰ.head q)) same = p ∙ sym q
two_keys-NamesEntries a b (Memᴰ.tail (Memᴰ.head p)) (Memᴰ.tail (Memᴰ.tail q)) same = elim q [ ]
two_keys-NamesEntries a b (Memᴰ.tail (Memᴰ.tail p)) q same = elim p [ ]

sort_keys_unique_example :
    (Permᴰ two_keys (sort_keys two_keys) × IsSorted (sort_keys two_keys))
    × (Permᴰ two_keys keys_in_order → IsSorted keys_in_order → keys_in_order ≡ sort_keys two_keys)
sort_keys_unique_example = sort_keys_unique two_keys keys_in_order two_keys-NamesEntries
