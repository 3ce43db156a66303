-- ===== src/Variables/Path.antt =====
-- SquirrelDebugger.cpp: the paths to variables, iterators separated by commas, as
-- `WithStackVariables` and `PopulateGlobalVariables` split and convert them.
use squirrel_debug_server.Base.{
  ℕ, ◌-◌, ◌≡◌, refl, ℤ, pos, negsuc, Bool, true, false, Option, none, some, List, [], ◌∷◌, ◌++◌,
  Text, ltb, ◌==◌, if◌then◌else◌, arith,
}
use squirrel_debug_server.Numbers.Digits.{decimal, all_digits, decimal-digits}
use squirrel_debug_server.Numbers.Read.{stoi, stoi-decimal}

abbrev onto_first : ℕ → List Text → List Text
onto_first c [] = (c ∷ []) ∷ []
onto_first c (s ∷ ss) = (c ∷ s) ∷ ss

-- `while (ss.good()) getline(ss, substr, ',')`: one part more than there are commas.
unfoldable pub split : Text → List Text
split [] = [] ∷ []
split (c ∷ t) = let rest = split t in if c == b',' then [] ∷ rest else onto_first c rest

-- `pathParts.emplace_back(stoi(substr))`: an `int` that becomes a `uint64_t`.
abbrev pub to_uint64 : ℤ → ℕ
to_uint64 (pos n) = n
to_uint64 (negsuc n) = 18446744073709551615 - n

-- `none`: `stoi` throws, and nothing catches it before the controller.
unfoldable pub convert_parts : List Text → Option (List ℕ)
unfolding stoi
convert_parts [] = some []
convert_parts (s ∷ ss) = elim (stoi s) [
  | none ↦ none
  | some i ↦ elim (convert_parts ss) [ none ↦ none | some parts ↦ some (to_uint64 i ∷ parts) ]
]

unfoldable pub path_parts : Text → Option (List ℕ)
unfolding split convert_parts
path_parts path = convert_parts (split path)

-- The path that a client sends for some iterators.
unfoldable pub print_path : ℕ → List ℕ → Text
unfolding decimal
print_path p [] = decimal p
print_path p (q ∷ ps) = decimal p ++ b',' ∷ print_path q ps

abbrev pub all_int32 : List ℕ → Bool
all_int32 [] = true
all_int32 (p ∷ ps) = if ltb p 2147483648 then all_int32 ps else false

split-digits : (s : Text) → all_digits s ≡ true → split s ≡ s ∷ []
unfolding split
split-digits [] h = refl
split-digits (c ∷ s) h = ground (arith, split-digits s)

split-digits_comma : (s t : Text) → all_digits s ≡ true → split (s ++ b',' ∷ t) ≡ s ∷ split t
unfolding split
split-digits_comma [] t h = refl
split-digits_comma (c ∷ s) t h = ground (arith, split-digits_comma s t)

-- Reading the path of some iterators gives them back, where each is less than 2 ^ 31.
pub path_parts-print :
    (p : ℕ) (ps : List ℕ) → all_int32 (p ∷ ps) ≡ true → path_parts (print_path p ps) ≡ some (p ∷ ps)
unfolding path_parts print_path convert_parts
path_parts-print p [] h =
    rw (split-digits (decimal p) (decimal-digits p))
      (rw (convert_parts, stoi-decimal p (ground arith)) refl)
path_parts-print p (q ∷ ps) h =
    rw (split-digits_comma (decimal p) (print_path q ps) (decimal-digits p))
      (rw (convert_parts, stoi-decimal p (ground arith)) (ground (arith, path_parts-print q ps)))

convert_parts-append_empty : (ss : List Text) → convert_parts (ss ++ [] ∷ []) ≡ none
unfolding convert_parts stoi
convert_parts-append_empty [] = refl
convert_parts-append_empty (s ∷ ss) = ground (arith, convert_parts-append_empty ss)

abbrev has_parts : List Text → Bool
has_parts [] = false
has_parts (s ∷ ss) = true

split-has_parts : (t : Text) → has_parts (split t) ≡ true
unfolding split
split-has_parts [] = refl
split-has_parts (c ∷ t) = ground (arith, split-has_parts t)

onto_first-append :
    (c : ℕ) (ss ts : List Text)
    → has_parts ss ≡ true
    → onto_first c (ss ++ ts) ≡ onto_first c ss ++ ts
onto_first-append c [] ts h = ground arith
onto_first-append c (s ∷ ss) ts h = refl

split-append_comma : (t : Text) → split (t ++ b',' ∷ []) ≡ split t ++ [] ∷ []
unfolding split
split-append_comma [] = refl
split-append_comma (c ∷ t) = ground (
  arith,
  split-append_comma t,
  split-has_parts t,
  onto_first-append c (split t) ([] ∷ []) (split-has_parts t),
)

-- A comma at the end of a path, whatever stands before it, makes `stoi` throw.
pub path_parts-trailing_comma : (t : Text) → path_parts (t ++ b',' ∷ []) ≡ none
unfolding path_parts
path_parts-trailing_comma t = rw (split-append_comma t) (convert_parts-append_empty (split t))

pub path_parts-empty : path_parts [] ≡ none
unfolding path_parts convert_parts split stoi
path_parts-empty = refl
