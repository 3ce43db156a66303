-- ===== src/Breakpoints/Handles.antt =====
-- File name handles: they are found again, stay valid as names are added, and tell files apart.
use squirrel_debug_server.Base.{
  ℕ, suc, ◌<◌, ◌≡◌, inl, inr, none, some, List, [], ◌∷◌, ◌++◌, Text, text_eq, text_eq→eq,
  text_eq_refl, length, get_elem?, arith, Bool-cases, Option-cases, if◌then◌else◌,
}
use squirrel_debug_server.Breakpoints.{
  BreakpointMap, find_name, find_file_name_handle, ensure_file_name_handle,
}

-- A handle stands for the name at its position.
pub find_name-get :
    (name : Text) (fs : List Text) (h : ℕ) → find_name name fs ≡ some h → get_elem? fs h ≡ some name
unfolding find_name
find_name-get name [] h e = ground arith
find_name-get name (f ∷ fs) h e = elim (Bool-cases (text_eq f name)) [
  | inl same ↦ ground (arith, text_eq→eq f name same)
  | inr other ↦ elim (Option-cases (find_name name fs)) [
    | inl missing ↦ ground arith
    | inr (i, found) ↦
        let here : h ≡ suc i = ground arith in rw here (find_name-get name fs i found)
  ]
]

pub find_name-lt :
    (name : Text) (fs : List Text) (h : ℕ) → find_name name fs ≡ some h → h < length fs
unfolding find_name
find_name-lt name [] h e = ground arith
find_name-lt name (f ∷ fs) h e = elim (Option-cases (find_name name fs)) [
  | inl missing ↦ ground arith
  | inr (i, found) ↦ let below = find_name-lt name fs i found in ground arith
]

-- Where a name was found it stays; a name that was missing gets the next position.
pub find_name-append :
    (name new : Text) (fs : List Text)
    → find_name name (fs ++ new ∷ []) ≡ elim (find_name name fs) [
      | some h ↦ some h
      | none ↦ if text_eq new name then some (length fs) else none
    ]
unfolding find_name
find_name-append name new [] = ground arith
find_name-append name new (f ∷ fs) = ground (arith, find_name-append name new fs)

module _ (str_to_lower : Text → Text) where
  -- The map after the call holds the returned handle under the name.
  pub find-ensure :
      (f : Text) (m : BreakpointMap)
      → let r = ensure_file_name_handle str_to_lower f m in
        find_file_name_handle str_to_lower f r.1 ≡ r.0
  unfolding ensure_file_name_handle
  find-ensure f m = ground (
    arith,
    find_name-append (str_to_lower f) (str_to_lower f) m.file_names,
    text_eq_refl (str_to_lower f),
  )

  -- A handle given out for one file stays that file's handle when another is asked for, and a file
  -- without a handle gets one only if it is the one asked for.
  pub find-ensure_other :
      (f g : Text) (m : BreakpointMap)
      → find_file_name_handle str_to_lower g (ensure_file_name_handle str_to_lower f m).1
        ≡ elim (find_file_name_handle str_to_lower g m) [
          | some h ↦ some h
          | none ↦
              if text_eq (str_to_lower f) (str_to_lower g)
              then (ensure_file_name_handle str_to_lower f m).0
              else none
        ]
  unfolding ensure_file_name_handle
  find-ensure_other f g m = elim (Option-cases (find_name (str_to_lower f) m.file_names)) [
    | inl missing ↦ ground (arith, find_name-append (str_to_lower g) (str_to_lower f) m.file_names)
    | inr (h, found) ↦ ground (arith, text_eq→eq (str_to_lower f) (str_to_lower g))
  ]

  -- Two files that share a handle have the same lower-case name.
  pub find_file_name_handle-injective :
      (f g : Text) (m : BreakpointMap) (h : ℕ)
      → find_file_name_handle str_to_lower f m ≡ some h
      → find_file_name_handle str_to_lower g m ≡ some h
      → str_to_lower f ≡ str_to_lower g
  unfolding find_file_name_handle
  find_file_name_handle-injective f g m h e e' = ground (
    arith,
    find_name-get (str_to_lower f) m.file_names h e,
    find_name-get (str_to_lower g) m.file_names h e',
  )
