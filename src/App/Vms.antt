-- ===== src/App/Vms.antt =====
-- sample_app/main.cpp: `runningVms_`, and the callbacks that look a VM's debugger up in it. `vmsMutex_`
-- makes each change of the list one step. A debugger is the type `D`; its pointer may be null.
use squirrel_debug_server.Base.{
  ℕ, zero, suc, ◌-◌, Bool, Option, none, some, List, [], ◌∷◌, ◌++◌, Text, length, get_elem?, ◌==◌,
  if◌then◌else◌,
}

-- `VmInfo`, and `runningVms_`.
abbrev pub VmInfo : Type 0 → Type 0
VmInfo D = ℕ × Option D

-- `std::find_if` by the VM: the index.
unfoldable pub find_vm : {D : Type 0} → ℕ → List (VmInfo D) → Option ℕ
find_vm v [] = none
find_vm v (info ∷ infos) =
    let rest = find_vm v infos in
    if info.0 == v then some 0 else elim rest [ none ↦ none | some i ↦ some (suc i) ]

unfoldable pub add_running : {D : Type 0} → ℕ → Option D → List (VmInfo D) → List (VmInfo D)
add_running v debugger infos = infos ++ (v, debugger) ∷ []

module _ {ℓ} {A : Type ℓ} where
  unfoldable pub write_at : ℕ → A → List A → List A
  write_at i a [] = []
  write_at zero a (x ∷ xs) = a ∷ xs
  write_at (suc i) a (x ∷ xs) = x ∷ write_at i a xs

  -- `std::swap` of two elements that are there.
  unfoldable pub swap : ℕ → ℕ → List A → Option (List A)
  unfolding write_at
  swap i j xs = elim (get_elem? xs i) [
    | none ↦ none
    | some a ↦ elim (get_elem? xs j) [
      | none ↦ none
      | some b ↦ some (write_at j a (write_at i b xs))
    ]
  ]

  unfoldable pub pop_back : List A → List A
  pop_back [] = []
  pop_back (x ∷ []) = []
  pop_back (x ∷ y ∷ ys) = x ∷ pop_back (y ∷ ys)

-- The end of `Run`; `none` is undefined behaviour, where the VM is not in the list.
unfoldable pub remove_running : {D : Type 0} → ℕ → List (VmInfo D) → Option (List (VmInfo D))
unfolding find_vm swap pop_back
remove_running v infos = elim (find_vm v infos) [
  | none ↦ none
  | some i ↦ elim (swap i (length infos - 1) infos) [
    | none ↦ none
    | some swapped ↦ some (pop_back swapped)
  ]
]

unfoldable pub debugger_for_vm : {D : Type 0} → ℕ → List (VmInfo D) → Option D
debugger_for_vm v [] = none
debugger_for_vm v (info ∷ infos) =
    let rest = debugger_for_vm v infos in if info.0 == v then info.1 else rest

-- `HandleOutputLine`: the formatted text, unless `vsprintf_s` writes nothing or fails, goes to the
-- debugger of the VM (`print`), if there is one. `none`: the debugger throws.
unfoldable pub handle_output_line :
    {D : Type 0} → (Bool → Text → D → Option D) → Bool → Option Text → Option D → Option (Option D)
handle_output_line print is_err none debugger = some debugger
handle_output_line print is_err (some []) debugger = some debugger
handle_output_line print is_err (some (c ∷ cs)) none = some none
handle_output_line print is_err (some (c ∷ cs)) (some d) = elim (print is_err (c ∷ cs) d) [
  | none ↦ none
  | some d' ↦ some (some d')
]
