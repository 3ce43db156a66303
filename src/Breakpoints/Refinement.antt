-- ===== src/Breakpoints/Refinement.antt =====
-- `SetFileBreakpoints` and `ReadBreakpoint` refine a table from lower-case file names and lines to
-- breakpoints, in which setting a file's breakpoints replaces them all and touches no other file.
use squirrel_debug_server.Base.{
  ℕ, ◌≤◌, ◌≡◌, refl, sym, ◌∙◌, ap, inl, inr, true, false, Option, none, some, List, [], ◌∷◌, ◌==◌,
  Text, text_eq, text_eq→eq, text_eq_refl, length, length-append, arith, if◌then◌else◌, Bool-cases,
  Option-cases, ==_refl,
}
use squirrel_debug_server.Breakpoints.{
  Breakpoint, FileNameHandle, BreakpointMap, clear, add_all, read_breakpoint,
  ensure_file_name_handle, find_file_name_handle, replace_file, find_name,
}
use squirrel_debug_server.Breakpoints.Handles.{
  find-ensure, find-ensure_other, find_file_name_handle-injective, find_name-lt,
}
use squirrel_debug_server.Breakpoints.Lines.{
  breakpoint_at, last_on_line, breakpoint_at-clear, breakpoint_at-add_all, read_breakpoint_lem,
  IsKnown,
}

module _ (str_to_lower : Text → Text) where
  abbrev at_handle : BreakpointMap → FileNameHandle → ℕ → Option Breakpoint
  at_handle m none line = none
  at_handle m (some h) line = breakpoint_at m h line

  -- The abstract table: the breakpoint of a file on a line.
  unfoldable pub table : BreakpointMap → Text → ℕ → Option Breakpoint
  table m file line = at_handle m (find_file_name_handle str_to_lower file m) line

  ensure_some :
      (f : Text) (m : BreakpointMap)
      → (h : ℕ) × ((ensure_file_name_handle str_to_lower f m).0 ≡ some h)
  unfolding ensure_file_name_handle
  ensure_some f m = elim (Option-cases (find_file_name_handle str_to_lower f m)) [
    | inl missing ↦ (length m.file_names, ground arith)
    | inr (h, found) ↦ (h, ground arith)
  ]

  -- Neither `Clear` nor `AddAll` touches the names.
  find-update :
      (g : Text) (h : ℕ) (bps : List Breakpoint) (m : BreakpointMap)
      → find_file_name_handle str_to_lower g (add_all (some h) bps (clear (some h) m))
        ≡ find_file_name_handle str_to_lower g m
  unfolding find_file_name_handle add_all clear
  find-update g h bps m = ground arith

  update-at :
      (m : BreakpointMap) (bps : List Breakpoint) (h j line : ℕ)
      → breakpoint_at (add_all (some h) bps (clear (some h) m)) j line
        ≡ (if h == j then last_on_line bps line none else breakpoint_at m j line)
  update-at m bps h j line = ground (
    arith,
    breakpoint_at-add_all (clear (some h) m) bps h j line,
    breakpoint_at-clear m h h line,
    breakpoint_at-clear m h j line,
  )

  pub breakpoint_at-ensure :
      (f : Text) (m : BreakpointMap) (j line : ℕ)
      → breakpoint_at (ensure_file_name_handle str_to_lower f m).1 j line ≡ breakpoint_at m j line
  unfolding breakpoint_at ensure_file_name_handle
  breakpoint_at-ensure f m j line = ground arith

  same_file :
      (f g : Text) (m : BreakpointMap)
      → str_to_lower f ≡ str_to_lower g
      → find_file_name_handle str_to_lower f m ≡ find_file_name_handle str_to_lower g m
  unfolding find_file_name_handle
  same_file f g m e = rw e refl

  replace_file-eq :
      (f : Text) (bps : List Breakpoint) (m : BreakpointMap) (h : ℕ)
      → (ensure_file_name_handle str_to_lower f m).0 ≡ some h
      → replace_file str_to_lower f bps m
        ≡ add_all (some h) bps (clear (some h) (ensure_file_name_handle str_to_lower f m).1)
  unfolding replace_file
  replace_file-eq f bps m h e = rw e

  -- The final table at a file, by its handle once `f` has one.
  table-update :
      (m : BreakpointMap) (f g : Text) (bps : List Breakpoint) (line h : ℕ)
      → (ensure_file_name_handle str_to_lower f m).0 ≡ some h
      → table (replace_file str_to_lower f bps m) g line
        ≡ elim (find_file_name_handle str_to_lower g (ensure_file_name_handle str_to_lower f m).1) [
          | none ↦ none
          | some j ↦ if h == j then last_on_line bps line none else breakpoint_at m j line
        ]
  unfolding table
  table-update m f g bps line h e =
      let m' = (ensure_file_name_handle str_to_lower f m).1 in
      rw (replace_file-eq f bps m h e, find-update g h bps m')
        (elim (Option-cases (find_file_name_handle str_to_lower g m')) [
          | inl missing ↦ rw missing
          | inr (j, found) ↦
              rw found (rw (update-at m' bps h j line, breakpoint_at-ensure f m j line))
        ])

  -- The handle of `f`, once it has one, is no other file's.
  other_handle :
      (m : BreakpointMap) (f g : Text) (h j : ℕ)
      → (ensure_file_name_handle str_to_lower f m).0 ≡ some h
      → find_file_name_handle str_to_lower g m ≡ some j
      → text_eq (str_to_lower f) (str_to_lower g) ≡ false
      → (h == j) ≡ false
  other_handle m f g h j ensured found other = elim (Bool-cases (h == j)) [
    | inl same ↦
        let m' = (ensure_file_name_handle str_to_lower f m).1 in
        let kept = find-ensure_other str_to_lower f g m in
        let both : str_to_lower f ≡ str_to_lower g =
          find_file_name_handle-injective str_to_lower f g m' h
            (find-ensure str_to_lower f m ∙ ensured) (ground arith) in
        cc (ap (λ t. text_eq t (str_to_lower g)) both, text_eq_refl (str_to_lower g))
    | inr differ ↦ differ
  ]

  new_handle :
      (f : Text) (m : BreakpointMap)
      → find_file_name_handle str_to_lower f m ≡ none
      → (ensure_file_name_handle str_to_lower f m).0 ≡ some (length m.file_names)
  unfolding ensure_file_name_handle
  new_handle f m missing = ground arith

  ensure-longer :
      (f : Text) (m : BreakpointMap)
      → length m.file_names ≤ length (ensure_file_name_handle str_to_lower f m).1.file_names
  unfolding ensure_file_name_handle
  ensure-longer f m = ground (arith, length-append m.file_names (str_to_lower f ∷ []))

  handle_found :
      (f : Text) (m : BreakpointMap) (h : ℕ)
      → (ensure_file_name_handle str_to_lower f m).0 ≡ some h
      → find_name (str_to_lower f) (ensure_file_name_handle str_to_lower f m).1.file_names ≡ some h
  unfolding find_file_name_handle
  handle_found f m h e = find-ensure str_to_lower f m ∙ e

  file_names-update :
      (h : ℕ) (bps : List Breakpoint) (m : BreakpointMap)
      → (add_all (some h) bps (clear (some h) m)).file_names ≡ m.file_names
  unfolding add_all clear
  file_names-update h bps m = ground arith

  -- Setting the breakpoints of a file makes its lines read the new list, the last entry of a line
  -- winning, and leaves every other file's lines as they were. Files are told apart by their
  -- lower-case names.
  pub table-replace_file :
      (m : BreakpointMap) (f g : Text) (bps : List Breakpoint) (line : ℕ)
      → table (replace_file str_to_lower f bps m) g line ≡ (
          if text_eq (str_to_lower f) (str_to_lower g)
          then last_on_line bps line none
          else table m g line)
  unfolding table
  table-replace_file m f g bps line =
      let (h, ensured) = ensure_some f m in
      let m' = (ensure_file_name_handle str_to_lower f m).1 in
      let updated = table-update m f g bps line h ensured in
      elim (Bool-cases (text_eq (str_to_lower f) (str_to_lower g))) [
        | inl same ↦
            let found : find_file_name_handle str_to_lower g m' ≡ some h =
              sym (same_file f g m' (text_eq→eq _ _ same))
              ∙ find-ensure str_to_lower f m
              ∙ ensured in
            rw (updated, same, found) (rw (==_refl h))
        | inr other ↦ elim (Option-cases (find_file_name_handle str_to_lower g m)) [
          | inl missing ↦ rw (updated, find-ensure_other str_to_lower f g m, missing) (rw other)
          | inr (j, found) ↦
              rw (updated, find-ensure_other str_to_lower f g m, found)
                (rw (other, other_handle m f g h j ensured found other))
        ]
      ]

  -- If every handle for which the map holds a breakpoint stands for a recorded name, then giving a
  -- file a handle, as the debug hook does for every script it meets, changes no entry of the table.
  pub table-ensure :
      (m : BreakpointMap) (f g : Text) (line : ℕ)
      → IsKnown m
      → table (ensure_file_name_handle str_to_lower f m).1 g line ≡ table m g line
  unfolding table
  table-ensure m f g line known = elim (Option-cases (find_file_name_handle str_to_lower g m)) [
    | inr (j, found) ↦
        rw (find-ensure_other str_to_lower f g m, found) (breakpoint_at-ensure f m j line)
    | inl missing ↦ elim (Bool-cases (text_eq (str_to_lower f) (str_to_lower g))) [
      | inr other ↦ rw (find-ensure_other str_to_lower f g m, missing) (rw other)
      | inl same ↦
          rw (find-ensure_other str_to_lower f g m, missing)
            (rw (same, new_handle f m (same_file f g m (text_eq→eq _ _ same) ∙ missing))
              (breakpoint_at-ensure f m (length m.file_names) line
                ∙ known (length m.file_names) line (omega arith)))
    ]
  ]

  -- The invariant is kept by both ways in which the debugger changes the table.
  pub ensure-IsKnown :
      (m : BreakpointMap) (f : Text)
      → IsKnown m
      → IsKnown (ensure_file_name_handle str_to_lower f m).1
  ensure-IsKnown m f known j line past =
      breakpoint_at-ensure f m j line ∙ known j line (omega (arith, ensure-longer f m))

  -- If every handle for which the map holds a breakpoint stands for a recorded name, then this is so
  -- after the replacement of a file's breakpoints.
  pub replace_file-IsKnown :
      (m : BreakpointMap) (f : Text) (bps : List Breakpoint)
      → IsKnown m
      → IsKnown (replace_file str_to_lower f bps m)
  replace_file-IsKnown m f bps known j line past =
      let (h, ensured) = ensure_some f m in
      let m' = (ensure_file_name_handle str_to_lower f m).1 in
      let below = find_name-lt (str_to_lower f) m'.file_names h (handle_found f m h ensured) in
      rw (replace_file-eq f bps m h ensured, update-at m' bps h j line)
        (ground (
          arith,
          known j line,
          breakpoint_at-ensure f m j line,
          ensure-longer f m,
          ap (length {A = Text}) (file_names-update h bps m'),
          ap (λ (x : BreakpointMap). length x.file_names) (replace_file-eq f bps m h ensured),
        ))

  -- Reading a line through a file's handle finds the table's entry; where there is none, the reference
  -- parameter keeps its value.
  pub read-table :
      (m : BreakpointMap) (f : Text) (line : ℕ) (bp : Breakpoint)
      → read_breakpoint (find_file_name_handle str_to_lower f m) line bp m
        ≡ elim (table m f line) [ none ↦ (false, bp) | some found ↦ (true, found) ]
  unfolding table
  read-table m f line bp = elim (Option-cases (find_file_name_handle str_to_lower f m)) [
    | inl missing ↦ rw missing (unfold read_breakpoint in refl)
    | inr (h, found) ↦ rw found (read_breakpoint_lem m h line bp)
  ]
