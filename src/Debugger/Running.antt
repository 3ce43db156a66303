-- ===== src/Debugger/Running.antt =====
-- The VM thread while no pause is due: call trees without breakpoints run to their end.
use squirrel_debug_server.Base.{
  ℕ, suc, ℤ, pos, negsuc, inc, dec, ◌+◌, ◌<◌, ◌≡◌, refl, subst, ◌∙◌, ap, false, none, some, List,
  ◌∷◌, Text, length, arith, is_nonneg, ◌&&◌, if◌then◌else◌, Option-cases, inl, inr,
}
use squirrel_debug_server.Base.Assoc.{lookup}
use squirrel_debug_server.Breakpoints.{FileNameHandle, BreakpointMap}
use squirrel_debug_server.Breakpoints.Lines.{breakpoint_at, read_breakpoint_lem}
use squirrel_debug_server.Breakpoints.Refinement.{breakpoint_at-ensure}
use squirrel_debug_server.Debugger.{Debugger, PauseType, StackInfo, is_requested, Event}
use squirrel_debug_server.Debugger.Hook.{
  no_more_returns, no_breakpoint, set_stack, count_call, count_return, called, returned, at_line,
  SqStackInfo, native_debug_hook, script_handle, read_line, default_stack_size,
}
use squirrel_debug_server.Debugger.Traces.{
  run, run-step, run-call, Body, done, line, call, trace, height,
}

abbrev pub Misses : BreakpointMap → ℤ → Type 0
Misses m (pos n) = (h : ℕ) → breakpoint_at m h n ≡ none
Misses m (negsuc n) = Unit

-- No line of the body has a breakpoint in any file.
abbrev pub IsClear : BreakpointMap → Body → Type 0
IsClear m done = Unit
IsClear m (line n frames rest) = Misses m n × IsClear m rest
IsClear m (call address name n inner rest) = IsClear m inner × IsClear m rest

-- No pause is due at a line without a breakpoint.
abbrev pub IsQuiet : PauseType → ℤ → Type 0
IsQuiet p r = (is_requested p && no_more_returns r) ≡ false

-- `returnsRequired` after a call.
abbrev pub deeper : PauseType → ℤ → ℤ
deeper p r = if is_requested p && is_nonneg r then inc r else r

deeper-IsQuiet : (p : PauseType) (r : ℤ) → IsQuiet p r → IsQuiet p (deeper p r)
deeper-IsQuiet p r q = ground arith

abbrev pub shallower : PauseType → ℤ → ℤ
shallower p r = if is_requested p then dec r else r

shallower-deeper : (p : PauseType) (r : ℤ) → IsQuiet p r → shallower p (deeper p r) ≡ r
shallower-deeper p r q = ground arith

-- The VM thread runs in a function whose script has the handle `top`, above the frames `below`; `m`
-- gives the breakpoints.
pub record Running (v : ℕ) (m : BreakpointMap) (sent : List Event) (p : PauseType) (r : ℤ)
    (top : FileNameHandle) (below : List StackInfo) (d : Debugger) : Type 0 where
  pub attached_vm : d.vm ≡ some v
  pub request : d.pause_requested ≡ p
  pub count : d.returns_required ≡ r
  pub awake : d.waiting ≡ false
  pub silent : d.events ≡ sent
  pub top_line : ℤ
  pub stack : d.current_stack ≡ record { file_name_handle = top; line = top_line } ∷ below
  pub same_table : (h n : ℕ) → breakpoint_at d.breakpoints h n ≡ breakpoint_at m h n

read_line-Misses :
    (handle : FileNameHandle) (n : ℤ) (m m' : BreakpointMap)
    → ((h k : ℕ) → breakpoint_at m' h k ≡ breakpoint_at m h k)
    → Misses m n
    → read_line handle n m' ≡ (false, no_breakpoint)
unfolding read_line
read_line-Misses handle (negsuc n) m m' same miss = refl
read_line-Misses none (pos n) m m' same miss = refl
read_line-Misses (some h) (pos n) m m' same miss =
    ground (arith, read_breakpoint_lem m' h n no_breakpoint, same h n, miss h)

module _ (lower : Text → Text) (v : ℕ) (m : BreakpointMap) (sent : List Event) where
  -- A line without a breakpoint only moves the line of the top frame.
  line_step :
      (p : PauseType) (r : ℤ) (top : FileNameHandle) (below : List StackInfo) (n : ℤ)
      (frames : List SqStackInfo) (d : Debugger)
      → Running v m sent p r top below d
      → IsQuiet p r
      → Misses m n
      → (d' : Debugger) × (native_debug_hook lower (at_line n frames) d ≡ some d')
        × Running v m sent p r top below d'
  unfolding native_debug_hook
  line_step p r top below n frames d k q miss =
      let miss' = read_line-Misses top n m d.breakpoints k.same_table miss in
      let d' = set_stack (record { file_name_handle = top; line = n } ∷ below) d in
      (
        d',
        ground (arith, miss'),
        record {
          attached_vm = k.attached_vm;
          request = k.request;
          count = k.count;
          awake = k.awake;
          silent = k.silent;
          top_line = n;
          stack = refl;
          same_table = k.same_table;
        },
      )

  script_handle-table :
      (address : ℕ) (name : Text) (d : Debugger) (h n : ℕ)
      → breakpoint_at (script_handle lower address name d).1.breakpoints h n
        ≡ breakpoint_at d.breakpoints h n
  unfolding script_handle
  script_handle-table address name d h n =
      elim (Option-cases (lookup address d.file_name_handles)) [
        | inr (handle, known) ↦ rw (known, script_handle) refl
        | inl new ↦ rw (new, script_handle) (breakpoint_at-ensure lower name d.breakpoints h n)
      ]

  script_handle-Running :
      (p : PauseType) (r : ℤ) (top : FileNameHandle) (below : List StackInfo) (address : ℕ)
      (name : Text) (d : Debugger)
      → Running v m sent p r top below d
      → Running v m sent p r top below (script_handle lower address name d).1
  script_handle-Running p r top below address name d k = record {
    attached_vm = unfold script_handle in ground (arith, k.attached_vm);
    request = unfold script_handle in ground (arith, k.request);
    count = unfold script_handle in ground (arith, k.count);
    awake = unfold script_handle in ground (arith, k.awake);
    silent = unfold script_handle in ground (arith, k.silent);
    top_line = k.top_line;
    stack = unfold script_handle in ground (arith, k.stack);
    same_table = λ h n. script_handle-table address name d h n ∙ k.same_table h n;
  }

  push-Running :
      (p : PauseType) (r : ℤ) (top handle : FileNameHandle) (below : List StackInfo) (n : ℤ)
      (d : Debugger) (k : Running v m sent p r top below d)
      → Running v m sent p
          (deeper p r)
          handle
          (record { file_name_handle = top; line = k.top_line } ∷ below)
          (count_call
            (set_stack (record { file_name_handle = handle; line = n } ∷ d.current_stack) d))
  push-Running p r top handle below n d k = record {
    attached_vm = ground (arith, k.attached_vm);
    request = ground (arith, k.request);
    count = ground (arith, k.count, k.request);
    awake = ground (arith, k.awake);
    silent = ground (arith, k.silent);
    top_line = n;
    stack = ground (arith, k.stack);
    same_table = λ h n'. ap (λ b. breakpoint_at b h n') (ground arith) ∙ k.same_table h n';
  }

  -- A call pushes a frame, and counts one more return if a step has returns to wait for.
  pub call_step :
      (p : PauseType) (r : ℤ) (top : FileNameHandle) (below : List StackInfo) (address : ℕ)
      (name : Text) (n : ℤ) (d : Debugger)
      → Running v m sent p r top below d
      → suc (length below) < default_stack_size
      → (handle : FileNameHandle) × (top_line : ℤ) × (d' : Debugger) × (native_debug_hook lower
            (called address name n)
            d
          ≡ some d')
        × Running v m sent p
            (deeper p r)
            handle
            (record { file_name_handle = top; line = top_line } ∷ below)
            d'
  unfolding native_debug_hook
  call_step p r top below address name n d k room =
      let (handle, d₁) = script_handle lower address name d in
      let k₁ = script_handle-Running p r top below address name d k in
      (
        handle,
        k₁.top_line,
        _,
        ground (arith, k₁.stack, k.attached_vm),
        push-Running p r top handle below n d₁ k₁,
      )

  -- A return pops the frame, and counts it.
  pub return_step :
      (p : PauseType) (r : ℤ) (top handle : FileNameHandle) (below : List StackInfo) (top_line : ℤ)
      (d : Debugger)
      → Running v m sent p r handle (record { file_name_handle = top; line = top_line } ∷ below) d
      → (d' : Debugger) × (native_debug_hook lower returned d ≡ some d')
        × Running v m sent p (shallower p r) top below d'
  unfolding native_debug_hook
  return_step p r top handle below top_line d k =
      let frames = record { file_name_handle = top; line = top_line } ∷ below in
      (
        count_return (set_stack frames d),
        ground (arith, k.stack, k.attached_vm),
        record {
          attached_vm = ground (arith, k.attached_vm);
          request = ground (arith, k.request);
          count = ground (arith, k.count, k.request);
          awake = ground (arith, k.awake);
          silent = ground (arith, k.silent);
          top_line = top_line;
          stack = ground arith;
          same_table = λ h n'. ap (λ b. breakpoint_at b h n') (ground arith) ∙ k.same_table h n';
        },
      )

  -- A body without breakpoints runs to its end without a pause or a message, and leaves the request,
  -- the count and the stack below its frame as they were.
  pub body_run :
      (b : Body) (p : PauseType) (r : ℤ) (top : FileNameHandle) (below : List StackInfo)
      (d : Debugger)
      → Running v m sent p r top below d
      → IsQuiet p r
      → IsClear m b
      → length below + height b < default_stack_size
      → (d' : Debugger) × (run lower (trace b) d ≡ some d') × Running v m sent p r top below d'
  unfolding trace height
  body_run done p r top below d k q clear room = (d, unfold run in refl, k)
  body_run (line n frames rest) p r top below d k q (miss, clear) room =
      let (d₁, stepped, k₁) = line_step p r top below n frames d k q miss in
      let (d₂, ran, k₂) = body_run rest p r top below d₁ k₁ q clear room in
      (d₂, run-step lower _ (trace rest) d d₁ k.awake stepped ∙ ran, k₂)
  body_run (call address name n inner rest) p r top below d k q (clear, clear') room =
      let (handle, top_line, d₁, stepped, k₁) =
        call_step p r top below address name n d k (omega arith) in
      let (d₂, ran, k₂) =
        body_run inner p (deeper p r) handle
          (record { file_name_handle = top; line = top_line } ∷ below) d₁ k₁ (deeper-IsQuiet p r q)
          clear (omega arith) in
      let (d₃, popped, k₃) = return_step p (deeper p r) top handle below top_line d₂ k₂ in
      let k₃' = subst (λ x. Running v m sent p x top below d₃) (shallower-deeper p r q) k₃ in
      let (d₄, ended, k₄) = body_run rest p r top below d₃ k₃' q clear' (omega arith) in
      (
        d₄,
        run-call lower _ (trace inner) (trace rest) d d₁ d₂ d₃ k.awake stepped ran k₂.awake popped
            ∙ ended,
        k₄,
      )
