-- ===== src/Debugger/Stepping.antt =====
-- What the step commands do: `StepOver` runs through the calls of the current line and pauses at the
-- next line of the function, `StepOut` also runs to the end of the function, and pauses in its caller.
use squirrel_debug_server.Base.{
  ℕ, suc, ℤ, pos, ◌+◌, ◌<◌, ◌≡◌, refl, subst, ◌∙◌, ap, true, false, some, List, [], ◌∷◌, ◌++◌, Text,
  length, arith, max,
}
use squirrel_debug_server.Data.{success}
use squirrel_debug_server.Breakpoints.{FileNameHandle, BreakpointMap}
use squirrel_debug_server.Breakpoints.Lines.{breakpoint_at}
use squirrel_debug_server.Debugger.{
  Debugger, PauseType, step_over, step_out, StackInfo, is_requested, Event,
}
use squirrel_debug_server.Debugger.Commands.{step_over_command, step_out_command}
use squirrel_debug_server.Debugger.Hook.{
  HookEvent, called, returned, at_line, SqStackInfo, native_debug_hook, resume, default_stack_size,
}
use squirrel_debug_server.Debugger.Traces.{
  and_then, run, run-append, run-step, run-call, Body, trace, height,
}
use squirrel_debug_server.Debugger.Lines.{hook-AtLine, is_due, hit}
use squirrel_debug_server.Debugger.Running.{
  Running, IsClear, deeper, shallower, body_run, call_step, return_step,
}

-- A call made by the current line, with what runs inside it.
pub record CallTree : Type 0 where
  pub address : ℕ
  pub name : Text
  pub line : ℤ
  pub body : Body

unfoldable pub trace_calls : List CallTree → List HookEvent
trace_calls [] = []
trace_calls (c ∷ cs) = called c.address c.name c.line ∷ (trace c.body ++ returned ∷ trace_calls cs)

unfoldable pub height_calls : List CallTree → ℕ
height_calls [] = 0
height_calls (c ∷ cs) = max (suc (height c.body)) (height_calls cs)

abbrev pub AreClear : BreakpointMap → List CallTree → Type 0
AreClear m [] = Unit
AreClear m (c ∷ cs) = IsClear m c.body × AreClear m cs

module _ (lower : Text → Text) (v : ℕ) (m : BreakpointMap) (sent : List Event) where
  -- Calls run through while a step awaits `k` returns of its own function.
  calls_run :
      (cs : List CallTree) (p : PauseType) (k : ℕ) (top : FileNameHandle) (below : List StackInfo)
      (d : Debugger)
      → is_requested p ≡ true
      → Running v m sent p (pos k) top below d
      → AreClear m cs
      → length below + height_calls cs < default_stack_size
      → (d' : Debugger) × (run lower (trace_calls cs) d ≡ some d')
        × Running v m sent p (pos k) top below d'
  unfolding trace_calls height_calls
  calls_run [] p k top below d asked w clear room = (d, unfold run in refl, w)
  calls_run (c ∷ cs) p k top below d asked w (clear, clear') room =
      let grown : deeper p (pos k) ≡ pos (suc k) = ground arith in
      let shrunk : shallower p (deeper p (pos k)) ≡ pos k = ground arith in
      let (handle, top_line, d₁, stepped, w₁) =
        call_step lower v m sent p (pos k) top below c.address c.name c.line d w (omega arith) in
      let (d₂, ran, w₂) =
        body_run lower v m sent c.body p (deeper p (pos k)) handle
          (record { file_name_handle = top; line = top_line } ∷ below) d₁ w₁ (ground arith) clear
          (omega arith) in
      let (d₃, popped, w₃) =
        return_step lower v m sent p (deeper p (pos k)) top handle below top_line d₂ w₂ in
      let w₃' = subst (λ x. Running v m sent p x top below d₃) shrunk w₃ in
      let (d₄, ended, w₄) = calls_run cs p k top below d₃ asked w₃' clear' (omega arith) in
      (
        d₄,
        run-call lower _ (trace c.body) (trace_calls cs) d d₁ d₂ d₃ w.awake stepped ran w₂.awake
              popped
            ∙ ended,
        w₄,
      )

-- The next line of the running function pauses, once no return is awaited.
due_line :
    (lower : Text → Text) (v : ℕ) (m : BreakpointMap) (sent : List Event) (p : PauseType)
    (top : FileNameHandle) (below : List StackInfo) (n : ℤ) (frames : List SqStackInfo)
    (d : Debugger)
    → is_requested p ≡ true
    → Running v m sent p (pos 0) top below d
    → (d' : Debugger) × (native_debug_hook lower (at_line n frames) d ≡ some d')
      × (d'.waiting ≡ true)
      × (d'.is_paused ≡ true)
due_line lower v m sent p top below n frames d asked w =
    let s : StackInfo = record { file_name_handle = top; line = w.top_line } in
    let (d', hooked, a) = hook-AtLine lower n frames v s below d w.attached_vm w.awake w.stack in
    let due : is_due (hit top n d.breakpoints) d ≡ true = ground (arith, w.request, w.count) in
    (d', hooked, a.waits ∙ due, a.pauses due)

-- The debugger is paused in a function with the frames `below` under it, with a VM attached.
pub record PausedIn (v : ℕ) (s : StackInfo) (below : List StackInfo) (d : Debugger) : Type 0 where
  pub attached_vm : d.vm ≡ some v
  pub paused_now : d.is_paused ≡ true
  pub stack : d.current_stack ≡ s ∷ below

-- The VM thread has run on to `d'` without a pause and without sending anything, and there the line
-- pauses it.
abbrev pub PausesAfter :
    (Text → Text) → List HookEvent → ℤ → List SqStackInfo → Debugger → ℕ → Type 0
PausesAfter lower es n frames d depth =
    (d' : Debugger) × (d'' : Debugger) × (run lower es d ≡ some d')
    × (d'.waiting ≡ false)
    × (d'.events ≡ d.events)
    × (length d'.current_stack ≡ depth)
    × (native_debug_hook lower (at_line n frames) d' ≡ some d'')
    × (d''.waiting ≡ true)
    × (d''.is_paused ≡ true)

-- `StepOver` succeeds while paused, and once the VM thread has woken up it runs through any calls of
-- the current line, whose lines have no breakpoints and which fit on the stack, and pauses at the
-- next line of the same function.
pub step_over-pauses :
    (lower : Text → Text) (v : ℕ) (s : StackInfo) (below : List StackInfo) (cs : List CallTree)
    (n : ℤ) (frames : List SqStackInfo) (d : Debugger)
    → PausedIn v s below d
    → AreClear d.breakpoints cs
    → length below + height_calls cs < default_stack_size
    → ((step_over_command d).0 ≡ success)
      × PausesAfter lower
          (trace_calls cs)
          n
          frames
          (resume (step_over_command d).1)
          (suc (length below))
step_over-pauses lower v s below cs n frames d p clear room =
    let d₀ = resume (step_over_command d).1 in
    let w₀ : Running v d.breakpoints d₀.events step_over (pos 0) s.file_name_handle below d₀ =
      record {
        attached_vm =
            unfold step_over_command resume in ground (arith, p.attached_vm, p.paused_now);
        request = unfold step_over_command resume in ground (arith, p.paused_now);
        count = unfold step_over_command resume in ground (arith, p.paused_now);
        awake = unfold resume in refl;
        silent = refl;
        top_line = s.line;
        stack = unfold step_over_command resume in ground (arith, p.stack, p.paused_now);
        same_table = λ h k.
            ap (λ b. breakpoint_at b h k)
              (unfold step_over_command resume in ground (arith, p.paused_now));
      } in
    let (d₁, ran, w₁) =
      calls_run lower v d.breakpoints d₀.events cs step_over 0 s.file_name_handle below d₀ refl w₀
        clear room in
    let (d₂, hooked, waits, pauses) =
      due_line lower v d.breakpoints d₀.events step_over s.file_name_handle below n frames d₁ refl
        w₁ in
    (
      unfold step_over_command in ground (arith, p.paused_now),
      (d₁, d₂, ran, w₁.awake, w₁.silent, ap length w₁.stack, hooked, waits, pauses),
    )

-- `StepOut` succeeds while paused in a function that another called. Once the VM thread has woken up
-- it runs through the rest of the function, its return, and any further calls of the caller's line,
-- where none of their lines has a breakpoint and the calls fit on the stack, and pauses at the next
-- line of the caller.
pub step_out-pauses :
    (lower : Text → Text) (v : ℕ) (s caller : StackInfo) (below : List StackInfo) (rest : Body)
    (cs : List CallTree) (n : ℤ) (frames : List SqStackInfo) (d : Debugger)
    → PausedIn v s (caller ∷ below) d
    → IsClear d.breakpoints rest
    → AreClear d.breakpoints cs
    → suc (length below) + height rest < default_stack_size
    → length below + height_calls cs < default_stack_size
    → ((step_out_command d).0 ≡ success)
      × PausesAfter lower
          (trace rest ++ returned ∷ trace_calls cs)
          n
          frames
          (resume (step_out_command d).1)
          (suc (length below))
step_out-pauses lower v s caller below rest cs n frames d p clear clear' room room' =
    let d₀ = resume (step_out_command d).1 in
    let m = d.breakpoints in
    let top = caller.file_name_handle in
    let w₀ : Running v m d₀.events step_out (pos 1) s.file_name_handle (caller ∷ below) d₀ =
      record {
        attached_vm = unfold step_out_command resume in ground (arith, p.attached_vm, p.paused_now);
        request = unfold step_out_command resume in ground (arith, p.paused_now);
        count = unfold step_out_command resume in ground (arith, p.paused_now);
        awake = unfold resume in refl;
        silent = refl;
        top_line = s.line;
        stack = unfold step_out_command resume in ground (arith, p.stack, p.paused_now);
        same_table = λ h k.
            ap (λ b. breakpoint_at b h k)
              (unfold step_out_command resume in ground (arith, p.paused_now));
      } in
    let (d₁, ran, w₁) =
      body_run lower v m d₀.events rest step_out (pos 1) s.file_name_handle (caller ∷ below) d₀ w₀
        refl clear (omega arith) in
    let (d₂, popped, w₂) =
      return_step lower v m d₀.events step_out (pos 1) top s.file_name_handle below caller.line d₁
        w₁ in
    let (d₃, ran', w₃) =
      calls_run lower v m d₀.events cs step_out 0 top below d₂ refl w₂ clear' room' in
    let (d₄, hooked, waits, pauses) =
      due_line lower v m d₀.events step_out top below n frames d₃ refl w₃ in
    (
      unfold step_out_command in ground (arith, p.paused_now),
      (
        d₃,
        d₄,
        run-append lower (trace rest) (returned ∷ trace_calls cs) d₀
            ∙ ap (λ o. and_then o (run lower (returned ∷ trace_calls cs))) ran
            ∙ run-step lower returned (trace_calls cs) d₁ d₂ w₁.awake popped
            ∙ ran',
        w₃.awake,
        w₃.silent,
        ap length w₃.stack,
        hooked,
        waits,
        pauses,
      ),
    )
