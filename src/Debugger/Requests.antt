-- ===== src/Debugger/Requests.antt =====
-- Pause requests and `StepIn` (which stop at the very next line), the reported run state, and the
-- validation of breakpoint requests.
use squirrel_debug_server.Base.{
  ℕ, suc, ℤ, negsuc, ◌≡◌, refl, subst, ◌∙◌, inl, inr, true, false, some, List, [], ◌∷◌, Text, arith,
  Option-cases,
}
use squirrel_debug_server.Data.{success, pausing, stepping}
use squirrel_debug_server.Debugger.{Debugger, StackInfo, is_requested, Event}
use squirrel_debug_server.Debugger.Commands.{
  pause_execution, step_in_command, step_over_command, step_out_command, reported_status,
}
use squirrel_debug_server.Debugger.Hook.{
  HookEvent, called, returned, at_line, SqStackInfo, native_debug_hook, resume, script_handle,
}
use squirrel_debug_server.Debugger.Traces.{advance, run}
use squirrel_debug_server.Debugger.Lines.{hook-AtLine, is_due, hit}

-- The VM thread runs with a request that awaits no returns, and that calls do not postpone.
record Armed (v : ℕ) (sent : List Event) (d : Debugger) : Type 0 where
  attached_vm : d.vm ≡ some v
  requested : is_requested d.pause_requested ≡ true
  below : ℕ
  negative : d.returns_required ≡ negsuc below
  awake : d.waiting ≡ false
  silent : d.events ≡ sent

abbrev pub NoLines : List HookEvent → Type 0
NoLines [] = Unit
NoLines (called address name n ∷ es) = NoLines es
NoLines (returned ∷ es) = NoLines es
NoLines (at_line n frames ∷ es) = ⊥

script_handle-Armed :
    (lower : Text → Text) (v : ℕ) (sent : List Event) (address : ℕ) (name : Text) (d : Debugger)
    → Armed v sent d
    → Armed v sent (script_handle lower address name d).1
unfolding script_handle
script_handle-Armed lower v sent address name d a = record {
  attached_vm = ground (arith, a.attached_vm);
  requested = ground (arith, a.requested);
  below = a.below;
  negative = ground (arith, a.negative);
  awake = ground (arith, a.awake);
  silent = ground (arith, a.silent);
}

call-Armed :
    (lower : Text → Text) (v : ℕ) (sent : List Event) (address : ℕ) (name : Text) (n : ℤ)
    (d d' : Debugger)
    → advance lower (called address name n) d ≡ some d'
    → Armed v sent d
    → Armed v sent d'
unfolding advance native_debug_hook
call-Armed lower v sent address name n d d' e a =
    let a₁ = script_handle-Armed lower v sent address name d a in
    record {
      attached_vm = ground (arith, a.attached_vm, a₁.attached_vm);
      requested = ground (arith, a.attached_vm, a₁.requested, a₁.negative);
      below = a₁.below;
      negative = ground (arith, a.attached_vm, a₁.requested, a₁.negative);
      awake = ground (arith, a.attached_vm, a₁.awake);
      silent = ground (arith, a.attached_vm, a₁.silent);
    }

return-Armed :
    (lower : Text → Text) (v : ℕ) (sent : List Event) (d d' : Debugger)
    → advance lower returned d ≡ some d'
    → Armed v sent d
    → Armed v sent d'
unfolding advance native_debug_hook
return-Armed lower v sent d d' e a = record {
  attached_vm = ground (arith, a.attached_vm);
  requested = ground (arith, a.attached_vm, a.requested);
  below = suc a.below;
  negative = ground (arith, a.attached_vm, a.requested, a.negative);
  awake = ground (arith, a.attached_vm, a.awake);
  silent = ground (arith, a.attached_vm, a.silent);
}

run-Armed :
    (lower : Text → Text) (v : ℕ) (sent : List Event) (es : List HookEvent) (d d' : Debugger)
    → NoLines es
    → run lower es d ≡ some d'
    → Armed v sent d
    → Armed v sent d'
unfolding run
run-Armed lower v sent [] d d' quiet e a = subst (Armed v sent) (cc) a
run-Armed lower v sent (at_line n frames ∷ es) d d' quiet e a = absurd quiet
run-Armed lower v sent (returned ∷ es) d d' quiet e a =
    elim (Option-cases (advance lower returned d)) [
      | inl fault ↦ ground (arith, fault)
      | inr (d₁, next) ↦
          run-Armed lower v sent es d₁ d' quiet (ground (arith, next))
            (return-Armed lower v sent d d₁ next a)
    ]
run-Armed lower v sent (called address name n ∷ es) d d' quiet e a =
    elim (Option-cases (advance lower (called address name n) d)) [
      | inl fault ↦ ground (arith, fault)
      | inr (d₁, next) ↦
          run-Armed lower v sent es d₁ d' quiet (ground (arith, next))
            (call-Armed lower v sent address name n d d₁ next a)
    ]

Armed-line :
    (lower : Text → Text) (v : ℕ) (sent : List Event) (s : StackInfo)
    (frames_below : List StackInfo) (n : ℤ) (frames : List SqStackInfo) (d : Debugger)
    → Armed v sent d
    → d.current_stack ≡ s ∷ frames_below
    → (d' : Debugger) × (native_debug_hook lower (at_line n frames) d ≡ some d')
      × (d'.waiting ≡ true)
      × (d'.is_paused ≡ true)
Armed-line lower v sent s frames_below n frames d a stack =
    let (d', hooked, at) =
      hook-AtLine lower n frames v s frames_below d a.attached_vm a.awake stack in
    let due : is_due (hit s.file_name_handle n d.breakpoints) d ≡ true =
      ground (arith, a.requested, a.negative) in
    (d', hooked, at.waits ∙ due, at.pauses due)

-- After the hook calls `es` the VM thread has not paused or sent anything, and the next line pauses it.
abbrev pub PausesAtNextLine : (Text → Text) → Debugger → Debugger → ℤ → List SqStackInfo → Type 0
PausesAtNextLine lower d d' n frames =
    (d'.waiting ≡ false)
    × (d'.events ≡ d.events)
    × ((d'' : Debugger) × (native_debug_hook lower (at_line n frames) d' ≡ some d'')
        × (d''.waiting ≡ true)
        × (d''.is_paused ≡ true))

-- `PauseExecution` succeeds; made while the VM thread runs and nothing is requested, it stops the
-- thread at the next line, of whichever function that is, after any calls and returns that the hook
-- can count and that leave a function running.
pub pause_execution-pauses :
    (lower : Text → Text) (v : ℕ) (es : List HookEvent) (s : StackInfo) (below : List StackInfo)
    (n : ℤ) (frames : List SqStackInfo) (d d' : Debugger)
    → d.vm ≡ some v
    → d.waiting ≡ false
    → is_requested d.pause_requested ≡ false
    → NoLines es
    → run lower es (pause_execution d).1 ≡ some d'
    → d'.current_stack ≡ s ∷ below
    → ((pause_execution d).0 ≡ success) × PausesAtNextLine lower d d' n frames
pause_execution-pauses lower v es s below n frames d d' attached awake free quiet ran stack =
    let armed : Armed v d.events (pause_execution d).1 = record {
      attached_vm = unfold pause_execution in ground (arith, attached, free);
      requested = unfold pause_execution in ground (arith, free);
      below = 0;
      negative = unfold pause_execution in ground (arith, free);
      awake = unfold pause_execution in ground (arith, awake, free);
      silent = unfold pause_execution in ground (arith, free);
    } in
    let a = run-Armed lower v d.events es (pause_execution d).1 d' quiet ran armed in
    (
      unfold pause_execution in ground (arith, free),
      (a.awake, a.silent, Armed-line lower v d.events s below n frames d' a stack),
    )

-- `StepIn` succeeds while paused, and the VM thread then stops at the next line, in whichever function
-- that is, after any calls and returns that the hook can count and that leave a function running.
pub step_in-pauses :
    (lower : Text → Text) (v : ℕ) (es : List HookEvent) (s : StackInfo) (below : List StackInfo)
    (n : ℤ) (frames : List SqStackInfo) (d d' : Debugger)
    → d.vm ≡ some v
    → d.is_paused ≡ true
    → NoLines es
    → run lower es (resume (step_in_command d).1) ≡ some d'
    → d'.current_stack ≡ s ∷ below
    → ((step_in_command d).0 ≡ success) × PausesAtNextLine lower d d' n frames
step_in-pauses lower v es s below n frames d d' attached is_paused quiet ran stack =
    let d₀ = resume (step_in_command d).1 in
    let armed : Armed v d.events d₀ = record {
      attached_vm = unfold step_in_command resume in ground (arith, attached, is_paused);
      requested = unfold step_in_command resume in ground (arith, is_paused);
      below = 0;
      negative = unfold step_in_command resume in ground (arith, is_paused);
      awake = unfold resume in refl;
      silent = unfold step_in_command resume in ground (arith, is_paused);
    } in
    let a = run-Armed lower v d.events es d₀ d' quiet ran armed in
    (
      unfold step_in_command in ground (arith, is_paused),
      (a.awake, a.silent, Armed-line lower v d.events s below n frames d' a stack),
    )

-- After a step command that is made while paused, and once the VM thread has woken up, `SendStatus` reports a step over or out as stepping, but
-- a step in as pausing: the code cannot tell it from a pause request.
pub step-run_state :
    (d : Debugger)
    → d.is_paused ≡ true
    → ((reported_status (resume (step_over_command d).1)).run_state ≡ stepping)
      × ((reported_status (resume (step_out_command d).1)).run_state ≡ stepping)
      × ((reported_status (resume (step_in_command d).1)).run_state ≡ pausing)
unfolding reported_status step_over_command step_out_command step_in_command resume
step-run_state d is_paused = (ground arith, ground arith, ground arith)
