-- ===== src/Debugger/Traces.antt =====
-- Runs of the VM thread: sequences of hook calls, and the call trees that they come from.
use squirrel_debug_server.Base.{
  ℕ, suc, ℤ, ◌≡◌, refl, false, Option, none, some, List, [], ◌∷◌, ◌++◌, Text, arith, max,
  if◌then◌else◌, Option-cases, inl, inr,
}
use squirrel_debug_server.Debugger.{Debugger}
use squirrel_debug_server.Debugger.Hook.{
  HookEvent, called, returned, at_line, SqStackInfo, native_debug_hook,
}

-- The next hook call of the VM thread, which makes none while it waits.
unfoldable pub advance : (Text → Text) → HookEvent → Debugger → Option Debugger
advance lower e d = if d.waiting then none else native_debug_hook lower e d

abbrev pub and_then : Option Debugger → (Debugger → Option Debugger) → Option Debugger
and_then none f = none
and_then (some d) f = f d

-- The hook calls of a VM thread that runs on.
unfoldable pub run : (Text → Text) → List HookEvent → Debugger → Option Debugger
run lower [] d = some d
run lower (e ∷ es) d = and_then (advance lower e d) (run lower es)

run-cons :
    (lower : Text → Text) (e : HookEvent) (es : List HookEvent) (d : Debugger)
    → run lower (e ∷ es) d ≡ and_then (advance lower e d) (run lower es)
unfolding run
run-cons lower e es d = refl

pub run-append :
    (lower : Text → Text) (es fs : List HookEvent) (d : Debugger)
    → run lower (es ++ fs) d ≡ and_then (run lower es d) (run lower fs)
run-append lower [] fs d = unfold run in refl
run-append lower (e ∷ es) fs d = elim (Option-cases (advance lower e d)) [
  | inl fault ↦ rw (run-cons lower e (es ++ fs) d, run-cons lower e es d, fault)
  | inr (d', next) ↦
      rw (run-cons lower e (es ++ fs) d, run-cons lower e es d, next) (run-append lower es fs d')
]

pub run-step :
    (lower : Text → Text) (e : HookEvent) (es : List HookEvent) (d d' : Debugger)
    → d.waiting ≡ false
    → native_debug_hook lower e d ≡ some d'
    → run lower (e ∷ es) d ≡ run lower es d'
unfolding advance
run-step lower e es d d' awake h = rw (run-cons lower e es d) (ground (arith, awake, h))

-- A call, what runs inside it, and its return.
pub run-call :
    (lower : Text → Text) (e : HookEvent) (inner rest : List HookEvent) (d d₁ d₂ d₃ : Debugger)
    → d.waiting ≡ false
    → native_debug_hook lower e d ≡ some d₁
    → run lower inner d₁ ≡ some d₂
    → d₂.waiting ≡ false
    → native_debug_hook lower returned d₂ ≡ some d₃
    → run lower (e ∷ (inner ++ returned ∷ rest)) d ≡ run lower rest d₃
run-call lower e inner rest d d₁ d₂ d₃ awake stepped ran awake₂ popped =
    rw
      (
        run-step lower e (inner ++ returned ∷ rest) d d₁ awake stepped,
        run-append lower inner (returned ∷ rest) d₁,
        ran,
      )
      (run-step lower returned rest d₂ d₃ awake₂ popped)

-- What a function executes: lines, and calls with what they execute.
pub data Body : Type 0 where
  done : Body
  line : ℤ → List SqStackInfo → Body → Body
  call : ℕ → Text → ℤ → Body → Body → Body

unfoldable pub trace : Body → List HookEvent
trace done = []
trace (line n frames rest) = at_line n frames ∷ trace rest
trace (call address name n inner rest) =
    called address name n ∷ (trace inner ++ returned ∷ trace rest)

-- How many levels the stack grows.
unfoldable pub height : Body → ℕ
height done = 0
height (line n frames rest) = height rest
height (call address name n inner rest) = max (suc (height inner)) (height rest)
