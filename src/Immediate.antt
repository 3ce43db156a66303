-- ===== src/Immediate.antt =====
-- squirrel_debugger/SquirrelDebugger.cpp: `GetImmediateValue`, which evaluates a watch expression.
pub mod Nodes
pub mod Evaluate
pub mod Loop
pub mod Reference
pub mod Steps
pub mod Added
pub mod Cost
pub mod Turns
pub mod Order
pub mod Root
pub mod Names
pub mod Stays
pub mod Keeps
pub mod Leaves
pub mod Released
pub mod SmallVm
pub mod Tests
use squirrel_debug_server.Base.{ℕ, List}
use squirrel_debug_server.Data.{ReturnCode, VariableScope}
use squirrel_debug_server.Variables.Machine.{Machine}
use mathlib.Core.Logic.{◌⊎◌}

-- `ExpressionNodeState`, without the nodes that nothing reads again.
pub record NodeState (Object : Type 0) : Type 0 where
  pub iterator_path : List ℕ
  pub resolved_value : Object
  pub scope : VariableScope

-- `expressionResults`, by the number that stands for the node's address.
abbrev pub Results : Type 0 → Type 0
Results Object = List (ℕ × NodeState Object)

-- A part of the evaluation ends it with a return code or goes on, and has added some objects to
-- `objectsToCleanup`.
abbrev pub Step : Type 0 → Type 0 → Type 0
Step Object A = (ReturnCode ⊎ A) × List Object
