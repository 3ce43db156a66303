-- ===== src/Watch.antt =====
-- squirrel_debugger/SquirrelVmHelpers.h and .cpp: the watch expressions that `GetImmediateValue`
-- evaluates, and their reader.
pub mod Chars
pub mod Strings
pub mod Parser
pub mod Fuel
pub mod Print
pub mod StringTrip
pub mod Steps
pub mod RoundTrip
pub mod Escapes
pub mod Tests
use squirrel_debug_server.Base.{ℕ, Text, List, [], ◌∷◌}

pub data ExpressionNodeType : Type 0 where
  undefined string number identifier : ExpressionNodeType

-- A node with the pointers `accessorExpression` and `next`, either of which may be null.
mutual
  pub data ExpressionNode : Type 0 where
    node : Text → Accessor → ExpressionNodeType → Next → ExpressionNode

  pub data Accessor : Type 0 where
    no_accessor : Accessor
    accessor : ExpressionNode → Accessor

  pub data Next : Type 0 where
    no_next : Next
    next : ExpressionNode → Next

abbrev pub node_type : ExpressionNode → ExpressionNodeType
node_type (node value a t n) = t

-- The messages of `WatchParseError`.
pub data Message : Type 0 where
  eof_in_string hex_expected unknown_escape newline_in_string : Message
  field_of_non_identifier eof_after_dot bad_char_after_dot : Message
  bracket_must_follow no_accessor_expression empty_bracket : Message
  string_follows word_follows invalid_character trailing_content : Message

-- What a reader does with a text: it reads a value and leaves the rest, or it throws, with the text
-- from the error's position on. `crash` is undefined behaviour, and `out_of_fuel` stands for no
-- outcome of the program.
pub data Outcome (A : Type 0) : Type 0 where
  parsed : A → Text → Outcome A
  failed : Message → Text → Outcome A
  crash out_of_fuel : Outcome A

abbrev pub and_parse : {A B : Type 0} → Outcome A → (A → Text → Outcome B) → Outcome B
and_parse (parsed a rest) f = f a rest
and_parse (failed e at) f = failed e at
and_parse crash f = crash
and_parse out_of_fuel f = out_of_fuel
