-- ===== src/Watch/Print.antt =====
-- The watch expressions that a user can write, their text, and the nodes that stand for them: an
-- independent description of what `ParseExpression` reads.
use squirrel_debug_server.Base.{ℕ, ◌≡◌, Bool, true, ◌||◌, [], ◌∷◌, ◌++◌, Text, ◌==◌, if◌then◌else◌}
use squirrel_debug_server.Watch.{
  ExpressionNode, ExpressionNodeType, Accessor, node, no_accessor, accessor, no_next, next, number,
  identifier, string,
}
use squirrel_debug_server.Watch.Chars.{is_digit, is_alpha}
use squirrel_debug_server.Watch.Strings.{is_word}
use squirrel_debug_server.Watch.Parser.{Current}

-- A name, a string or a numeral; fields and indices follow a name, and an index may follow a string.
mutual
  pub data Watch : Type 0 where
    named : Text → Suffixes → Watch
    quoted : Text → Watch
    quoted_index : Text → Watch → Suffixes → Watch
    numeral : Text → Watch

  pub data Suffixes : Type 0 where
    stop : Suffixes
    field : Text → Suffixes → Suffixes
    index : Watch → Suffixes → Suffixes

abbrev pub All : (ℕ → Bool) → Text → Type 0
All accept [] = Unit
All accept (c ∷ t) = (accept c ≡ true) × All accept t

-- A letter or underscore, then letters, digits and underscores.
abbrev pub IsName : Text → Type 0
IsName [] = ⊥
IsName (c ∷ t) = ((is_alpha c || c == b'_') ≡ true) × All is_word t

abbrev pub IsNumeral : Text → Type 0
IsNumeral [] = ⊥
IsNumeral (c ∷ t) = (is_digit c ≡ true) × All is_digit t

-- Names are names and numerals are numerals; strings are free.
abbrev mutual
  pub IsWritten : Watch → Type 0
  IsWritten (named n s) = IsName n × AreWritten s
  IsWritten (quoted t) = Unit
  IsWritten (quoted_index t e s) = IsWritten e × AreWritten s
  IsWritten (numeral t) = IsNumeral t

  pub AreWritten : Suffixes → Type 0
  AreWritten stop = Unit
  AreWritten (field n s) = IsName n × AreWritten s
  AreWritten (index e s) = IsWritten e × AreWritten s

-- A character inside double quotes.
unfoldable pub escape : Text → Text
escape [] = []
escape (c ∷ t) =
    if c == b'\\' || c == b'"'
    then b'\\' ∷ c ∷ escape t
    else (if c == b'\n' then b'\\' ∷ b'n' ∷ escape t else c ∷ escape t)

unfoldable mutual
  pub print : Watch → Text
  print (named n s) = n ++ print_suffixes s
  print (quoted t) = b'"' ∷ (escape t ++ b'"' ∷ [])
  print (quoted_index t e s) =
      b'"' ∷ (escape t ++ b'"' ∷ b'[' ∷ (print e ++ b']' ∷ print_suffixes s))
  print (numeral t) = t

  pub print_suffixes : Suffixes → Text
  print_suffixes stop = []
  print_suffixes (field n s) = b'.' ∷ (n ++ print_suffixes s)
  print_suffixes (index e s) = b'[' ∷ (print e ++ b']' ∷ print_suffixes s)

abbrev pub name_node : Text → Current
name_node n = record { value = n; accessor_expression = no_accessor; type = identifier }

abbrev pub string_node : Text → Current
string_node t = record { value = t; accessor_expression = no_accessor; type = string }

abbrev pub number_node : Text → Current
number_node t = record { value = t; accessor_expression = no_accessor; type = number }

abbrev pub index_node : ExpressionNode → Current
index_node e = record { value = []; accessor_expression = accessor e; type = identifier }

-- The nodes of an expression, its first and then the suffixes'.
unfoldable mutual
  pub to_node : Watch → ExpressionNode
  to_node (named n s) = attach n no_accessor identifier s
  to_node (quoted t) = node t no_accessor string no_next
  to_node (quoted_index t e s) =
      node t no_accessor string (next (attach [] (accessor (to_node e)) identifier s))
  to_node (numeral t) = node t no_accessor number no_next

  pub attach : Text → Accessor → ExpressionNodeType → Suffixes → ExpressionNode
  attach value a t stop = node value a t no_next
  attach value a t (field n s) = node value a t (next (attach n no_accessor identifier s))
  attach value a t (index e s) =
      node value a t (next (attach [] (accessor (to_node e)) identifier s))
