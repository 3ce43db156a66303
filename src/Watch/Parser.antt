-- ===== src/Watch/Parser.antt =====
-- `ParseExpression`, and how `GetImmediateValue` calls it.
use squirrel_debug_server.Base.{
  ℕ, zero, suc, Bool, true, false, ◌||◌, List, [], ◌∷◌, Text, length, ◌==◌, if◌then◌else◌,
}
use squirrel_debug_server.Watch.{
  ExpressionNodeType, undefined, string, number, identifier, ExpressionNode, node, Accessor,
  no_accessor, accessor, no_next, next, node_type, field_of_non_identifier, eof_after_dot,
  bad_char_after_dot, bracket_must_follow, no_accessor_expression, empty_bracket, string_follows,
  word_follows, invalid_character, trailing_content, Outcome, parsed, failed, out_of_fuel,
  and_parse,
}
use squirrel_debug_server.Watch.Chars.{is_digit, is_alpha}
use squirrel_debug_server.Watch.Strings.{read_string, read_number, read_identifier}

-- The node that `currentExpression` points to, whose `next` is still null.
pub record Current : Type 0 where
  pub value : Text
  pub accessor_expression : Accessor
  pub type : ExpressionNodeType

abbrev pub fresh : Current
fresh = record { value = []; accessor_expression = no_accessor; type = undefined }

-- The root of the list: the nodes before the current one, the latest first, and it.
unfoldable pub link : List Current → ExpressionNode → ExpressionNode
link [] n = n
link (c ∷ cs) n = link cs (node c.value c.accessor_expression c.type (next n))

abbrev pub root : List Current → Current → ExpressionNode
root before c = link before (node c.value c.accessor_expression c.type no_next)

abbrev pub is_type : ExpressionNodeType → ExpressionNodeType → Bool
is_type undefined undefined = true
is_type string string = true
is_type number number = true
is_type identifier identifier = true
is_type _ _ = false

-- `.`, from behind it on: the next node, if a name follows.
unfoldable pub read_dot : Text → Outcome Current
read_dot [] = failed eof_after_dot []
read_dot (c ∷ t) =
    if is_alpha c || c == b'_' then parsed fresh (c ∷ t) else failed bad_char_after_dot (c ∷ t)

-- A number or a name, at its first character.
unfoldable pub read_word : ℕ → Text → Outcome Current
read_word c t =
    if is_digit c
    then parsed
        (record { value = (read_number t).0; accessor_expression = no_accessor; type = number })
        (read_number t).1
    else (if is_alpha c || c == b'_'
        then parsed
            (record {
              value = (read_identifier t).0;
              accessor_expression = no_accessor;
              type = identifier;
            })
            (read_identifier t).1
        else failed invalid_character t)

-- `[`, given what was parsed behind it: the next node, if that is not empty.
unfoldable pub read_accessor : ExpressionNode → Text → Outcome Current
read_accessor e t =
    if is_type (node_type e) undefined
    then failed no_accessor_expression t
    else parsed (record { value = []; accessor_expression = accessor e; type = identifier }) t

-- The loop of `ParseExpression`. Each step reads at least one character.
unfoldable pub parse_loop : ℕ → List Current → Current → Text → Outcome ExpressionNode
parse_loop zero before c t = out_of_fuel
parse_loop (suc f) before c [] = parsed (root before c) []
parse_loop (suc f) before c (x ∷ t) =
    let blank = parse_loop f before c t in
    let dot = and_parse (read_dot t) (λ n rest. parse_loop f (c ∷ before) n rest) in
    let bracket =
      and_parse (parse_loop f [] fresh t) (λ e rest.
        and_parse (read_accessor e rest) (λ n rest'. parse_loop f (c ∷ before) n rest')) in
    let quoted =
      and_parse (read_string (suc f) (x ∷ t))
        (λ s rest. parse_loop f before (record c { value = s; type = string }) rest) in
    let word =
      and_parse (read_word x (x ∷ t))
        (λ w rest. parse_loop f before (record c { value = w.value; type = w.type }) rest) in
    if x == b' '
    then blank
    else (if x == b'.'
        then (if is_type c.type identifier then dot else failed field_of_non_identifier (x ∷ t))
        else (if x == b'['
            then (if is_type c.type string || is_type c.type identifier
                then bracket
                else failed bracket_must_follow (x ∷ t))
            else (if x == b']'
                then (if is_type c.type undefined
                    then failed empty_bracket (x ∷ t)
                    else parsed (root before c) t)
                else (if x == b'"' || x == b'\''
                    then (if is_type c.type undefined
                        then quoted
                        else failed string_follows (x ∷ t))
                    else (if is_type c.type undefined
                        then word
                        else failed word_follows (x ∷ t))))))

unfoldable pub parse_expression : Text → Outcome ExpressionNode
unfolding parse_loop
parse_expression t = parse_loop (suc (length t)) [] fresh t

-- Nothing may follow the expression.
abbrev pub whole : ExpressionNode → Text → Outcome ExpressionNode
whole e [] = parsed e []
whole e (c ∷ t) = failed trailing_content (c ∷ t)

unfoldable pub parse_watch : Text → Outcome ExpressionNode
unfolding parse_expression
parse_watch t = and_parse (parse_expression t) whole
