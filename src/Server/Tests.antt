-- ===== src/Server/Tests.antt =====
-- A small command interface, and the endpoints' theorems at concrete inputs.
use squirrel_debug_server.Base.{
  ℕ, suc, ◌≡◌, refl, false, Text, none, some, List, [], ◌∷◌, ◌++◌, codes, text_eq, if◌then◌else◌,
}
use squirrel_debug_server.Debugger.{Event, status_changed, output_line}
use squirrel_debug_server.Server.Events.{
  EventMessage, status_message, output_line_message, handle_events, handle_events-received,
}
use squirrel_debug_server.Server.Messages.{read_messages, frames, read_messages-frames}
use squirrel_debug_server.Data.{paused, success, invalid_not_paused, ImmediateValue, local}
use squirrel_debug_server.Variables.Children.{new_variable}
use squirrel_debug_server.Server.Parameters.{
  c_str, QueryParams, pagination, parse_query_param_with_default,
}
use squirrel_debug_server.Server.Controller.{MessageCommandInterface, put_step_in, handle}
use squirrel_debug_server.Server.Connections.{
  SocketEvent, created, destroyed, broadcast, no_connections, Counted, no_connections-Counted,
  after_events, are_possible, received, after_events-Counted, count,
}
use squirrel_debug_server.Server.Answers.{status_of, handle-status}

abbrev a_value : ImmediateValue
a_value = record { variable = new_variable; scope = local; iterator_path = 2 ∷ [] }

-- Counts the expressions that it evaluates; it is never paused.
abbrev counting : MessageCommandInterface ℕ
counting = record {
  pause_execution = λ s. some (success, s);
  continue_execution = λ s. some (invalid_not_paused, s);
  step_out = λ s. some (invalid_not_paused, s);
  step_over = λ s. some (invalid_not_paused, s);
  step_in = λ s. some (invalid_not_paused, s);
  send_status = λ s. some (success, s);
  get_stack_variables = λ frame path page s. some ((invalid_not_paused, []), s);
  get_global_variables = λ path page s. some ((invalid_not_paused, []), s);
  set_stack_variable_value = λ frame path value s. some ((invalid_not_paused, new_variable), s);
  get_immediate_value = λ frame watch page s. some ((success, a_value), suc s);
  set_file_breakpoints = λ file bps s. some ((success, []), s);
}

abbrev no_params : QueryParams
no_params name = none

abbrev second_page : QueryParams
second_page name = if text_eq name (codes "count") then some (codes "50") else some (codes "100")

-- The default page has 100 entries.
default_page : pagination no_params ≡ some (record { begin_iterator = 0; count = 100 })
unfolding pagination
default_page = refl

-- What follows the digits is ignored.
trailing_text : parse_query_param_with_default (some (codes " 12ab")) 0 ≡ some 12
unfolding parse_query_param_with_default
trailing_text = refl

-- A negative count wraps around.
negative_count : parse_query_param_with_default (some (codes "-1")) 0 ≡ some 4294967295
unfolding parse_query_param_with_default
negative_count = refl

handle-status_example : 400 ≡ status_of 101
unfolding handle
handle-status_example = handle-status counting put_step_in 3 3 _ refl

-- Two clients connect, and the first leaves.
abbrev some_events : List SocketEvent
some_events = created 7 ∷ created 8 ∷ broadcast (codes "hi") ∷ destroyed 7 ∷ []

after_events-Counted_example : Counted (after_events some_events no_connections)
unfolding are_possible
after_events-Counted_example =
    after_events-Counted some_events no_connections refl no_connections-Counted

-- The text of a message is its kind.
abbrev kind : EventMessage → Text
kind (status_message s) = codes "status"
kind (output_line_message l) = codes "output_line"

abbrev two_events : List Event
two_events =
    output_line (record { output = codes "x"; is_err = false; file_name = codes "a.nut"; line = 3 })
    ∷ status_changed (record { run_state = paused; stack = []; paused_at_breakpoint_id = 0 })
    ∷ []

handle_events-received_example :
    received 8 (handle_events kind two_events (after_events some_events no_connections)).sent
    ≡ codes "hi" ∷ codes "output_line" ∷ codes "status" ∷ []
unfolding after_events received count are_possible
handle_events-received_example =
    handle_events-received kind two_events 8 (after_events some_events no_connections)
      (after_events-Counted some_events no_connections refl no_connections-Counted)

-- A zero byte ends the text that is logged.
abbrev two_parts : List Text
two_parts = codes "he" ∷ [] ∷ (codes "llo" ++ 0 ∷ codes "x") ∷ []

read_messages-frames_example :
    read_messages (frames two_parts) (record { message_buffer = []; messages = codes "first" ∷ [] })
    ≡ record { message_buffer = []; messages = codes "first" ∷ codes "hello" ∷ [] }
unfolding c_str
read_messages-frames_example =
    read_messages-frames two_parts (record { message_buffer = []; messages = codes "first" ∷ [] })
