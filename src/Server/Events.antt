-- ===== src/Server/Events.antt =====
-- embedded_server/EmbeddedServer.cpp: `OatMessageEventInterface`, which turns the debugger's events
-- into the objects of dto/EventDto.h and sends their text to every web client. The text of an object,
-- `ObjectMapper::writeToString`, is the library's.
use squirrel_debug_server.Base.{
  ℕ, ◌≡◌, ◌∙◌, ap, sym, refl, ℤ, Bool, true, false, List, [], ◌∷◌, ◌++◌, Text, map, append_assoc,
  append-nil, ◌==◌, if◌then◌else◌, arith,
}
use squirrel_debug_server.Data.{
  RunState, running, pausing, paused, stepping, StackEntry, Status, OutputLine,
}
use squirrel_debug_server.Debugger.{Debugger, Event, status_changed, output_line}
use squirrel_debug_server.Debugger.Commands.{send_status, reported_status}
use squirrel_debug_server.Server.Parameters.{c_str}
use squirrel_debug_server.Server.Responses.{to_signed}
use squirrel_debug_server.Server.Connections.{
  Connections, broadcast_message, count, received, Counted, broadcast_message-Counted,
  broadcast-received,
}

-- The value of `dto::RunState`.
abbrev pub run_state_value : RunState → ℕ
run_state_value running = 0
run_state_value pausing = 1
run_state_value paused = 2
run_state_value stepping = 3

pub record StackEntryDto : Type 0 where
  pub file : Text
  pub line : ℕ
  pub function : Text

pub record StatusDto : Type 0 where
  pub runstate : ℕ
  pub stack : List StackEntryDto
  pub paused_at_breakpoint_id : ℕ

-- `line` is an `Int32`, of a `uint32_t`.
pub record OutputLineDto : Type 0 where
  pub output : Text
  pub is_err : Bool
  pub file : Text
  pub line : ℤ

-- `EventMessageWrapper`: the type of the message, and the message.
pub data EventMessage : Type 0 where
  status_message : StatusDto → EventMessage
  output_line_message : OutputLineDto → EventMessage

-- The names are copied from `c_str()`.
abbrev pub create_stack_entry : StackEntry → StackEntryDto
create_stack_entry entry = record {
  file = c_str entry.file;
  line = entry.line;
  function = c_str entry.function;
}

abbrev pub create_status : Status → StatusDto
create_status status = record {
  runstate = run_state_value status.run_state;
  stack = map create_stack_entry status.stack;
  paused_at_breakpoint_id = status.paused_at_breakpoint_id;
}

abbrev pub create_output_line : OutputLine → OutputLineDto
create_output_line line = record {
  output = line.output;
  is_err = line.is_err;
  file = line.file_name;
  line = to_signed 2147483648 line.line;
}

abbrev pub create_message : Event → EventMessage
create_message (status_changed status) = status_message (create_status status)
create_message (output_line line) = output_line_message (create_output_line line)

none_if : (b : Bool) (texts : List Text) → texts ≡ [] → [] ≡ (if b then [] else texts)
none_if true texts h = refl
none_if false texts h = sym h

append_if :
    (b : Bool) (text : Text) (texts : List Text)
    → (if b then [] else text ∷ []) ++ (if b then [] else texts) ≡ (if b then [] else text ∷ texts)
append_if true text texts = refl
append_if false text texts = refl

module _ (write_to_string : EventMessage → Text) where
  -- `HandleStatusChanged` and `HandleOutputLine`.
  unfoldable pub handle_event : Event → Connections → Connections
  unfolding broadcast_message
  handle_event e s = broadcast_message (write_to_string (create_message e)) s

  -- Events in the order in which they happen.
  unfoldable pub handle_events : List Event → Connections → Connections
  unfolding handle_event
  handle_events [] s = s
  handle_events (e ∷ es) s = handle_events es (handle_event e s)

  abbrev message_texts : List Event → List Text
  message_texts es = map (λ (e : Event). write_to_string (create_message e)) es

  abbrev received_if : ℕ → Connections → List Text → List Text
  received_if c s texts = if count c s.connections == 0 then [] else texts

  -- Whatever happens to the debugger, each connection is sent the text of every event, once and in
  -- order, behind what it was sent before, if no connection is there twice; nobody else is sent any.
  pub handle_events-received :
      (es : List Event) (c : ℕ) (s : Connections)
      → Counted s
      → received c (handle_events es s).sent
        ≡ received c s.sent ++ received_if c s (message_texts es)
  unfolding handle_events handle_event broadcast_message
  handle_events-received [] c s counted =
      sym (append-nil (received c s.sent))
      ∙ ap (λ r. received c s.sent ++ r) (none_if (count c s.connections == 0) [] refl)
  handle_events-received (e ∷ es) c s counted =
      let text = write_to_string (create_message e) in
      let s₁ = broadcast_message text s in
      let missing = count c s.connections == 0 in
      handle_events-received es c s₁ (broadcast_message-Counted text s counted)
      ∙ ap (λ r. r ++ received_if c s (message_texts es)) (broadcast-received text c s counted)
      ∙ append_assoc (received c s.sent) (if missing then [] else text ∷ [])
          (received_if c s (message_texts es))
      ∙ ap (λ r. received c s.sent ++ r) (append_if missing text (message_texts es))

  -- If the debugger has an event interface, `SendStatus` adds one event, the state that it reports, and
  -- so each connection is sent one text more, that of the state; the answer is `Success`.
  pub send_status-received :
      (d : Debugger) (c : ℕ) (s : Connections)
      → d.has_events ≡ true
      → Counted s
      → let e = status_changed (reported_status d) in
        ((send_status d).1.events ≡ e ∷ d.events)
        × (received c (handle_events (e ∷ []) s).sent
            ≡ received c s.sent
              ++ received_if c s
                  (write_to_string (status_message (create_status (reported_status d))) ∷ []))
  unfolding send_status
  send_status-received d c s connected counted = (
    ground (arith, connected),
    handle_events-received (status_changed (reported_status d) ∷ []) c s counted,
  )
