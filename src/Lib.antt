-- ===== src/Lib.antt =====
-- squirrel-debug-server lets a web client debug the scripts of a Squirrel virtual machine. Two
-- kinds of threads share the state of `SquirrelDebugger`: the VM thread, which enters it
-- through the native debug hook and the print callback, and the server's threads, which enter
-- it through the commands of the controller. The VM thread waits on a condition variable while
-- the program is paused; commands change the pause request and notify it. What it reports goes
-- to an event interface.
--
-- Base: names of the libraries, Boolean tests, lists over the native numbers, text (a list of
--   bytes), signed integers (`int32_t`), association lists (maps).
-- Data: interfaces/include/sdb/MessageInterface.h, the structs and enumerations of `sdb::data`.
-- Breakpoints: squirrel_debugger/BreakpointMap.h and BreakpointMap.cpp. `clear`, `add_all`,
--   `read_breakpoint`, `find_file_name_handle` and `ensure_file_name_handle` are the methods of
--   those names; `replace_file` is the three calls by which SquirrelDebugger.cpp replaces the
--   breakpoints of a file. Breakpoints.Refinement compares them with a table from names and
--   lines to breakpoints.
-- Debugger: squirrel_debugger/include/sdb/SquirrelDebugger.h and SquirrelDebugger.cpp. Debugger
--   has the state (`PauseMutexData`, `SquirrelVmData` and the members of the class),
--   Debugger.Commands the public operations, Debugger.Hook the three branches of
--   `SquirrelNativeDebugHook` and `SquirrelPrintCallback`. A hook that cannot go on (a C++
--   exception) is `none`. Debugger.Threads is the step relation of the threads: each step is
--   one critical section of `pauseMutex_`; the wait on `pauseCv_` is the two flags `waiting`
--   and `notified`, and its end is the step `wake`. Debugger.Traces runs the VM thread alone,
--   with the hooks of a tree of function calls.
-- Watch: squirrel_debugger/SquirrelVmHelpers.h and SquirrelVmHelpers.cpp from line 712.
--   `read_string`, `read_number`, `read_identifier` and `parse_expression` are the functions of
--   those names; a position in the text is the suffix that starts there, and an exception is
--   the value `failed`. Watch.Print writes an expression as text.
-- Numbers: the conversions of the standard library between text and integers.
-- Variables: squirrel_debugger/SquirrelVmHelpers.h and SquirrelVmHelpers.cpp up to line 709,
--   and the methods of `SquirrelVmDataImpl` and the three commands of SquirrelDebugger.cpp that
--   read and set variables. Variables.Machine is the Squirrel API, a record of functions on
--   abstract objects and an abstract heap, with an explicit stack whose head is the index -1; a
--   run gives `none` where the code throws, reads below the stack, or runs out of fuel. Types,
--   ClassNames, Show, Children, Walk, Update, Lookup, Path and Frames are the functions;
--   Sorting compares the order of the keys with what the C++ standard says of `std::sort`,
--   Pages puts the pages of a listing together, Totality, ListingTotality and LocalsTotality
--   show when listings end; Reach, Balance, LookupEnds, LookupTrip, Listing, Setting and Leaks
--   hold theorems.
-- Immediate: `GetImmediateValue` of SquirrelDebugger.cpp, on the same API. A pointer to an
--   expression that stands in brackets, or to the whole one, is its number in preorder
--   (Immediate.Nodes). Immediate.Evaluate makes the objects of a node list and looks them up;
--   Immediate.Loop is the stack of expressions, the answer and `~RefOwner`. Immediate.Reference
--   is the recursion that the stack is compared with.
-- Server: embedded_server/controller/DebugCommandController.h. `handle` has one case for each
--   endpoint, over a record of the commands of `MessageCommandInterface`; Server.Parameters is
--   the pagination, Server.Responses the objects of dto/EventDto.h that responses hold.
--   Server.Connections is embedded_server/websocket/WSListener.cpp: the connections, their
--   counter and broadcasts; Server.Messages is its buffer of the frames that a client sends.
--   Server.Events is the event interface of embedded_server/EmbeddedServer.cpp, which turns the
--   debugger's events into objects and broadcasts them.
-- Session: `SquirrelDebugger`, the debugger's state with the VM that it inspects, as an
--   implementation of the interface of commands that Server takes. Its theorems are about the
--   whole way of a request: the endpoint, the command, the VM and the response.
-- Logging: embedded_server/ForwardingLogger.h and ForwardingLogger.cpp, and `LogString` of
--   sample_app/main.cpp.
-- App: the rest of sample_app/main.cpp. App.Vms is the list of running VMs; App.Lifecycle is
--   what `main` does with the application and with `EndpointImpl` of
--   embedded_server/EmbeddedServer.cpp, where each step returns, throws or ends the process.
--
-- Bounds and fuel: `parse_expression` and the loops of `read_string` recurse on fuel, which
-- `parse_watch` sets to the length of the text and one; Watch.Fuel shows that it is enough.
-- `ToString` and the search for class names recurse on fuel `f` too, since tables may hold each
-- other: no bound is right for all of them, and the theorems on these functions hold for every
-- fuel; Variables.Totality shows what fuel is enough for values whose tables are nested to a
-- bounded depth. The stack of expressions of `GetImmediateValue` takes at most two steps for
-- each of them; `evaluate_roots` has one step more, and Immediate.Order shows that it is
-- enough. `int32_t` and `uint32_t` are numbers without a bound where the code only compares and
-- copies them; the count `returns_required` changes by one for each call or return.
--
-- Parameters: the C runtime's `tolower` on a name (`lower`), and what the VM reports of its
-- stack. The Squirrel API is a parameter of Variables: `sq_get` replaces the key on top by the
-- value or pops it, `sq_set` pops the key and the value on success and nothing on failure,
-- `sq_next` replaces the iterator on top and pushes the key and the value on success;
-- metamethods (`_get`, `_nexti`) that a script defines are not run, so that reading leaves the
-- heap alone; in Immediate there are also the temporary table and the references of objects. In
-- Server it is the HTTP library's parsing of requests; numbers in query parameters are read as
-- libstdc++ does, where a minus sign wraps around, and the fields of a body are there, not
-- null. squirrel.h's numbering of types is the hypothesis `IsSquirrelOrder`. In Server.Events
-- it is the text that the HTTP library writes for an object, in Logging the numbers of its
-- priorities, with the documented ones as the hypothesis. In App it is what the libraries, the
-- file system and the script do at each call, the record `Outside`.
--
-- Not modelled: the pages and swagger texts of embedded_server, the set-up of the HTTP
-- library's components, the formatting of LogFormatted, the parsing of the sample application's
-- arguments and the reading of the script's file, and `onPing`, `onPong` and `onClose` of a
-- connection, which call the library or write to the log. Nor are races: the connections' list
-- is not locked, and the count of calls and returns is changed outside the lock; both are taken
-- one event after the other.
pub mod Base
pub mod Data
pub mod Breakpoints
pub mod Debugger
pub mod Watch
pub mod Numbers
pub mod Variables
pub mod Immediate
pub mod Server
pub mod Session
pub mod Logging
pub mod App
