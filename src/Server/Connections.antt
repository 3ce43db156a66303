-- ===== src/Server/Connections.antt =====
-- embedded_server/websocket/WSListener.h and WSListener.cpp: the connections to web clients. A
-- `RemoteConnection` is its address; what is sent is kept in the order of sending. The calls come one
-- after the other; the code has no lock for calls of several threads.
use squirrel_debug_server.Base.{
  ℕ, suc, ◌+◌, ◌≡◌, ◌≤◌, refl, ℤ, pos, inc, dec, Bool, true, false, List, [], ◌∷◌, ◌++◌, Text,
  length, length-append, map, ◌==◌, if◌then◌else◌, arith, ap, ◌∙◌,
}

-- The members of the listener, and the counter `SOCKETS`.
pub record Connections : Type 0 where
  pub connections : List ℕ
  pub sockets : ℤ
  pub sent : List (ℕ × Text)

abbrev pub no_connections : Connections
no_connections = record { connections = []; sockets = pos 0; sent = [] }

-- `erase` of what `find_if` finds.
unfoldable pub erase : ℕ → List ℕ → List ℕ
erase a [] = []
erase a (x ∷ xs) = if x == a then xs else x ∷ erase a xs

unfoldable pub broadcast_message : Text → Connections → Connections
broadcast_message message s = record s {
  sent = s.sent ++ map (λ (c : ℕ). (c, message)) s.connections;
}

unfoldable pub on_after_create : ℕ → Connections → Connections
on_after_create a s = record s { connections = s.connections ++ a ∷ []; sockets = inc s.sockets }

unfoldable pub on_before_destroy : ℕ → Connections → Connections
unfolding erase
on_before_destroy a s = record s { connections = erase a s.connections; sockets = dec s.sockets }

-- What happens to the listener.
pub data SocketEvent : Type 0 where
  created destroyed : ℕ → SocketEvent
  broadcast : Text → SocketEvent

unfoldable pub after_event : SocketEvent → Connections → Connections
unfolding on_after_create on_before_destroy broadcast_message
after_event (created a) s = on_after_create a s
after_event (destroyed a) s = on_before_destroy a s
after_event (broadcast message) s = broadcast_message message s

unfoldable pub after_events : List SocketEvent → Connections → Connections
unfolding after_event
after_events [] s = s
after_events (e ∷ es) s = after_events es (after_event e s)

-- How often a connection stands in a list.
unfoldable pub count : ℕ → List ℕ → ℕ
count c [] = 0
count c (x ∷ xs) = if x == c then suc (count c xs) else count c xs

abbrev is_possible : SocketEvent → List ℕ → Bool
is_possible (created a) live = count a live == 0
is_possible (destroyed a) live = if count a live == 0 then false else true
is_possible (broadcast message) live = true

-- A socket is created once, and destroyed only while it lives.
unfoldable pub are_possible : List SocketEvent → Connections → Bool
unfolding count after_event
are_possible [] s = true
are_possible (e ∷ es) s =
    if is_possible e s.connections then are_possible es (after_event e s) else false

-- The counter is the number of connections, and none is there twice.
pub record Counted (s : Connections) : Type 0 where
  pub counter : s.sockets ≡ pos (length s.connections)
  pub once : (c : ℕ) → count c s.connections ≤ 1

length-erase :
    (a : ℕ) (xs : List ℕ) → (count a xs == 0) ≡ false → suc (length (erase a xs)) ≡ length xs
unfolding erase count
length-erase a [] h = ground arith
length-erase a (x ∷ xs) h = ground (arith, length-erase a xs)

count-erase : (c a : ℕ) (xs : List ℕ) → count c (erase a xs) ≤ count c xs
unfolding erase count
count-erase c a [] = omega arith
count-erase c a (x ∷ xs) = ground (arith, count-erase c a xs)

count-append :
    (c a : ℕ) (xs : List ℕ) → count c (xs ++ a ∷ []) ≡ count c xs + (if a == c then 1 else 0)
unfolding count
count-append c a [] = ground arith
count-append c a (x ∷ xs) = ground (arith, count-append c a xs)

after_event-Counted :
    (e : SocketEvent) (s : Connections)
    → is_possible e s.connections ≡ true
    → Counted s
    → Counted (after_event e s)
unfolding after_event on_after_create on_before_destroy broadcast_message count
after_event-Counted (created a) s h i = record {
  counter = ground (arith, i.counter, length-append s.connections (a ∷ []));
  once = λ c. ground (arith, h, i.once c, i.once a, count-append c a s.connections);
}
after_event-Counted (destroyed a) s h i = record {
  counter = ground (arith, h, i.counter, length-erase a s.connections);
  once = λ c. omega (arith, i.once c, count-erase c a s.connections);
}
after_event-Counted (broadcast message) s h i = record { counter = i.counter; once = i.once }

pub no_connections-Counted : Counted no_connections
unfolding count
no_connections-Counted = record { counter = refl; once = λ c. omega arith }

-- After any possible sequence of connections, disconnections and broadcasts, from a state where this
-- holds: the counter is the number of connections, and no connection is there twice.
pub after_events-Counted :
    (es : List SocketEvent) (s : Connections)
    → are_possible es s ≡ true
    → Counted s
    → Counted (after_events es s)
unfolding after_events are_possible
after_events-Counted [] s h i = i
after_events-Counted (e ∷ es) s h i =
    after_events-Counted es (after_event e s) (ground (arith, h))
      (after_event-Counted e s (ground (arith, h)) i)

-- The messages that a connection was sent.
unfoldable pub received : ℕ → List (ℕ × Text) → List Text
received c [] = []
received c ((x, message) ∷ sent) = if x == c then message ∷ received c sent else received c sent

received-append :
    (c : ℕ) (xs ys : List (ℕ × Text)) → received c (xs ++ ys) ≡ received c xs ++ received c ys
unfolding received
received-append c [] ys = refl
received-append c ((x, message) ∷ xs) ys = ground (arith, received-append c xs ys)

received-map_none :
    (c : ℕ) (message : Text) (xs : List ℕ)
    → count c xs ≡ 0
    → received c (map (λ (x : ℕ). (x, message)) xs) ≡ []
unfolding received count
received-map_none c message [] h = refl
received-map_none c message (x ∷ xs) h = ground (arith, h, received-map_none c message xs)

received-map :
    (c : ℕ) (message : Text) (xs : List ℕ)
    → count c xs ≤ 1
    → received c (map (λ (x : ℕ). (x, message)) xs) ≡ (if count c xs == 0 then [] else message ∷ [])
unfolding received count
received-map c message [] h = refl
received-map c message (x ∷ xs) h =
    ground (arith, h, received-map c message xs, received-map_none c message xs)

pub broadcast-received :
    (message : Text) (c : ℕ) (s : Connections)
    → Counted s
    → received c (broadcast_message message s).sent
      ≡ received c s.sent ++ (if count c s.connections == 0 then [] else message ∷ [])
unfolding broadcast_message
broadcast-received message c s counted =
    received-append c s.sent (map (λ (x : ℕ). (x, message)) s.connections)
    ∙ ap (λ (r : List Text). received c s.sent ++ r)
        (received-map c message s.connections (counted.once c))

pub broadcast_message-Counted :
    (message : Text) (s : Connections) → Counted s → Counted (broadcast_message message s)
unfolding broadcast_message
broadcast_message-Counted message s i = record { counter = i.counter; once = i.once }

-- After any possible sequence of events from the start, a broadcast reaches every connection exactly
-- once, behind what it was sent before, and nobody else.
pub broadcast_message-received :
    (es : List SocketEvent) (message : Text) (c : ℕ)
    → are_possible es no_connections ≡ true
    → let s = after_events es no_connections in
      received c (broadcast_message message s).sent
      ≡ received c s.sent ++ (if count c s.connections == 0 then [] else message ∷ [])
broadcast_message-received es message c h =
    broadcast-received message c (after_events es no_connections)
      (after_events-Counted es no_connections h no_connections-Counted)
