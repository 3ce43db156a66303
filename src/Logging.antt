-- ===== src/Logging.antt =====
-- embedded_server/ForwardingLogger.h and ForwardingLogger.cpp, which hand the HTTP library's log on,
-- and `sdb::log::LogString` of sample_app/main.cpp, which they call.
pub mod Tests
use squirrel_debug_server.Base.{
  ℕ, zero, suc, ◌+◌, ◌/◌, ◌%◌, ◌^◌, ◌≤◌, ◌<◌, ◌≡◌, refl, subst, sym, Bool, true, false, Option,
  none, some, List, [], ◌∷◌, Text, get_elem?, ltb, ◌==◌, if◌then◌else◌, arith,
}
use squirrel_debug_server.Server.Parameters.{c_str}

-- The severities of plog that the program names.
pub data Severity : Type 0 where
  verbose debug info warning error : Severity

abbrev pub level_to_severity : List Severity
level_to_severity = verbose ∷ debug ∷ info ∷ warning ∷ error ∷ []

-- The tag and the text of a record of the log, with its severity.
abbrev pub Record : Type 0
Record = Severity × Text × Text

-- `none`: `at` throws `std::out_of_range`. `is_on` is the log's own test of a severity.
unfoldable pub log_string : (Severity → Bool) → ℕ → Text → Text → Option (List Record)
log_string is_on level tag str = elim (get_elem? level_to_severity level) [
  | none ↦ none
  | some severity ↦ some (if is_on severity then (severity, tag, str) ∷ [] else [])
]

-- The library's numbers of its priorities, `PRIORITY_V` to `PRIORITY_E`.
pub record Priorities : Type 0 where
  pub priority_v : ℕ
  pub priority_d : ℕ
  pub priority_i : ℕ
  pub priority_w : ℕ
  pub priority_e : ℕ

-- `(mask & (1U << bit)) != 0`
abbrev pub has_bit : ℕ → ℕ → Bool
has_bit mask bit = if (mask / 2 ^ bit) % 2 == 0 then false else true

-- `mask | (1U << bit)`
abbrev pub with_bit : ℕ → ℕ → ℕ
with_bit bit mask = if has_bit mask bit then mask else mask + 2 ^ bit

-- The mask of the default configuration.
abbrev pub default_log_mask : Priorities → ℕ
default_log_mask p = with_bit p.priority_e (
    with_bit p.priority_w (with_bit p.priority_i (with_bit p.priority_d (with_bit p.priority_v 0))))

unfoldable pub is_log_priority_enabled : Priorities → ℕ → ℕ → Bool
is_log_priority_enabled p log_mask priority =
    if ltb p.priority_e priority then true else has_bit log_mask priority

unfoldable pub log : (Severity → Bool) → ℕ → Text → Text → Option (List Record)
unfolding log_string c_str
log is_on priority tag message = log_string is_on priority (c_str tag) (c_str message)

-- The numbers that the library documents.
abbrev pub documented_priorities : Priorities
documented_priorities = record {
  priority_v = 0;
  priority_d = 1;
  priority_i = 2;
  priority_w = 3;
  priority_e = 4;
}

enabled_if_documented :
    (priority : ℕ)
    → is_log_priority_enabled documented_priorities
        (default_log_mask documented_priorities)
        priority
      ≡ true
unfolding is_log_priority_enabled
enabled_if_documented zero = refl
enabled_if_documented (suc zero) = refl
enabled_if_documented (suc (suc zero)) = refl
enabled_if_documented (suc (suc (suc zero))) = refl
enabled_if_documented (suc (suc (suc (suc zero)))) = refl
enabled_if_documented (suc (suc (suc (suc (suc n))))) = ground arith

-- What the log gets: a record of this severity, where the log is on for it.
unfoldable pub written : (Severity → Bool) → Severity → Text → Text → List Record
unfolding c_str
written is_on severity tag message =
    if is_on severity then (severity, c_str tag, c_str message) ∷ [] else []

log-five :
    (is_on : Severity → Bool) (tag message : Text)
    → (log is_on 0 tag message ≡ some (written is_on verbose tag message))
      × (log is_on 1 tag message ≡ some (written is_on debug tag message))
      × (log is_on 2 tag message ≡ some (written is_on info tag message))
      × (log is_on 3 tag message ≡ some (written is_on warning tag message))
      × (log is_on 4 tag message ≡ some (written is_on error tag message))
unfolding log log_string written
log-five is_on tag message = (refl, refl, refl, refl, refl)

log-more :
    (is_on : Severity → Bool) (priority : ℕ) (tag message : Text)
    → 4 < priority
    → log is_on priority tag message ≡ none
unfolding log log_string
log-more is_on priority tag message h = ground arith

-- With the library's documented numbers and the default mask, every priority is enabled. A message of
-- one of the five priorities is handed on as a record of the severity of that name, with its tag and
-- text up to their first zero bytes, if the log is on for the severity; on any greater number, which
-- `isLogPriorityEnabled` lets pass, `LogString` throws.
pub log-priority :
    (p : Priorities) (is_on : Severity → Bool) (priority : ℕ) (tag message : Text)
    → p ≡ documented_priorities
    → (is_log_priority_enabled p (default_log_mask p) priority ≡ true)
      × (log is_on p.priority_v tag message ≡ some (written is_on verbose tag message))
      × (log is_on p.priority_d tag message ≡ some (written is_on debug tag message))
      × (log is_on p.priority_i tag message ≡ some (written is_on info tag message))
      × (log is_on p.priority_w tag message ≡ some (written is_on warning tag message))
      × (log is_on p.priority_e tag message ≡ some (written is_on error tag message))
      × (4 < priority → log is_on priority tag message ≡ none)
log-priority p is_on priority tag message documented =
    let five = log-five is_on tag message in
    (
      rw (documented) (enabled_if_documented priority),
      rw (documented) five.0,
      rw (documented) five.1,
      rw (documented) five.2,
      rw (documented) five.3,
      rw (documented) five.4,
      log-more is_on priority tag message,
    )
