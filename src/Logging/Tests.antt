-- ===== src/Logging/Tests.antt =====
-- A log that is on for everything, and the theorem at a concrete input.
use squirrel_debug_server.Base.{◌≡◌, refl, ◌<◌, Bool, true, false, none, some, [], ◌∷◌, codes}
use squirrel_debug_server.Logging.{
  Severity, verbose, debug, info, warning, error, written, log, is_log_priority_enabled,
  default_log_mask, documented_priorities, log-priority,
}

default_mask : default_log_mask documented_priorities ≡ 31
default_mask = refl

warned : log (λ s. true) 3 (codes "a") (codes "b") ≡ some ((warning, codes "a", codes "b") ∷ [])
unfolding log
warned = refl

abbrev given : Severity → Bool
given verbose = false
given _ = true

log-priority_example :
    (is_log_priority_enabled documented_priorities (default_log_mask documented_priorities) 5
      ≡ true)
    × (log given 0 (codes "a") (codes "b") ≡ some (written given verbose (codes "a") (codes "b")))
    × (log given 1 (codes "a") (codes "b") ≡ some (written given debug (codes "a") (codes "b")))
    × (log given 2 (codes "a") (codes "b") ≡ some (written given info (codes "a") (codes "b")))
    × (log given 3 (codes "a") (codes "b") ≡ some (written given warning (codes "a") (codes "b")))
    × (log given 4 (codes "a") (codes "b") ≡ some (written given error (codes "a") (codes "b")))
    × (4 < 5 → log given 5 (codes "a") (codes "b") ≡ none)
log-priority_example = log-priority documented_priorities given 5 (codes "a") (codes "b") refl
