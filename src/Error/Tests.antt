-- ===== src/Error/Tests.antt =====
-- Errors within errors at concrete handlers.
use nuhal.Common.{◌+◌, ◌≡◌, refl, some, [], ◌∷◌, true, false}
use nuhal.Error.{
  Text, Answer, calls_error, error, error_start, handler_called, fatal_handler_called, exit_failure,
  stays_in_handler,
}
use nuhal.Error.Platforms.{
  host_error_handler, host_error_handler_fatal, tiva_error_handler, tiva_error_handler_fatal,
}
use nuhal.Error.Recursion.{error-first_error}

-- A handler that always fails itself.
abbrev failing : Text → Answer
failing msg = calls_error (msg + 1)

on_host :
    error host_error_handler host_error_handler_fatal 3 error_start 7
    ≡ some (
      record { error_called = true; fatal_error_called = false },
      handler_called 7 ∷ exit_failure ∷ [],
    )
unfolding error
on_host = refl

on_tiva :
    error tiva_error_handler tiva_error_handler_fatal 3 error_start 7
    ≡ some (
      record { error_called = true; fatal_error_called = false },
      handler_called 7 ∷ stays_in_handler ∷ [],
    )
unfolding error
on_tiva = refl

error-first_error_example :
    error failing tiva_error_handler_fatal 3 error_start 7
    ≡ some (
      record { error_called = true; fatal_error_called = true },
      handler_called 7 ∷ fatal_handler_called 8 ∷ stays_in_handler ∷ [],
    )
error-first_error_example = error-first_error failing tiva_error_handler_fatal 0 7
