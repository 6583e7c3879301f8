-- ===== src/Error/Recursion.antt =====
-- Errors within errors: what a call of error() comes to, by what the handlers do.
use nuhal.Common.{ℕ, suc, ◌≡◌, refl, true, false, some, List, [], ◌∷◌}
use nuhal.Error.{
  Text, ErrorState, error_start, Answer, returns, calls_error, stays, Event, handler_called,
  fatal_handler_called, exit_failure, stays_in_handler, handled, after, error,
}

-- How the fatal handler's call ends: an error() of its own is the third, and exits at once.
abbrev pub last_event : Answer → Event
last_event returns = exit_failure
last_event (calls_error next) = exit_failure
last_event stays = stays_in_handler

-- The end of a first error with text `msg`, by what the handler did with it, and what the fatal handler
-- does with a text.
abbrev pub first_error : (Text → Answer) → Text → Answer → ErrorState × List Event
first_error fatal msg returns = (
  record { error_called = true; fatal_error_called = false },
  handler_called msg ∷ exit_failure ∷ [],
)
first_error fatal msg (calls_error inner) = (
  record { error_called = true; fatal_error_called = true },
  handler_called msg ∷ fatal_handler_called inner ∷ last_event (fatal inner) ∷ [],
)
first_error fatal msg stays = (
  record { error_called = true; fatal_error_called = false },
  handler_called msg ∷ stays_in_handler ∷ [],
)

module _ (h f : Text → Answer) where
  -- Whether each of the two handlers returns, calls error() with another text or never gives the
  -- control back, a first call of error() comes to its end with three calls of error() at most:
  -- the handler is called once, with the text, and only if it calls error() itself is the fatal
  -- handler called, once, with the text of that call. The end is exit(), or, if the handler called
  -- last never gives the control back, that it stays there.
  pub error-first_error :
      (extra : ℕ) (msg : Text)
      → error h f (suc (suc (suc extra))) error_start msg ≡ some (first_error f msg (h msg))
  unfolding error
  error-first_error extra msg = by_handler (h msg)
    where
      by_fatal_handler :
          (inner : Text) (answer : Answer)
          → after (handler_called msg) (
              handled
                (record { error_called = true; fatal_error_called = true })
                (fatal_handler_called inner)
                answer
                (error h f (suc extra) (record { error_called = true; fatal_error_called = true })))
            ≡ some (
              record { error_called = true; fatal_error_called = true },
              handler_called msg ∷ fatal_handler_called inner ∷ last_event answer ∷ [],
            )
      by_fatal_handler inner returns = refl
      by_fatal_handler inner (calls_error next) = refl
      by_fatal_handler inner stays = refl

      by_handler :
          (answer : Answer)
          → handled
              (record { error_called = true; fatal_error_called = false })
              (handler_called msg)
              answer
              (error h f
                (suc (suc extra))
                (record { error_called = true; fatal_error_called = false }))
            ≡ some (first_error f msg answer)
      by_handler returns = refl
      by_handler (calls_error inner) = by_fatal_handler inner (f inner)
      by_handler stays = refl
