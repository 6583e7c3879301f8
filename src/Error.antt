-- ===== src/Error.antt =====
-- nuhal_all/src/error.c: the two flags that stop errors within errors. The platform's handlers are
-- a parameter: a handler returns, or calls error() with another text, or does neither, as those of
-- the Tiva, which stay in a loop. The program has one state for all calls. Platforms has the handlers
-- of nuhal_linux/src/error_host.c and nuhal_tiva/src/error_tiva.c.
pub mod Platforms
pub mod Recursion
mod Tests
use nuhal.Common.{
  not, ℕ, zero, suc, Bool, true, false, Option, none, some, List, [], ◌∷◌, if◌then◌else◌,
}

-- The texts of errors, by number.
abbrev pub Text : Type 0
Text = ℕ

-- `error_called`, and the static `fatal_error_called` of `error`.
pub record ErrorState : Type 0 where
  pub error_called : Bool
  pub fatal_error_called : Bool

abbrev pub error_start : ErrorState
error_start = record { error_called = false; fatal_error_called = false }

-- What a handler does with a text: it returns, or calls error() with another one, or the control
-- never leaves it.
pub data Answer : Type 0 where
  returns : Answer
  calls_error : Text → Answer
  stays : Answer

-- What a call does that can be seen: the handlers' calls, and the end: exit(), or that the control
-- stays in the handler called last.
pub data Event : Type 0 where
  handler_called : Text → Event
  fatal_handler_called : Text → Event
  exit_failure : Event
  stays_in_handler : Event

abbrev pub error_pending : ErrorState → Bool
error_pending s = s.error_called

abbrev pub after : Event → Option (ErrorState × List Event) → Option (ErrorState × List Event)
after event none = none
after event (some (s, events)) = some (s, event ∷ events)

-- A handler has been called; exit() follows if it returns, another error() if it calls it, and nothing
-- if it does neither.
abbrev pub handled :
    ErrorState
    → Event
    → Answer
    → (Text → Option (ErrorState × List Event))
    → Option (ErrorState × List Event)
handled s event returns nested = some (s, event ∷ exit_failure ∷ [])
handled s event (calls_error inner) nested = after event (nested inner)
handled s event stays nested = some (s, event ∷ stays_in_handler ∷ [])

module _ (error_handler error_handler_fatal : Text → Answer) where
  -- `error` with `fuel` calls of it still allowed: the flags at the end and the events, or `none`
  -- where the fuel ran out.
  unfoldable pub error : ℕ → ErrorState → Text → Option (ErrorState × List Event)
  error zero s msg = none
  error (suc fuel) s msg =
      let first = record s { error_called = true } in
      let second = record s { fatal_error_called = true } in
      if not s.error_called
      then handled first (handler_called msg) (error_handler msg) (error fuel first)
      else if not s.fatal_error_called
      then handled second (fatal_handler_called msg) (error_handler_fatal msg) (error fuel second)
      else some (s, exit_failure ∷ [])
