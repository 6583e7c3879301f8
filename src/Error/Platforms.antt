-- ===== src/Error/Platforms.antt =====
-- The handlers that come with the platforms, which a program may replace: those of
-- nuhal_linux/src/error_host.c print the text and return, and those of nuhal_tiva/src/error_tiva.c stay
-- in a loop, the first with interrupts off.
use nuhal.Error.{Text, Answer, returns, stays}

abbrev pub host_error_handler : Text → Answer
host_error_handler msg = returns

abbrev pub host_error_handler_fatal : Text → Answer
host_error_handler_fatal msg = returns

abbrev pub tiva_error_handler : Text → Answer
tiva_error_handler msg = stays

abbrev pub tiva_error_handler_fatal : Text → Answer
tiva_error_handler_fatal msg = stays
