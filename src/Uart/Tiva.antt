-- ===== src/Uart/Tiva.antt =====
-- nuhal_tiva/src/uart_tiva.c: the UART of the microcontroller. The calls of TivaWare for it and their
-- constants come as a record, as in Pin/Setup, over the same state `S` of the hardware; a loop that
-- polls the hardware gets the number of its rounds as fuel.
pub mod Control
pub mod OnLine
pub mod Drained
pub mod Opened
mod Tests
use nuhal.Common.{
  ℕ, zero, suc, Bool, true, false, not, ◌&&◌, Option, none, some, List, [], ◌∷◌, ltb, ◌==◌,
  if◌then◌else◌, u8, Outcome, ok, err, unfinished, ◌>>=◌, Ptr, require, null_ptr, null_pointer,
  uart_read_error,
}
use nuhal.Time.{TimeElapsed, elapsed_init, time_elapsed}
use nuhal.Uart.{Port}

-- The calls that only set something up, with the base register of the UART.
pub data UartCall : Type 0 where
  config : ℕ → ℕ → ℕ → ℕ → UartCall
  fifo_enable fifo_disable disable rx_error_clear : ℕ → UartCall
  flow_control : ℕ → ℕ → UartCall
  break_ctl : ℕ → Bool → UartCall

-- `char_get` of -1 is `none`. The clocks are those of nuhal_tiva/src/time_tiva.c.
pub record UartLib (S : Type 0) : Type 0 where
  pub uart_bases : List ℕ
  pub sysctl_uarts : List ℕ
  pub int_uarts : List ℕ
  pub chars_avail : ℕ → S → Bool × S
  pub char_get : ℕ → S → Option ℕ × S
  pub char_put : ℕ → ℕ → S → Bool × S
  pub rx_error_get : ℕ → S → ℕ × S
  pub call : UartCall → S → S
  pub rxerror_break : ℕ
  pub par_odd : ℕ
  pub par_even : ℕ
  pub par_none : ℕ
  pub wlen_8 : ℕ
  pub stop_one : ℕ
  pub flow_tx : ℕ
  pub flow_rx : ℕ
  pub flow_none : ℕ
  pub uart_o_ctl : ℕ
  pub uart_ctl_rxe : ℕ
  pub uart_o_fr : ℕ
  pub uart_fr_busy : ℕ
  pub time_current_ms : S → ℕ × S
  pub time_period_ms : ℕ
  pub time_current_us : S → ℕ × S
  pub time_period_us : ℕ

-- `struct uart_port`
pub record UartPort : Type 0 where
  pub base : ℕ
  pub sysctl : ℕ
  pub int_base : ℕ

module _ {S : Type 0} (lib : UartLib S) where
  -- The loop of `uart_read_nonblock`, with room for as many more bytes: those that it stores.
  unfoldable pub read_chars : ℕ → ℕ → S → Outcome (List ℕ × S)
  read_chars base zero s = let (avail, s) = lib.chars_avail base s in ok ([], s)
  read_chars base (suc room) s =
      let (avail, s) = lib.chars_avail base s in
      elim avail [
        | false ↦ ok ([], s)
        | true ↦
            let (nextbyte, s) = lib.char_get base s in
            let (errors, s) = lib.rx_error_get base s in
            if not (errors == 0) then err uart_read_error else elim nextbyte [
              | none ↦ ok ([], s)
              | some c ↦ do (bytes, s) ← read_chars base room s; ok (u8 c ∷ bytes, s)
            ]
      ]

  unfoldable pub uart_read_nonblock : Ptr UartPort → S → ℕ → Outcome (List ℕ × S)
  uart_read_nonblock port s len = do p ← require port null_pointer; read_chars p.base len s

  -- The loop of `uart_write_nonblock`: how many of the bytes the FIFO took.
  unfoldable pub write_chars : ℕ → List ℕ → S → ℕ × S
  write_chars base [] s = (0, s)
  write_chars base (x ∷ bytes) s =
      let (taken, s) = lib.char_put base x s in
      elim taken [ false ↦ (0, s) | true ↦ let (n, s) = write_chars base bytes s in (suc n, s) ]

  unfoldable pub uart_write_nonblock : Ptr UartPort → S → List ℕ → Outcome (ℕ × S)
  uart_write_nonblock port s bytes = do
    p ← require port null_pointer
    ok (write_chars p.base bytes s)

  -- The loop of `uart_wait_for_data`
  unfoldable pub await_char : ℕ → ℕ → ℕ → TimeElapsed → S → Outcome (Bool × S)
  await_char base timeout zero stamp s = unfinished
  await_char base timeout (suc fuel) stamp s =
      let (avail, s) = lib.chars_avail base s in
      elim avail [
        | true ↦ ok (true, s)
        | false ↦ do
          let (now, s) = lib.time_current_ms s
          (t, stamp) ← time_elapsed lib.time_period_ms (some stamp) now
          elim (ltb timeout t && not (timeout == 0)) [
            | true ↦ ok (false, s)
            | false ↦ await_char base timeout fuel stamp s
          ]
      ]

  unfoldable pub uart_wait_for_data : ℕ → Ptr UartPort → S → ℕ → Outcome (Bool × S)
  uart_wait_for_data fuel port s timeout = do
    p ← require port null_ptr
    let (now, s) = lib.time_current_ms s
    await_char p.base timeout fuel (elapsed_init now) s

  unfoldable pub uart_data_available : Ptr UartPort → S → Outcome (Bool × S)
  uart_data_available port s = do p ← require port null_ptr; ok (lib.chars_avail p.base s)

  -- The calls that nuhal_all/src/uart.c and protocol.c are over, with `fuel` rounds for each wait.
  unfoldable pub tiva_port : ℕ → UartPort → Port S
  tiva_port fuel port = record {
    read_nonblock = uart_read_nonblock (some port);
    write_nonblock = uart_write_nonblock (some port);
    wait_for_data = uart_wait_for_data fuel (some port);
    data_available = uart_data_available (some port);
    time_current_ms = lib.time_current_ms;
    time_period_ms = lib.time_period_ms;
  }
