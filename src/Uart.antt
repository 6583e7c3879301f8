-- ===== src/Uart.antt =====
-- nuhal_all/src/uart.c and the types of nuhal_all/include/nuhal/uart.h: the blocking calls, over the
-- calls that each platform implements. These come as a record, over a state `S` of the port, its line
-- and the clock. A loop gets the number of its rounds as fuel.
pub mod Line
pub mod Read
pub mod Write
pub mod Expected
pub mod Terminator
pub mod Wire
pub mod Host
pub mod Tiva
mod Tests
use nuhal.Common.{
  ℕ, zero, suc, ◌+◌, ◌-◌, Bool, true, false, List, length, ltb, leb, ◌==◌, ◌||◌, if◌then◌else◌,
  add_size, sub_size, u32, some, Outcome, ok, err, undefined, unfinished, ◌>>=◌, load, read_timeout,
  write_timeout, invalid_term,
}
use nuhal.Memory.{overwrite, slice}
use nuhal.Time.{TimeElapsed, elapsed_init, time_elapsed}

-- `enum uart_flow`, `enum uart_parity` and `enum uart_term`; the last constructor is any other value.
pub data UartFlow : Type 0 where
  hardware software no_flow other_flow : UartFlow

pub data UartParity : Type 0 where
  no_parity odd even other_parity : UartParity

pub data UartTerm : Type 0 where
  no_term lf cr cr_or_lf nul other_term : UartTerm

-- What a platform implements: the bytes that a read stores and returns the number of, the number that
-- a write takes of the bytes it is given, whether there is something to read, and the clock in ms.
pub record Port (S : Type 0) : Type 0 where
  pub read_nonblock : S → ℕ → Outcome (List ℕ × S)
  pub write_nonblock : S → List ℕ → Outcome (ℕ × S)
  pub wait_for_data : S → ℕ → Outcome (Bool × S)
  pub data_available : S → Outcome (Bool × S)
  pub time_current_ms : S → ℕ × S
  pub time_period_ms : ℕ

-- The bytes that a read stored in an object at an offset, and those that a write is handed.
abbrev pub deposit : List ℕ → ℕ → List ℕ → Outcome (List ℕ)
deposit m i bytes =
    if leb (i + length bytes) (length m) then ok (overwrite m i bytes) else undefined

abbrev pub handed : List ℕ → ℕ → ℕ → Outcome (List ℕ)
handed m i n = if leb (i + n) (length m) then ok (slice m i n) else undefined

-- The test that ends a read early, on the last of the `read` bytes at the offset `at`.
unfoldable pub ends : UartTerm → List ℕ → ℕ → ℕ → Outcome Bool
ends term m at read = do
  let last = if read == 0 then undefined else load m (at + read - 1)
  elim term [
    | no_term ↦ ok false
    | cr ↦ do c ← last; ok (c == 13)
    | lf ↦ do c ← last; ok (c == 10)
    | nul ↦ do c ← last; ok (c == 0)
    | cr_or_lf ↦ do c ← last; ok (c == 13 || c == 10)
    | other_term ↦ err invalid_term
  ]

module _ {S : Type 0} (port : Port S) where
  -- `struct time_elapsed_ms stamp = time_elapsed_ms_init();`
  abbrev pub start : S → TimeElapsed × S
  start s = let (now, s) = port.time_current_ms s in (elapsed_init now, s)

  -- `timeout == 0 || time_elapsed_ms(&stamp) < timeout`
  unfoldable pub in_time : TimeElapsed → ℕ → S → Outcome (Bool × TimeElapsed × S)
  in_time stamp timeout s = if timeout == 0 then ok (true, stamp, s) else do
    let (now, s) = port.time_current_ms s
    (t, stamp) ← time_elapsed port.time_period_ms (some stamp) now
    ok (ltb t timeout, stamp, s)

  module _ (at len timeout : ℕ) (term : UartTerm) (timeout_error : Bool) where
    -- The loop of `uart_read_block_error`: the number `read` of bytes, and `data` with them.
    unfoldable pub read_loop : ℕ → TimeElapsed → ℕ → List ℕ → S → Outcome (ℕ × List ℕ × S)
    read_loop zero stamp read m s = unfinished
    read_loop (suc fuel) stamp read m s = do
      (more, stamp, s) ← in_time stamp timeout s
      elim more [
        | false ↦ if timeout_error then err read_timeout else ok (read, m, s)
        | true ↦ do
          (bytes, s) ← port.read_nonblock s (sub_size len read)
          m ← deposit m (at + read) bytes
          let read = add_size read (length bytes)
          if read == len then ok (read, m, s) else do
            done ← ends term m at read
            elim done [ true ↦ ok (read, m, s) | false ↦ read_loop fuel stamp read m s ]
      ]

  -- `uart_read_block_error`, into the object `m` at the offset `at`. The result is an `int`, given by
  -- its 32 bits: of the size_t `read` they are what is left.
  unfoldable pub read_block_error :
      ℕ → List ℕ → ℕ → ℕ → ℕ → UartTerm → Bool → S → Outcome (ℕ × List ℕ × S)
  read_block_error fuel m at len timeout term timeout_error s =
      if 0 == len then ok (0, m, s) else do
        let (stamp, s) = start s
        (_, s) ← port.wait_for_data s timeout
        (read, m, s) ← read_loop at len timeout term timeout_error fuel stamp 0 m s
        ok (u32 read, m, s)

  -- `uart_read_block`
  unfoldable pub read_block : ℕ → List ℕ → ℕ → ℕ → ℕ → UartTerm → S → Outcome (ℕ × List ℕ × S)
  read_block fuel m at len timeout term s = read_block_error fuel m at len timeout term false s

  module _ (m : List ℕ) (at len timeout : ℕ) where
    -- The loop of `uart_write_block`.
    unfoldable pub write_loop : ℕ → TimeElapsed → ℕ → S → Outcome (ℕ × S)
    write_loop zero stamp written s = unfinished
    write_loop (suc fuel) stamp written s = do
      (more, stamp, s) ← in_time stamp timeout s
      elim more [
        | false ↦ err write_timeout
        | true ↦ do
          bytes ← handed m (at + written) (sub_size len written)
          (n, s) ← port.write_nonblock s bytes
          let written = add_size written n
          elim (written == len) [ true ↦ ok (written, s) | false ↦ write_loop fuel stamp written s ]
      ]

  -- `uart_write_block`, of the object `m` from the offset `at` on; the result is an `int` as above.
  unfoldable pub write_block : ℕ → List ℕ → ℕ → ℕ → ℕ → S → Outcome (ℕ × S)
  write_block fuel m at len timeout s = do
    let (stamp, s) = start s
    (written, s) ← write_loop m at len timeout fuel stamp 0 s
    ok (u32 written, s)
