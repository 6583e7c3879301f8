-- ===== src/Uart/Host.antt =====
-- nuhal_linux/src/uart_host.c: what the calls of uart.h do on Linux with an open port, whose file
-- descriptor is `fd`. The system's calls and constants come as a record, over a state `W` of the
-- world. A call that fails is `none` and sets `errno`.
pub mod OnLine
pub mod Ports
mod Tests
use nuhal.Common.{
  ℕ, zero, suc, ◌-◌, ◌^◌, Bool, true, false, not, ◌||◌, Option, none, some, List, [], ◌∷◌, ltb,
  ◌==◌, if◌then◌else◌, bit_and, bit_or, Outcome, ok, err, unfinished, ◌>>=◌, Ptr, require, null_ptr,
  errno, invalid_param, break_with_parity,
}
use nuhal.Uart.{Port, write_block}

-- What `poll` of one descriptor answers: how it failed, that the time is over, or the events.
pub data Polled : Type 0 where
  failed : Polled
  timed_out : Polled
  ready : ℕ → Polled

-- `struct termios`, the flags and the rest.
pub record Termios : Type 0 where
  pub c_iflag : ℕ
  pub c_oflag : ℕ
  pub c_cflag : ℕ
  pub c_lflag : ℕ
  pub others : List ℕ

pub record Posix (W : Type 0) : Type 0 where
  pub read : ℕ → ℕ → W → Option (List ℕ) × W
  pub write : ℕ → List ℕ → W → Option ℕ × W
  -- The events, and the time in ms, or `none` for no limit.
  pub poll : ℕ → ℕ → Option ℕ → W → Polled × W
  pub flock : ℕ → ℕ → W → Bool × W
  pub tcgetattr : ℕ → W → Option Termios × W
  pub tcsetattr : ℕ → Termios → W → Bool × W
  pub tcsendbreak : ℕ → ℕ → W → W
  pub errno_of : W → ℕ
  pub time_ms : W → ℕ × W
  pub eagain : ℕ
  pub ewouldblock : ℕ
  pub eintr : ℕ
  pub int_max : ℕ
  pub pollin : ℕ
  pub lock_ex : ℕ
  pub lock_un : ℕ
  pub parenb : ℕ
  pub parodd : ℕ

module _ {W : Type 0} (px : Posix W) where
  -- `uart_lock` and `uart_unlock`, of the descriptor of `*port`.
  unfoldable pub uart_lock : Ptr ℕ → W → Outcome W
  uart_lock port w = do
    fd ← require port null_ptr
    let (done, w) = px.flock fd px.lock_ex w
    if done then ok w else err errno

  unfoldable pub uart_unlock : Ptr ℕ → W → Outcome W
  uart_unlock port w = do
    fd ← require port null_ptr
    let (done, w) = px.flock fd px.lock_un w
    if done then ok w else err errno

module _ {W : Type 0} (px : Posix W) (fd : ℕ) where
  -- `uart_read_nonblock`, from what read() returned on; that fits an int on Linux.
  unfoldable pub read_result : Option (List ℕ) × W → Outcome (List ℕ × W)
  read_result (some bytes, w) = ok (bytes, w)
  read_result (none, w) =
      if px.errno_of w == px.eagain || px.errno_of w == px.ewouldblock
      then ok ([], w)
      else err errno

  unfoldable pub uart_read_nonblock : W → ℕ → Outcome (List ℕ × W)
  uart_read_nonblock w length = read_result (px.read fd length w)

  -- `uart_write_nonblock`
  unfoldable pub write_result : Option ℕ × W → Outcome (ℕ × W)
  write_result (some n, w) = ok (n, w)
  write_result (none, w) = err errno

  unfoldable pub uart_write_nonblock : W → List ℕ → Outcome (ℕ × W)
  uart_write_nonblock w bytes = write_result (px.write fd bytes w)

  -- A round of the loop of `uart_wait_for_data`, which goes on where a signal has interrupted `poll`.
  unfoldable pub wait_result : (W → Outcome (Bool × W)) → Polled × W → Outcome (Bool × W)
  wait_result again (ready revents, w) = ok (true, w)
  wait_result again (timed_out, w) = ok (false, w)
  wait_result again (failed, w) = elim (px.errno_of w == px.eintr) [
    | true ↦ again w
    | false ↦ err errno
  ]

  unfoldable pub wait_loop : ℕ → ℕ → W → Outcome (Bool × W)
  wait_loop zero timeout w = unfinished
  wait_loop (suc fuel) timeout w =
      wait_result (wait_loop fuel timeout)
        (px.poll fd px.pollin (if timeout == 0 then none else some timeout) w)

  -- `uart_wait_for_data`
  unfoldable pub uart_wait_for_data : ℕ → W → ℕ → Outcome (Bool × W)
  uart_wait_for_data fuel w timeout =
      if ltb px.int_max timeout then err invalid_param else wait_loop fuel timeout w

  -- `uart_data_available`
  unfoldable pub available_result : Polled × W → Outcome (Bool × W)
  available_result (ready revents, w) = ok (not (bit_and revents px.pollin == 0), w)
  available_result (timed_out, w) = ok (false, w)
  available_result (failed, w) = err errno

  unfoldable pub uart_data_available : W → Outcome (Bool × W)
  uart_data_available w = available_result (px.poll fd px.pollin (some 0) w)

  -- The calls that nuhal_all/src/uart.c and protocol.c are over, with `fuel` rounds for each wait.
  unfoldable pub host_port : ℕ → Port W
  host_port fuel = record {
    read_nonblock = uart_read_nonblock;
    write_nonblock = uart_write_nonblock;
    wait_for_data = uart_wait_for_data fuel;
    data_available = uart_data_available;
    time_current_ms = px.time_ms;
    time_period_ms = 4294967295;
  }

  -- `tcsetattr`, whose failure is an error.
  abbrev set_attributes : Termios → W → Outcome W
  set_attributes tio w = let (done, w) = px.tcsetattr fd tio w in if done then ok w else err errno

  -- `uart_send_break`, with the `is_usb` of the port.
  unfoldable pub uart_send_break : ℕ → Bool → ℕ → W → Outcome W
  uart_send_break fuel is_usb timeout w =
      if is_usb then break_by_parity else ok (px.tcsendbreak fd 1 w)
    where
      break_by_parity : Outcome W
      break_by_parity =
          let (attributes, w) = px.tcgetattr fd w in
          do
            tio ← require attributes errno
            if not (bit_and tio.c_cflag px.parenb == 0) then err break_with_parity else do
              let even = bit_and (bit_or tio.c_cflag px.parenb) (2 ^ 32 - 1 - px.parodd)
              w ← set_attributes (record tio { c_cflag = even }) w
              (_, w) ← write_block (host_port fuel) fuel (0 ∷ []) 0 1 timeout w
              set_attributes tio w
