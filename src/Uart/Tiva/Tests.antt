-- ===== src/Uart/Tiva/Tests.antt =====
-- A UART at the base 64, with a FIFO that is silent or full at the first call.
use nuhal.Common.{
  ℕ, ◌+◌, ◌≡◌, refl, Bool, true, false, not, none, some, List, [], ◌∷◌, ◌++◌, ok, err,
  if◌then◌else◌, u8, no_flow_control,
}
use nuhal.Memory.{overwrite}
use nuhal.Time.{elapsed_init, time_elapsed}
use nuhal.Uart.{no_term, read_block_error, read_loop, in_time, ends, no_flow, hardware, even}
use nuhal.Pin.Setup.{Tivaware, peripheral_enable}
use nuhal.Uart.Tiva.{
  UartCall, config, fifo_enable, flow_control, rx_error_clear, UartLib, UartPort, tiva_port,
  uart_read_nonblock, read_chars, uart_wait_for_data, await_char,
}
use nuhal.Time.Running.{delay, delay_rounds}
use nuhal.Uart.Tiva.Control.{uart_open, port_at, parity_setting, set_flow, drain}
use nuhal.Uart.Tiva.OnLine.{View}

record Chip : Type 0 where
  pending : List ℕ
  sent : List ℕ
  busy : Bool
  now : ℕ
  calls : List UartCall

unfoldable chip_lib : UartLib Chip
chip_lib = record {
  uart_bases = 32 ∷ 64 ∷ 96 ∷ 128 ∷ 160 ∷ 192 ∷ 224 ∷ 256 ∷ [];
  sysctl_uarts = 0 ∷ 1 ∷ 2 ∷ 3 ∷ 4 ∷ 5 ∷ 6 ∷ 7 ∷ [];
  int_uarts = 21 ∷ 22 ∷ 49 ∷ 75 ∷ 76 ∷ 77 ∷ 78 ∷ 79 ∷ [];
  chars_avail = λ base s. elim s.pending [
    | [] ↦ (false, s)
    | x ∷ xs ↦ if s.busy then (false, record s { busy = false }) else (true, s)
  ];
  char_get =
      λ base s. elim s.pending [ [] ↦ (none, s) | x ∷ xs ↦ (some x, record s { pending = xs }) ];
  char_put = λ base x s.
      if s.busy
      then (false, record s { busy = false })
      else (true, record s { sent = s.sent ++ x ∷ [] });
  rx_error_get = λ base s. (0, s);
  call = λ c s. record s { calls = c ∷ s.calls };
  rxerror_break = 4;
  par_odd = 2;
  par_even = 6;
  par_none = 0;
  wlen_8 = 96;
  stop_one = 0;
  flow_tx = 32768;
  flow_rx = 16384;
  flow_none = 0;
  uart_o_ctl = 48;
  uart_ctl_rxe = 512;
  uart_o_fr = 24;
  uart_fr_busy = 8;
  time_current_ms = λ s. (s.now, record s { now = s.now + 1 });
  time_period_ms = 209;
  time_current_us = λ s. (s.now, record s { now = s.now + 1 });
  time_period_us = 209715;
}

-- Every peripheral is ready.
unfoldable hardware_of_chip : Tivaware Chip
hardware_of_chip = record {
  port_bases = [];
  sysctl_ports = [];
  port_pins = [];
  gpio_o_data = 0;
  gpio_o_lock = 1312;
  gpio_o_cr = 1316;
  gpio_lock_key = 1280262987;
  peripheral_ready = λ p s. (true, s);
  call = λ c s. s;
  read_register = λ a s. (0, s);
  write_register = λ a x s. s;
}

abbrev bytes_of : List ℕ → List ℕ
bytes_of [] = []
bytes_of (x ∷ xs) = u8 x ∷ bytes_of xs

abbrev view : View Chip
view = record {
  incoming = λ s. bytes_of s.pending;
  outgoing = λ s. s.sent;
  patience = λ s. if s.busy then 1 else 0;
  ready = λ s. elim s.pending [ [] ↦ false | x ∷ xs ↦ not s.busy ];
}

abbrev port : UartPort
port = record { base = 64; sysctl = 1; int_base = 22 }

abbrev chip : Chip
chip = record { pending = 7 ∷ 300 ∷ 9 ∷ []; sent = []; busy = true; now = 0; calls = [] }

read_two :
    read_block_error (tiva_port chip_lib 2 port) 3 (0 ∷ 0 ∷ 0 ∷ []) 1 2 100 no_term true chip
    ≡ ok (
      2,
      0 ∷ 7 ∷ 44 ∷ [],
      record { pending = 9 ∷ []; sent = []; busy = false; now = 4; calls = [] },
    )
unfolding read_block_error read_loop in_time ends time_elapsed elapsed_init tiva_port chip_lib
    uart_read_nonblock read_chars uart_wait_for_data await_char overwrite
read_two = refl

-- UART 2 has no flow control.
open_with_flow :
    uart_open chip_lib 9 hardware_of_chip 80000000 (50 ∷ 0 ∷ []) 115200 hardware even chip
    ≡ err no_flow_control
unfolding uart_open port_at peripheral_enable parity_setting set_flow chip_lib hardware_of_chip
open_with_flow = refl

open_port :
    uart_open chip_lib 99 hardware_of_chip 80000000
      (49 ∷ 0 ∷ [])
      2000000
      no_flow
      even
      (record { pending = 8 ∷ []; sent = []; busy = false; now = 0; calls = [] })
    ≡ ok (
      port,
      record {
        pending = [];
        sent = [];
        busy = false;
        now = 12;
        calls =
            rx_error_clear 64
            ∷ flow_control 64 0
            ∷ fifo_enable 64
            ∷ config 64 80000000 2000000 102
            ∷ [];
      },
    )
unfolding uart_open port_at peripheral_enable parity_setting set_flow drain delay delay_rounds
    time_elapsed elapsed_init chip_lib hardware_of_chip
open_port = refl
