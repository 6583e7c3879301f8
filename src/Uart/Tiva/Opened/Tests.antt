-- ===== src/Uart/Tiva/Opened/Tests.antt =====
-- A UART in whose FIFO one character is left when it is opened.
use nuhal.Common.{
  ◌≤◌, ◌<◌, ◌≡◌, ◌⊎◌, refl, arith, Bool, true, false, not, none, some, [], ◌∷◌, inl, if◌then◌else◌,
  Settles,
}
use nuhal.Time.{since}
use nuhal.Time.Running.{IsRunning}
use nuhal.Uart.{hardware, even}
use nuhal.Pin.Setup.{Tivaware}
use nuhal.Uart.Tiva.{UartLib}
use nuhal.Uart.Tiva.Control.{uart_open}
use nuhal.Uart.Tiva.Drained.{IsOpenable}
use nuhal.Uart.Tiva.Opened.{Opens, Refuses, uart_open-Settles}

-- Whether the character is left, and which of the two readings the clock shows next.
record Chip : Type 0 where
  stray : Bool
  second : Bool

unfoldable chip_lib : UartLib Chip
chip_lib = record {
  uart_bases = 32 ∷ 64 ∷ 96 ∷ 128 ∷ 160 ∷ 192 ∷ 224 ∷ 256 ∷ [];
  sysctl_uarts = 0 ∷ 1 ∷ 2 ∷ 3 ∷ 4 ∷ 5 ∷ 6 ∷ 7 ∷ [];
  int_uarts = 21 ∷ 22 ∷ 49 ∷ 75 ∷ 76 ∷ 77 ∷ 78 ∷ 79 ∷ [];
  chars_avail = λ base s. (s.stray, s);
  char_get = λ base s. (if s.stray then some 7 else none, record s { stray = false });
  char_put = λ base x s. (true, s);
  rx_error_get = λ base s. (0, s);
  call = λ c s. s;
  rxerror_break = 4;
  par_odd = 2;
  par_even = 6;
  par_none = 0;
  wlen_8 = 96;
  stop_one = 0;
  flow_tx = 32768;
  flow_rx = 16384;
  flow_none = 0;
  uart_o_ctl = 48;
  uart_ctl_rxe = 512;
  uart_o_fr = 24;
  uart_fr_busy = 8;
  time_current_ms = λ s. (0, s);
  time_period_ms = 2;
  time_current_us = λ s. (if s.second then 1 else 0, record s { second = not s.second });
  time_period_us = 2;
}

unfoldable hardware_of_chip : Tivaware Chip
hardware_of_chip = record {
  port_bases = [];
  sysctl_ports = [];
  port_pins = [];
  gpio_o_data = 0;
  gpio_o_lock = 1312;
  gpio_o_cr = 1316;
  gpio_lock_key = 1280262987;
  peripheral_ready = λ p s. (true, s);
  call = λ c s. s;
  read_register = λ a s. (0, s);
  write_register = λ a x s. s;
}

chip-IsOpenable : IsOpenable chip_lib 1
unfolding chip_lib
chip-IsOpenable = record {
  bases = refl;
  sysctls = refl;
  ints = refl;
  noise = λ s. if s.stray then 1 else 0;
  bounded = λ s. at_most s.stray;
  taking = λ base s h. taken s.stray h;
  ticking = λ s. omega arith;
}
  where
    at_most : (b : Bool) → (if b then 1 else 0) ≤ 1
    at_most b = ground arith

    taken : (b : Bool) → b ≡ true → 0 < (if b then 1 else 0)
    taken b h = ground arith

chip-IsRunning : IsRunning chip_lib.time_current_us chip_lib.time_period_us 1 0
unfolding chip_lib
chip-IsRunning = record {
  last = λ s. if s.second then 0 else 1;
  stalls = λ s. 0;
  stalls_most = λ s. omega arith;
  ticks = λ s. tick s.stray s.second;
}
  where
    tick :
        (stray second : Bool)
        → let s : Chip = record { stray = stray; second = second } in
          ((if not second then 0 else 1) ≡ (chip_lib.time_current_us s).0)
          × (since 2 (if second then 0 else 1) (chip_lib.time_current_us s).0 ≤ 1)
          × ((0 < since 2 (if second then 0 else 1) (chip_lib.time_current_us s).0) ⊎ (0 < 0))
    tick stray true = (refl, omega arith, inl (omega arith))
    tick stray false = (refl, omega arith, inl (omega arith))

uart_open-Settles_example :
    Settles
      (uart_open chip_lib 4 hardware_of_chip 80000000
        (49 ∷ 0 ∷ [])
        5000000
        hardware
        even
        (record { stray = true; second = false }))
      (Opens chip_lib hardware_of_chip 49 hardware even)
      (Refuses chip_lib hardware_of_chip 49 hardware even)
uart_open-Settles_example =
    uart_open-Settles chip_lib hardware_of_chip chip-IsOpenable chip-IsRunning 4 80000000 49 5000000
      (0 ∷ []) hardware even (record { stray = true; second = false }) (omega arith) (omega arith)
      (omega arith)
