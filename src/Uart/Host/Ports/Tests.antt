-- ===== src/Uart/Host/Ports/Tests.antt =====
-- Ports on a system where every call succeeds, which counts the addresses and the descriptors.
use nuhal.Common.{
  ℕ, ◌+◌, ◌≡◌, refl, ap, arith, true, false, Option, none, some, List, [], ◌∷◌, ◌++◌, ok, err,
  Outcome, ◌>>=◌, Settles, unsupported_baud, ◌==◌, if◌then◌else◌,
}
use nuhal.Uart.{no_flow, software, even, odd}
use nuhal.Uart.Host.{Posix, timed_out, Termios}
use nuhal.Uart.Host.Ports.{
  Heap, PortNode, PortSystem, State, node_at, set_next, set_prev, last_port, link, unlink, must,
  must_if_supported, flush_writes, shut_down, uart_close, close_all, uart_cleanup,
}
use nuhal.Uart.Host.Ports.Open.{
  starts_with, usb_name, no_termios, blank_node, baud_setting, flow_setting, parity_setting,
  settings, set_latency, set_rs485_mode, set_up, register_cleanup, uart_open,
}
use nuhal.Uart.Host.Ports.Chain.{Ports, has, IsPortList}
use nuhal.Uart.Host.Ports.Lifetime.{
  Log, IsErrno, AllClosed, uart_close-IsPortList, uart_cleanup-closes,
}
use nuhal.Uart.Host.Ports.Opened.{IsOpened, uart_open-IsPortList}

record World : Type 0 where
  allocated : ℕ
  opened : ℕ
  closed : List ℕ

-- The constants of x86-64 Linux.
unfoldable linux : Posix World
linux = record {
  read = λ fd n w. (none, w);
  write = λ fd bytes w. (none, w);
  poll = λ fd events limit w. (timed_out, w);
  flock = λ fd op w. (true, w);
  tcgetattr = λ fd w. (some no_termios, w);
  tcsetattr = λ fd tio w. (true, w);
  tcsendbreak = λ fd duration w. w;
  errno_of = λ w. 0;
  time_ms = λ w. (0, w);
  eagain = 11;
  ewouldblock = 11;
  eintr = 4;
  int_max = 2147483647;
  pollin = 1;
  lock_ex = 2;
  lock_un = 8;
  parenb = 256;
  parodd = 512;
}

unfoldable system : PortSystem World
system = record {
  atexit = λ w. (true, w);
  malloc = λ w. (some (100 + w.allocated), record w { allocated = w.allocated + 1 });
  realpath = λ name w. (some name, w);
  open_file = λ name w. (some (3 + w.opened), record w { opened = w.opened + 1 });
  close = λ fd w. (true, record w { closed = w.closed ++ fd ∷ [] });
  tcflush = λ fd w. (true, w);
  tcsetattr_drain = λ fd tio w. (true, w);
  get_serial = λ fd w. (some (record { flags = 0; others = [] }), w);
  set_serial = λ fd s w. (true, w);
  set_rs485 = λ fd flags w. (true, w);
  usleep = λ us w. w;
  cfsetospeed = λ t speed. some (record t { others = speed ∷ [] });
  cfsetispeed = λ t speed. some t;
  enotsup = 95;
  enotty = 25;
  low_latency = 8192;
  rs485_flags = 17;
  crtscts = 2147483648;
  ixon = 1024;
  ixoff = 4096;
  cs8 = 48;
  cread = 128;
  clocal = 2048;
  csize = 48;
  baud_codes = λ baud. baud;
}

unfoldable log : Log linux system
unfolding linux system
log = record {
  closed = λ w. w.closed;
  by_close = λ fd w. refl;
  by_poll = λ fd events limit w. refl;
  by_tcgetattr = λ fd w. refl;
  by_tcsetattr = λ fd t w. refl;
  by_drain = λ fd t w. refl;
  by_tcflush = λ fd w. refl;
  by_set_serial = λ fd s w. refl;
}

abbrev start : State World
start = record {
  first_run = true;
  port_list_head = none;
  cells = λ a. none;
  world = record { allocated = 0; opened = 0; closed = [] };
}

-- "/dev/ttyUSB0"
abbrev usb0 : List ℕ
usb0 = 47 ∷ 100 ∷ 101 ∷ 118 ∷ 47 ∷ 116 ∷ 116 ∷ 121 ∷ 85 ∷ 83 ∷ 66 ∷ 48 ∷ []

-- Three ports are opened, the second is closed, and then the others at the end of the program.
abbrev session : Outcome (List ℕ)
session = do
  (a, st) ← uart_open linux system 5 usb0 115200 no_flow even start
  (b, st) ← uart_open linux system 5 (47 ∷ []) 9600 software odd st
  (c, st) ← uart_open linux system 5 (48 ∷ []) 9600 software odd st
  st ← uart_close linux system b st
  st ← uart_cleanup linux system 5 st
  ok st.world.closed

run_session : session ≡ ok (4 ∷ 3 ∷ 5 ∷ [])
unfolding uart_open register_cleanup link last_port node_at set_next set_prev set_up starts_with
    usb_name set_latency must_if_supported set_rs485_mode settings baud_setting flow_setting
    parity_setting must uart_close shut_down flush_writes unlink uart_cleanup close_all linux system
run_session = refl

abbrev head_tio : Termios
head_tio = record no_termios { c_cflag = 2480; others = 115200 ∷ [] }

settings_even : settings linux system 115200 no_flow even ≡ ok head_tio
unfolding settings baud_setting flow_setting parity_setting linux system
settings_even = refl

settings_refused : settings linux system 57600 no_flow even ≡ err unsupported_baud
unfolding settings baud_setting linux system
settings_refused = refl

-- Two ports at the addresses 7 and 9.
abbrev node : ℕ → ℕ → Option ℕ → Option ℕ → PortNode
node a d before after = record (blank_node a) { fd = d; prev = before; next = after }

abbrev two_cells : Heap
two_cells a =
    if a == 7
    then some (node 7 3 none (some 9))
    else if a == 9
    then some (node 9 4 (some 7) none)
    else none

abbrev two : State World
two = record {
  first_run = false;
  port_list_head = some 7;
  cells = two_cells;
  world = record { allocated = 0; opened = 0; closed = [] };
}

abbrev ports : Ports
ports = (7, 3) ∷ (9, 4) ∷ []

two-IsPortList : IsPortList two_cells (some 7) ports
two-IsPortList = record {
  chain = (
    refl,
    node 7 3 none (some 9),
    refl,
    refl,
    refl,
    refl,
    (refl, node 9 4 (some 7) none, refl, refl, refl, refl, refl),
  );
  distinct = (refl, (refl, tt));
}

fresh : (w : World) (a : ℕ) → (system.malloc w).0 ≡ some a → has a ports ≡ false
unfolding system
fresh w a e = ground (arith, address (100 + w.allocated) a e)
  where
    address : (b a : ℕ) → Path (Option ℕ) (some b) (some a) → b ≡ a
    address b a e = ap (λ o. elim o as (λ _. ℕ) [ none ↦ b | some c ↦ c ]) e

uart_open-IsPortList_example :
    Settles
      (uart_open linux system 3 usb0 9600 no_flow even (record two { first_run = true }))
      (IsOpened linux system usb0 9600 no_flow even ports (record two { first_run = true }))
      (λ _. Unit)
uart_open-IsPortList_example =
    uart_open-IsPortList linux system 3 usb0 9600 no_flow even ports
      (record two { first_run = true }) two-IsPortList fresh (omega arith)

uart_close-IsPortList_example :
    Settles
      (uart_close linux system 9 two)
      (λ st'.
        IsPortList st'.cells st'.port_list_head ((7, 3) ∷ [])
        × (st'.cells 9 ≡ none)
        × (st'.world.closed ≡ 4 ∷ []))
      IsErrno
unfolding log
uart_close-IsPortList_example =
    uart_close-IsPortList linux system log 9 4 ((7, 3) ∷ []) [] two two-IsPortList

uart_cleanup-closes_example :
    Settles (uart_cleanup linux system 2 two) (AllClosed linux system log ports two) IsErrno
uart_cleanup-closes_example =
    uart_cleanup-closes linux system log 2 ports two two-IsPortList (omega arith)
