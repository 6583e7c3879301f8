-- ===== src/Uart/Host/Ports/Open.antt =====
-- `uart_open` of nuhal_linux/src/uart_host.c.
use nuhal.Common.{
  ℕ, ◌-◌, ◌^◌, Bool, true, false, ◌&&◌, ◌||◌, none, some, List, [], ◌∷◌, ◌==◌, if◌then◌else◌,
  bit_and, bit_or, Outcome, ok, err, ◌>>=◌, require, errno, cleanup_not_registered,
  unsupported_baud, unsupported_flow, unsupported_parity,
}
use nuhal.Uart.{
  UartFlow, hardware, software, no_flow, other_flow, UartParity, no_parity, odd, even, other_parity,
}
use nuhal.Uart.Host.{Posix, Termios}
use nuhal.Uart.Host.Ports.{
  Serial, PortNode, write, node_at, link, PortSystem, State, must, must_if_supported,
}

-- `strncmp(prefix, name, strlen(prefix)) == 0`
unfoldable pub starts_with : List ℕ → List ℕ → Bool
starts_with [] name = true
starts_with (c ∷ prefix) [] = false
starts_with (c ∷ prefix) (d ∷ name) = (c == d) && starts_with prefix name

-- "/dev/ttyUSB" and "/dev/ttyACM"
unfoldable pub usb_name : List ℕ → Bool
usb_name name =
    starts_with (47 ∷ 100 ∷ 101 ∷ 118 ∷ 47 ∷ 116 ∷ 116 ∷ 121 ∷ 85 ∷ 83 ∷ 66 ∷ []) name
    || starts_with (47 ∷ 100 ∷ 101 ∷ 118 ∷ 47 ∷ 116 ∷ 116 ∷ 121 ∷ 65 ∷ 67 ∷ 77 ∷ []) name

abbrev pub no_termios : Termios
no_termios = record { c_iflag = 0; c_oflag = 0; c_cflag = 0; c_lflag = 0; others = [] }

-- What `memset` leaves, with `self`.
abbrev pub blank_node : ℕ → PortNode
blank_node port = record {
  fd = 0;
  is_open = false;
  is_usb = false;
  old_tio = no_termios;
  old_serial = record { flags = 0; others = [] };
  next = none;
  prev = none;
  self = port;
}

abbrev without : ℕ → ℕ → ℕ
without flags mask = bit_and flags (2 ^ 32 - 1 - mask)

module _ {W : Type 0} (px : Posix W) (sys : PortSystem W) where
  -- The `switch` over the baud rate; `baud_codes` has the constants B9600 and so on.
  unfoldable pub baud_setting : ℕ → Outcome ℕ
  baud_setting baud =
      if baud == 9600
        || baud == 115200
        || baud == 230400
        || baud == 1000000
        || baud == 2000000
        || baud == 3000000
      then ok (sys.baud_codes baud)
      else err unsupported_baud

  unfoldable pub flow_setting : UartFlow → Termios → Outcome Termios
  flow_setting hardware t = ok record t {
    c_cflag = bit_or t.c_cflag sys.crtscts;
    c_iflag = without t.c_iflag (bit_or sys.ixon sys.ixoff);
  }
  flow_setting software t = ok record t {
    c_cflag = without t.c_cflag sys.crtscts;
    c_iflag = bit_or t.c_iflag (bit_or sys.ixon sys.ixoff);
  }
  flow_setting no_flow t = ok record t {
    c_cflag = without t.c_cflag sys.crtscts;
    c_iflag = without t.c_iflag (bit_or sys.ixon sys.ixoff);
  }
  flow_setting other_flow t = err unsupported_flow

  unfoldable pub parity_setting : UartParity → Termios → Outcome Termios
  parity_setting even t = ok record t { c_cflag = without (bit_or t.c_cflag px.parenb) px.parodd }
  parity_setting odd t = ok record t { c_cflag = bit_or t.c_cflag (bit_or px.parenb px.parodd) }
  parity_setting no_parity t = ok record t { c_cflag = without t.c_cflag px.parenb }
  parity_setting other_parity t = err unsupported_parity

  -- The `struct termios` that `uart_open` sets. Its other flags start as zeros, and those that are
  -- cleared stay so.
  unfoldable pub settings : ℕ → UartFlow → UartParity → Outcome Termios
  settings baud flow parity = do
    let t = record no_termios { c_cflag = bit_or (bit_or sys.cs8 sys.cread) sys.clocal }
    speed ← baud_setting baud
    t ← flow_setting flow t
    t ← parity_setting parity t
    let t = record t { c_cflag = bit_or (without t.c_cflag sys.csize) sys.cs8 }
    t ← require (sys.cfsetospeed t speed) errno
    require (sys.cfsetispeed t speed) errno

  -- The low latency and, but for a USB device, the RS485 mode.
  unfoldable pub set_latency : ℕ → Serial → W → Outcome W
  set_latency fd serial w =
      must_if_supported px sys
        (sys.set_serial fd (record serial { flags = bit_or serial.flags sys.low_latency }) w)

  unfoldable pub set_rs485_mode : ℕ → Bool → W → Outcome W
  set_rs485_mode fd is_usb w = if is_usb then ok w else do
    let (done, w) = sys.set_rs485 fd sys.rs485_flags w
    if done || px.errno_of w == sys.enotsup || px.errno_of w == sys.enotty then ok w else err errno

  -- `uart_open` from realpath() on: what it stores in the port, and the world.
  unfoldable pub set_up : List ℕ → ℕ → UartFlow → UartParity → PortNode → W → Outcome (PortNode × W)
  set_up name baud flow parity n w = do
    let (path, w) = sys.realpath name w
    realname ← require path errno
    let usb = usb_name realname
    let (descriptor, w) = sys.open_file realname w
    fd ← require descriptor errno
    let (attributes, w) = px.tcgetattr fd w
    tio ← require attributes errno
    let (old, w) = sys.get_serial fd w
    serial ← require old errno
    w ← set_latency fd serial w
    w ← set_rs485_mode fd usb w
    t ← settings baud flow parity
    w ← must px sys (px.tcsetattr fd t w)
    w ← must px sys (sys.tcflush fd (sys.usleep 1000 w))
    ok (record n { fd = fd; is_usb = usb; old_tio = tio; old_serial = serial }, w)

  -- The first call has the ports closed at the end of the program.
  unfoldable pub register_cleanup : Bool → W → Outcome W
  register_cleanup false w = ok w
  register_cleanup true w =
      let (done, w) = sys.atexit w in if done then ok w else err cleanup_not_registered

  -- `uart_open`: the port, and the program's state. `fuel` is the rounds of the loop over the list.
  unfoldable pub uart_open :
      ℕ → List ℕ → ℕ → UartFlow → UartParity → State W → Outcome (ℕ × State W)
  uart_open fuel name baud flow parity st = do
    w ← register_cleanup st.first_run st.world
    let (memory, w) = sys.malloc w
    port ← require memory errno
    (head, cells) ← link fuel port st.port_list_head (write st.cells port (some (blank_node port)))
    n ← node_at cells port
    (n, w) ← set_up name baud flow parity n w
    ok (
      port,
      record {
        first_run = false;
        port_list_head = head;
        cells = write cells port (some n);
        world = w;
      },
    )
