-- ===== src/Uart/Host/Ports.antt =====
-- The list of open ports of nuhal_linux/src/uart_host.c: a heap of port structures that are linked in
-- both directions, by address. A step that reads through a pointer to no structure is undefined.
pub mod Open
pub mod Chain
pub mod Link
pub mod Unlink
pub mod Close
pub mod Listed
pub mod Lifetime
pub mod Calls
pub mod Opened
mod Tests
use nuhal.Common.{
  ℕ, zero, suc, ◌-◌, ◌^◌, Bool, true, false, Option, none, some, List, [], ◌∷◌, ◌==◌, if◌then◌else◌,
  bit_and, Outcome, ok, err, undefined, unfinished, ◌>>=◌, Ptr, errno,
}
use nuhal.Uart.Host.{Posix, Polled, failed, timed_out, ready, Termios}

-- `struct serial_struct`, the flags and the rest.
pub record Serial : Type 0 where
  pub flags : ℕ
  pub others : List ℕ

-- `struct uart_port`
pub record PortNode : Type 0 where
  pub fd : ℕ
  pub is_open : Bool
  pub is_usb : Bool
  pub old_tio : Termios
  pub old_serial : Serial
  pub next : Ptr ℕ
  pub prev : Ptr ℕ
  pub self : ℕ

abbrev pub Heap : Type 0
Heap = ℕ → Option PortNode

abbrev pub write : Heap → ℕ → Option PortNode → Heap
write cells a c b = if b == a then c else cells b

-- `*p`
unfoldable pub node_at : Heap → ℕ → Outcome PortNode
node_at cells p = elim (cells p) [ none ↦ undefined | some n ↦ ok n ]

-- `p->next = q` and `p->prev = q`
unfoldable pub set_next : ℕ → Ptr ℕ → Heap → Outcome Heap
set_next p q cells = do n ← node_at cells p; ok (write cells p (some (record n { next = q })))

unfoldable pub set_prev : ℕ → Ptr ℕ → Heap → Outcome Heap
set_prev p q cells = do n ← node_at cells p; ok (write cells p (some (record n { prev = q })))

-- The loop of `uart_open` to the end of the list.
unfoldable pub last_port : ℕ → Heap → ℕ → Outcome ℕ
last_port zero cells curr = unfinished
last_port (suc fuel) cells curr = do
  n ← node_at cells curr
  elim n.next [ none ↦ ok curr | some q ↦ last_port fuel cells q ]

-- `uart_open` adds the structure at `port` to the list: the new `port_list_head`, and the heap.
unfoldable pub link : ℕ → ℕ → Ptr ℕ → Heap → Outcome (Ptr ℕ × Heap)
link fuel port none cells = ok (some port, cells)
link fuel port (some head) cells = do
  curr ← last_port fuel cells head
  cells ← set_next curr (some port) cells
  cells ← set_prev port (some curr) cells
  ok (some head, cells)

abbrev pub points_to : Ptr ℕ → ℕ → Bool
points_to none p = false
points_to (some h) p = h == p

-- `uart_close` takes the structure at `port` out of the list and gives it back.
unfoldable pub unlink : ℕ → Ptr ℕ → Heap → Outcome (Ptr ℕ × Heap)
unlink port head cells = do
  n ← node_at cells port
  cells ← elim n.prev [ none ↦ ok cells | some q ↦ set_next q n.next cells ]
  n ← node_at cells port
  cells ← elim n.next [ none ↦ ok cells | some q ↦ set_prev q n.prev cells ]
  n ← node_at cells port
  ok (if points_to head port then n.next else head, write cells n.self none)

-- The calls of the system that opening and closing need beside those in `Posix`.
pub record PortSystem (W : Type 0) : Type 0 where
  pub atexit : W → Bool × W
  pub malloc : W → Option ℕ × W
  pub realpath : List ℕ → W → Option (List ℕ) × W
  pub open_file : List ℕ → W → Option ℕ × W
  pub close : ℕ → W → Bool × W
  pub tcflush : ℕ → W → Bool × W
  pub tcsetattr_drain : ℕ → Termios → W → Bool × W
  pub get_serial : ℕ → W → Option Serial × W
  pub set_serial : ℕ → Serial → W → Bool × W
  pub set_rs485 : ℕ → ℕ → W → Bool × W
  pub usleep : ℕ → W → W
  pub cfsetospeed : Termios → ℕ → Option Termios
  pub cfsetispeed : Termios → ℕ → Option Termios
  pub enotsup : ℕ
  pub enotty : ℕ
  pub low_latency : ℕ
  pub rs485_flags : ℕ
  pub crtscts : ℕ
  pub ixon : ℕ
  pub ixoff : ℕ
  pub cs8 : ℕ
  pub cread : ℕ
  pub clocal : ℕ
  pub csize : ℕ
  pub baud_codes : ℕ → ℕ

-- The static variables of the file, the heap and the world.
pub record State (W : Type 0) : Type 0 where
  pub first_run : Bool
  pub port_list_head : Ptr ℕ
  pub cells : Heap
  pub world : W

module _ {W : Type 0} (px : Posix W) (sys : PortSystem W) where
  -- A call whose failure is an error, and one whose failure is none if it is not supported.
  unfoldable pub must : Bool × W → Outcome W
  must (done, w) = if done then ok w else err errno

  unfoldable pub must_if_supported : Bool × W → Outcome W
  must_if_supported (done, w) =
      if done then ok w else if px.errno_of w == sys.enotsup then ok w else err errno

  -- `uart_close` waits for what is to be written, and after a timeout drops it, without flow control.
  unfoldable pub flush_writes : ℕ → Polled × W → Outcome W
  flush_writes fd (failed, w) = err errno
  flush_writes fd (ready revents, w) = ok w
  flush_writes fd (timed_out, w) =
      let (attributes, w) = px.tcgetattr fd w in
      elim attributes [
        | none ↦ err errno
        | some tio ↦ do
          w ← must (
              px.tcsetattr fd
                (record tio { c_cflag = bit_and tio.c_cflag (2 ^ 32 - 1 - sys.crtscts) }) w)
          must (sys.tcflush fd w)
      ]

  -- The calls of `uart_close` on the descriptor. It asks poll() for no events.
  unfoldable pub shut_down : PortNode → W → Outcome W
  shut_down n w = do
    w ← flush_writes n.fd (px.poll n.fd 0 (some 200) w)
    w ← must_if_supported (sys.tcsetattr_drain n.fd n.old_tio w)
    w ← must_if_supported (sys.set_serial n.fd n.old_serial w)
    must (sys.close n.fd w)

  -- `uart_close`
  unfoldable pub uart_close : ℕ → State W → Outcome (State W)
  uart_close port st = do
    n ← node_at st.cells port
    w ← shut_down n st.world
    (head, cells) ← unlink port st.port_list_head st.cells
    ok (record st { port_list_head = head; cells = cells; world = w })

  -- The loop of `uart_cleanup`
  unfoldable pub close_all : ℕ → Ptr ℕ → State W → Outcome (State W)
  close_all fuel none st = ok st
  close_all zero (some curr) st = unfinished
  close_all (suc fuel) (some curr) st = do
    n ← node_at st.cells curr
    st ← uart_close curr st
    close_all fuel n.next st

  unfoldable pub uart_cleanup : ℕ → State W → Outcome (State W)
  uart_cleanup fuel st = close_all fuel st.port_list_head st
