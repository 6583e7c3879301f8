-- ===== src/Uart/Host/Ports/Opened.antt =====
-- What `uart_open` of nuhal_linux/src/uart_host.c leaves of the list of open ports.
use nuhal.Common.{
  ℕ, ◌<◌, ◌≡◌, refl, sym, ◌∙◌, ap, arith, false, none, some, List, [], ◌∷◌, ◌++◌, length, ok, Ptr,
  errno, bit_or, Returns-ok, require, Settles, Settles-bind,
}
use nuhal.Uart.{UartFlow, UartParity}
use nuhal.Uart.Host.{Posix, Termios}
use nuhal.Uart.Host.Ports.{PortNode, Heap, write, link, PortSystem, State, must, must_if_supported}
use nuhal.Uart.Host.Ports.Chain.{
  Ports, has, Distinct, Chain, IsPortList, has-append, node_at-ok, write-other, frame, apart_of_has,
}
use nuhal.Uart.Host.Ports.Close.{some_inj}
use mathlib.Core.Path.{subst}
use nuhal.Uart.Host.Ports.Calls.{
  after, require-Definite, require-some, Got, Done, Accepted, SetsMode, Registers, must-Done,
  must_if_supported-Accepted, set_rs485_mode-SetsMode, register_cleanup-Registers, must-Definite,
  must_if_supported-Definite, settings-Definite, set_rs485_mode-Definite, register_cleanup-Definite,
}
use nuhal.Uart.Host.Ports.Link.{link-IsPortList}
use nuhal.Uart.Host.Ports.Listed.{node_of}
use nuhal.Uart.Host.Ports.Open.{
  blank_node, usb_name, settings, set_latency, set_rs485_mode, set_up, register_cleanup, uart_open,
}

-- A port whose structure gets a new descriptor and keeps its place.
refit-Chain :
    (cells : Heap) (a d : ℕ) (n n' : PortNode) (prev head : Ptr ℕ) (ys zs : Ports)
    → cells a ≡ some n
    → n'.next ≡ n.next
    → n'.prev ≡ n.prev
    → n'.self ≡ n.self
    → Chain cells prev head (ys ++ (a, d) ∷ zs)
    → Distinct (ys ++ (a, d) ∷ zs)
    → Chain (write cells a (some n')) prev head (ys ++ (a, n'.fd) ∷ zs)
refit-Chain cells a d n n' prev head [] zs at next back self (e, m, at', back', own, fd, rest)
      apart =
    let same = some_inj n m (sym at ∙ at') in
    (
      e,
      n',
      ground arith,
      back ∙ (ap (λ (k : PortNode). k.prev) same ∙ back'),
      self ∙ (ap (λ (k : PortNode). k.self) same ∙ own),
      refl,
      subst (λ (q : Ptr ℕ). Chain (write cells a (some n')) (some a) q zs)
          (sym (next ∙ ap (λ (k : PortNode). k.next) same))
          (frame cells (write cells a (some n')) (some a) m.next zs rest
            λ b i. write-other cells a b (some n') (ground (arith, apart_of_has a b zs apart.0 i))),
    )
refit-Chain cells a d n n' prev head ((y, d') ∷ ys) zs at next back self
      (e, m, at', back', own, fd, rest) apart =
    (
      e,
      m,
      write-other cells a y (some n') (ground (arith, has-append y ys ((a, d) ∷ zs), apart.0))
          ∙ at',
      back',
      own,
      fd,
      refit-Chain cells a d n n' (some y) m.next ys zs at next back self rest apart.1,
    )

refit-Distinct :
    (a d d' : ℕ) (ys zs : Ports) → Distinct (ys ++ (a, d) ∷ zs) → Distinct (ys ++ (a, d') ∷ zs)
refit-Distinct a d d' [] zs h = h
refit-Distinct a d d' ((y, e) ∷ ys) zs h = (
  has-append y ys ((a, d') ∷ zs) ∙ (sym (has-append y ys ((a, d) ∷ zs)) ∙ h.0),
  refit-Distinct a d d' ys zs h.1,
)

module _ {W : Type 0} (px : Posix W) (sys : PortSystem W) where
  -- How the set-up of a port goes from the world `w` to the world `w'`, with what the structure `n` holds
  -- after it: the descriptor that open() gave for the resolved name, the settings that were there, and
  -- those for the rate, flow control and parity in force.
  abbrev pub SetsUp : List ℕ → ℕ → UartFlow → UartParity → W → PortNode → W → Type 0
  SetsUp name baud flow parity w n w' =
      (realname : List ℕ) × (w1 : W) × Got (sys.realpath name w) realname w1
      × (n.is_usb ≡ usb_name realname)
      × (w2 : W) × Got (sys.open_file realname w1) n.fd w2
      × (w3 : W) × Got (px.tcgetattr n.fd w2) n.old_tio w3
      × (w4 : W) × Got (sys.get_serial n.fd w3) n.old_serial w4
      × (w5 : W) × Accepted px sys
          (sys.set_serial n.fd
            (record n.old_serial { flags = bit_or n.old_serial.flags sys.low_latency }) w4)
          w5
      × (w6 : W) × SetsMode px sys n.fd n.is_usb w5 w6
      × (t : Termios) × (settings px sys baud flow parity ≡ ok t)
      × (w7 : W) × Done (px.tcsetattr n.fd t w6) w7
      × Done (sys.tcflush n.fd (sys.usleep 1000 w7)) w'

  -- The structure keeps its place in the list, and is set up.
  abbrev IsSetUp : List ℕ → ℕ → UartFlow → UartParity → PortNode → W → PortNode × W → Type 0
  IsSetUp name baud flow parity n w (n', w') =
      (n'.next ≡ n.next)
      × (n'.prev ≡ n.prev)
      × (n'.self ≡ n.self)
      × SetsUp name baud flow parity w n' w'

  set_up-IsSetUp :
      (name : List ℕ) (baud : ℕ) (flow : UartFlow) (parity : UartParity) (n : PortNode) (w : W)
      → Settles
          (set_up px sys name baud flow parity n w)
          (IsSetUp name baud flow parity n w)
          (λ _. Unit)
  unfolding set_up set_latency
  set_up-IsSetUp name baud flow parity n w =
      let (path, w) = sys.realpath name w in
      after (require path errno) _ P (require-Definite path errno) λ realname e0.
        let (descriptor, w) = sys.open_file realname w in
        after (require descriptor errno) _ P (require-Definite descriptor errno) λ fd e1.
          let (attributes, w) = px.tcgetattr fd w in
          after (require attributes errno) _ P (require-Definite attributes errno) λ tio e2.
            let (old, w) = sys.get_serial fd w in
            after (require old errno) _ P (require-Definite old errno) λ serial e3.
              let r =
                sys.set_serial fd (record serial { flags = bit_or serial.flags sys.low_latency })
                  w in
              after (must_if_supported px sys r) _ P (must_if_supported-Definite px sys r) λ w5 e4.
                after (set_rs485_mode px sys fd (usb_name realname) w5) _ P
                  (set_rs485_mode-Definite px sys fd (usb_name realname) w5)
                  λ w6 e5.
                    after (settings px sys baud flow parity) _ P
                      (settings-Definite px sys baud flow parity)
                      λ t is.
                        let r3 = px.tcsetattr fd t w6 in
                        after (must px sys r3) _ P (must-Definite px sys r3) λ w7 e6.
                          let r4 = sys.tcflush fd (sys.usleep 1000 w7) in
                          after (must px sys r4) _ P (must-Definite px sys r4) λ w8 e7. (
                            refl,
                            refl,
                            refl,
                            (
                              realname,
                              _,
                              (require-some path realname e0, refl),
                              refl,
                              _,
                              (require-some descriptor fd e1, refl),
                              _,
                              (require-some attributes tio e2, refl),
                              _,
                              (require-some old serial e3, refl),
                              w5,
                              must_if_supported-Accepted px sys r w5 e4,
                              w6,
                              set_rs485_mode-SetsMode px sys fd (usb_name realname) w5 w6 e5,
                              t,
                              is,
                              w7,
                              must-Done px sys r3 w7 e6,
                              must-Done px sys r4 w8 e7,
                            ),
                          )
    where
      P : PortNode × W → Type 0
      P = IsSetUp name baud flow parity n w

  -- The new port `a` is the last of the list, with the structure that was set up.
  abbrev pub IsOpened : List ℕ → ℕ → UartFlow → UartParity → Ports → State W → ℕ × State W → Type 0
  IsOpened name baud flow parity xs st (a, st') =
      (n : PortNode) × IsPortList st'.cells st'.port_list_head (xs ++ (a, n.fd) ∷ [])
      × (st'.cells a ≡ some n)
      × (st'.first_run ≡ false)
      × (w0 : W) × Registers px sys st.first_run st.world w0
      × (w1 : W) × Got (sys.malloc w0) a w1
      × SetsUp name baud flow parity w1 n st'.world

  -- On Linux, where the open ports are a list linked in both directions and malloc() gives no
  -- structure that is in it, uart_open, with a round for each open port and one more, returns or
  -- ends in an error. If it returns, atexit() has succeeded if this was the first call, and the
  -- new port is the structure that malloc() gave, at the end of a list that is linked in the same
  -- way. It holds the descriptor that open() gave for the resolved name, whether that is the name
  -- of a USB device, and the attributes and the serial settings that were read from the
  -- descriptor. On the descriptor, in this order: the low latency was set or is not supported; the
  -- RS485 mode was set or is not supported, but for a USB device; tcsetattr() has put into force
  -- the settings that the code has for the rate, flow control and parity; and tcflush() has
  -- succeeded after 1 ms.
  pub uart_open-IsPortList :
      (fuel : ℕ) (name : List ℕ) (baud : ℕ) (flow : UartFlow) (parity : UartParity) (xs : Ports)
      (st : State W)
      → IsPortList st.cells st.port_list_head xs
      → ((w : W) (a : ℕ) → (sys.malloc w).0 ≡ some a → has a xs ≡ false)
      → length xs < fuel
      → Settles
          (uart_open px sys fuel name baud flow parity st)
          (IsOpened name baud flow parity xs st)
          (λ _. Unit)
  unfolding uart_open
  uart_open-IsPortList fuel name baud flow parity xs st list fresh enough =
      after (register_cleanup px sys st.first_run st.world) _ P
        (register_cleanup-Definite px sys st.first_run st.world)
        λ w0 registered.
          after (require (sys.malloc w0).0 errno) _ P (require-Definite (sys.malloc w0).0 errno)
            λ a is_new.
              let cells0 = write st.cells a (some (blank_node a)) in
              let out = fresh w0 a (require-some (sys.malloc w0).0 a is_new) in
              let listed : IsPortList cells0 st.port_list_head xs = record {
                chain = frame st.cells cells0 none st.port_list_head xs list.chain λ b i.
                    write-other st.cells a b (some (blank_node a))
                      (ground (arith, apart_of_has a b xs out i));
                distinct = list.distinct;
              } in
              let ((head, cells1), linked, list1) =
                Returns-ok (link fuel a st.port_list_head cells0) _ (
                  link-IsPortList cells0 a (blank_node a) fuel st.port_list_head xs listed
                    (ground arith) out refl refl refl enough) in
              let (n, at, _) = node_of cells1 a 0 none head xs [] list1.chain in
              rw (linked, node_at-ok cells1 a n at)
                (Settles-bind (set_up px sys name baud flow parity n (sys.malloc w0).1) _ _ P
                  (λ _. Unit) (set_up-IsSetUp name baud flow parity n (sys.malloc w0).1)
                  λ (n', w') (next, back, self, how). (
                    n',
                    record {
                      chain =
                          refit-Chain cells1 a 0 n n' none head xs [] at next back self list1.chain
                            list1.distinct;
                      distinct = refit-Distinct a 0 n'.fd xs [] list1.distinct;
                    },
                    ground arith,
                    refl,
                    w0,
                    register_cleanup-Registers px sys st.first_run st.world w0 registered,
                    (sys.malloc w0).1,
                    (require-some (sys.malloc w0).0 a is_new, refl),
                    how,
                  ))
    where
      P : ℕ × State W → Type 0
      P = IsOpened name baud flow parity xs st
