-- ===== src/Uart/Host/Ports/Lifetime.antt =====
-- `uart_open`, `uart_close` and `uart_cleanup` of nuhal_linux/src/uart_host.c over the list of open ports
-- and the calls of the system.
use nuhal.Common.{
  ℕ, zero, suc, ◌≤◌, ◌≡◌, refl, sym, ◌∙◌, ap, arith, Bool, true, false, Option, none, some, List,
  [], ◌∷◌, ◌++◌, length, ◌==◌, Outcome, err, ◌>>=◌, Bool-cases, inl, inr, Ptr, Message, errno,
  bit_and, ◌-◌, ◌^◌, Returns-ok, Settles, Settles-mono, Settles-bind, append_assoc, append-nil,
}
use nuhal.Uart.Host.{Posix, Polled, failed, timed_out, ready, Termios}
use nuhal.Uart.Host.Ports.{
  Serial, PortNode, Heap, unlink, PortSystem, State, must, must_if_supported, flush_writes,
  shut_down, uart_close, close_all, uart_cleanup,
}
use nuhal.Uart.Host.Ports.Chain.{Ports, Chain, IsPortList, node_at-ok}
use nuhal.Uart.Host.Ports.Close.{middle}
use nuhal.Uart.Host.Ports.Listed.{node_of, unlink-IsPortList}

-- Which descriptors were closed, in order: each call of close() tries to close one, and no other call
-- does.
pub record Log {W : Type 0} (px : Posix W) (sys : PortSystem W) : Type 0 where
  pub closed : W → List ℕ
  pub by_close : (fd : ℕ) (w : W) → closed (sys.close fd w).1 ≡ closed w ++ fd ∷ []
  pub by_poll :
      (fd events : ℕ) (limit : Option ℕ) (w : W) → closed (px.poll fd events limit w).1 ≡ closed w
  pub by_tcgetattr : (fd : ℕ) (w : W) → closed (px.tcgetattr fd w).1 ≡ closed w
  pub by_tcsetattr : (fd : ℕ) (t : Termios) (w : W) → closed (px.tcsetattr fd t w).1 ≡ closed w
  pub by_drain : (fd : ℕ) (t : Termios) (w : W) → closed (sys.tcsetattr_drain fd t w).1 ≡ closed w
  pub by_tcflush : (fd : ℕ) (w : W) → closed (sys.tcflush fd w).1 ≡ closed w
  pub by_set_serial : (fd : ℕ) (s : Serial) (w : W) → closed (sys.set_serial fd s w).1 ≡ closed w

-- The error of a call of the system.
abbrev pub IsErrno : Message → Type 0
IsErrno e = e ≡ errno

abbrev pub descriptors : Ports → List ℕ
descriptors [] = []
descriptors ((x, d) ∷ xs) = d ∷ descriptors xs

abbrev first : Ports → Ptr ℕ
first [] = none
first ((x, d) ∷ xs) = some x

first-head :
    (cells : Heap) (prev head : Ptr ℕ) (xs : Ports) → Chain cells prev head xs → head ≡ first xs
first-head cells prev head [] e = e
first-head cells prev head ((x, d) ∷ xs) (e, n, at, back, own, fd, rest) = e

next_port :
    (cells : Heap) (x d : ℕ) (n : PortNode)
    → cells x ≡ some n
    → (head : Ptr ℕ) (xs : Ports) → Chain cells none head ((x, d) ∷ xs)
    → n.next ≡ first xs
next_port cells x d n at head xs chain =
    let (_, _, _, rest) = middle cells x d n at none head [] xs chain in
    first-head cells (some x) n.next xs rest

module _ {W : Type 0} (px : Posix W) (sys : PortSystem W) (log : Log px sys) where
  must-Settles : (r : Bool × W) → Settles (must px sys r) (λ w. w ≡ r.1) IsErrno
  unfolding must
  must-Settles (true, w) = refl
  must-Settles (false, w) = refl

  must_if_supported-Settles :
      (r : Bool × W) → Settles (must_if_supported px sys r) (λ w. w ≡ r.1) IsErrno
  unfolding must_if_supported
  must_if_supported-Settles (true, w) = refl
  must_if_supported-Settles (false, w) = elim (Bool-cases (px.errno_of w == sys.enotsup)) [
    | inl unsupported ↦ rw (must_if_supported, unsupported) refl
    | inr other ↦ rw (must_if_supported, other) refl
  ]

  flush_writes-Settles :
      (fd : ℕ) (r : Polled × W)
      → Settles (flush_writes px sys fd r) (λ w. log.closed w ≡ log.closed (r.1)) IsErrno
  unfolding flush_writes
  flush_writes-Settles fd (failed, w) = refl
  flush_writes-Settles fd (ready revents, w) = refl
  flush_writes-Settles fd (timed_out, w) = after (px.tcgetattr fd w) (log.by_tcgetattr fd w)
    where
      after :
          (r : Option Termios × W)
          → log.closed (r.1) ≡ log.closed w
          → Settles
              (elim r.0 as (λ _. Outcome W) [
                | none ↦ err errno
                | some tio ↦ do
                  w' ← must px sys (
                      px.tcsetattr fd
                        (record tio { c_cflag = bit_and tio.c_cflag (2 ^ 32 - 1 - sys.crtscts) })
                        r.1)
                  must px sys (sys.tcflush fd w')
              ])
              (λ w'. log.closed w' ≡ log.closed w)
              IsErrno
      after (none, w1) e = refl
      after (some tio, w1) e =
          let t = record tio { c_cflag = bit_and tio.c_cflag (2 ^ 32 - 1 - sys.crtscts) } in
          Settles-bind (must px sys (px.tcsetattr fd t w1)) _ _ (λ w'. log.closed w' ≡ log.closed w)
            IsErrno (must-Settles (px.tcsetattr fd t w1))
            λ w2 e2.
              Settles-mono (must px sys (sys.tcflush fd w2)) _ (λ w'. log.closed w' ≡ log.closed w)
                IsErrno (must-Settles (sys.tcflush fd w2))
                λ w3 e3.
                  ap log.closed e3
                  ∙ (log.by_tcflush fd w2 ∙ (ap log.closed e2 ∙ (log.by_tcsetattr fd t w1 ∙ e)))

  shut_down-Settles :
      (n : PortNode) (w : W)
      → Settles (shut_down px sys n w) (λ w'. log.closed w' ≡ log.closed w ++ n.fd ∷ []) IsErrno
  unfolding shut_down
  shut_down-Settles n w =
      let r = px.poll n.fd 0 (some 200) w in
      Settles-bind (flush_writes px sys n.fd r) _ _ Closed IsErrno (flush_writes-Settles n.fd r)
        λ w1 e1.
          let r1 = sys.tcsetattr_drain n.fd n.old_tio w1 in
          Settles-bind (must_if_supported px sys r1) _ _ Closed IsErrno
            (must_if_supported-Settles r1)
            λ w2 e2.
              let r2 = sys.set_serial n.fd n.old_serial w2 in
              Settles-bind (must_if_supported px sys r2) _ _ Closed IsErrno
                (must_if_supported-Settles r2)
                λ w3 e3.
                  let r3 = sys.close n.fd w3 in
                  Settles-mono (must px sys r3) _ Closed IsErrno (must-Settles r3) λ w4 e4.
                    ap log.closed e4
                    ∙ (log.by_close n.fd w3
                        ∙ ap (λ (t : List ℕ). t ++ n.fd ∷ [])
                            (ap log.closed e3
                              ∙ (log.by_set_serial n.fd n.old_serial w2
                                  ∙ (ap log.closed e2
                                      ∙ (log.by_drain n.fd n.old_tio w1
                                          ∙ (e1 ∙ log.by_poll n.fd 0 (some 200) w))))))
    where
      Closed : W → Type 0
      Closed w' = log.closed w' ≡ log.closed w ++ n.fd ∷ []

  -- On Linux, where the open ports are a list linked in both directions and each call of close()
  -- is logged, uart_close of one of them returns, or ends in the error of a system call. If it
  -- returns, the other ports are a list that is linked in the same way, in the same order, the
  -- structure is freed, and close() was called once, with the descriptor of the port.
  pub uart_close-IsPortList :
      (p d : ℕ) (ys zs : Ports) (st : State W)
      → IsPortList st.cells st.port_list_head (ys ++ (p, d) ∷ zs)
      → Settles
          (uart_close px sys p st)
          (λ st'.
            IsPortList st'.cells st'.port_list_head (ys ++ zs)
            × (st'.cells p ≡ none)
            × (log.closed st'.world ≡ log.closed st.world ++ d ∷ []))
          IsErrno
  unfolding uart_close
  uart_close-IsPortList p d ys zs st list =
      let (n, at, fd) = node_of st.cells p d none st.port_list_head ys zs list.chain in
      rw (node_at-ok st.cells p n at) (
        Settles-bind (shut_down px sys n st.world) _ _ After IsErrno (shut_down-Settles n st.world)
          λ w closed.
            let ((head, cells), e, (after, gone)) =
              Returns-ok (unlink p st.port_list_head st.cells) _
                (unlink-IsPortList st.cells p d st.port_list_head ys zs list) in
            rw e (after, gone, closed ∙ ap (λ t. log.closed st.world ++ t ∷ []) fd))
    where
      After : State W → Type 0
      After st' =
          IsPortList st'.cells st'.port_list_head (ys ++ zs)
          × (st'.cells p ≡ none)
          × (log.closed st'.world ≡ log.closed st.world ++ d ∷ [])

  -- No port is open, and the descriptors of all were closed, in their order.
  abbrev pub AllClosed : Ports → State W → State W → Type 0
  AllClosed xs st st' =
      (st'.port_list_head ≡ none) × (log.closed st'.world ≡ log.closed st.world ++ descriptors xs)

  close_all-Settles :
      (fuel : ℕ) (xs : Ports) (curr : Ptr ℕ) (st : State W)
      → curr ≡ st.port_list_head
      → IsPortList st.cells st.port_list_head xs
      → length xs ≤ fuel
      → Settles (close_all px sys fuel curr st) (AllClosed xs st) IsErrno
  unfolding close_all
  close_all-Settles fuel [] curr st e list enough =
      rw (e ∙ list.chain) (list.chain, sym (append-nil (log.closed st.world)))
  close_all-Settles zero (x ∷ xs) curr st e list enough = absurd (omega (arith, enough))
  close_all-Settles (suc fuel) ((x, d) ∷ xs) curr st e list enough =
      let (n, at, _) = node_of st.cells x d none st.port_list_head [] xs list.chain in
      rw (e ∙ list.chain.0, node_at-ok st.cells x n at)
        (Settles-bind (uart_close px sys x st) _ _ (AllClosed ((x, d) ∷ xs) st) IsErrno
          (uart_close-IsPortList x d [] xs st list)
          λ st' (list', _, closed).
            Settles-mono (close_all px sys fuel n.next st') (AllClosed xs st')
              (AllClosed ((x, d) ∷ xs) st) IsErrno
              (close_all-Settles fuel xs n.next st'
                (next_port st.cells x d n at st.port_list_head xs list.chain
                  ∙ sym (first-head st'.cells none st'.port_list_head xs list'.chain))
                list' (omega (arith, enough)))
              λ st'' (empty, closed'). (
                empty,
                closed'
                    ∙ (ap (λ (t : List ℕ). t ++ descriptors xs) closed
                        ∙ append_assoc (log.closed st.world) (d ∷ []) (descriptors xs)),
              ))

  -- On Linux, where the open ports are a list linked in both directions and each call of close()
  -- is logged, uart_cleanup ends, given a round for each port, in the error of a system call, or
  -- with no open port, when close() was called with the descriptor of each port, once for each and
  -- in the order in which they were opened.
  pub uart_cleanup-closes :
      (fuel : ℕ) (xs : Ports) (st : State W)
      → IsPortList st.cells st.port_list_head xs
      → length xs ≤ fuel
      → Settles (uart_cleanup px sys fuel st) (AllClosed xs st) IsErrno
  unfolding uart_cleanup
  uart_cleanup-closes fuel xs st list enough =
      close_all-Settles fuel xs st.port_list_head st refl list enough
