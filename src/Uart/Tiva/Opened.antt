-- ===== src/Uart/Tiva/Opened.antt =====
-- What `uart_open` of nuhal_tiva/src/uart_tiva.c comes to.
mod Tests
use nuhal.Common.{
  ℕ, ◌+◌, ◌-◌, ◌*◌, ◌/◌, ◌^◌, ◌≤◌, ◌<◌, ◌≡◌, ◌⊎◌, inl, inr, refl, ◌∙◌, ap, arith, Bool, true, false,
  ◌||◌, Option, none, some, List, ◌∷◌, ltb, leb, ◌==◌, if◌then◌else◌, bit_or, Outcome, ok, err,
  ◌>>=◌, Bool-cases, ne→==, Message, Settles, Settles-errors, Settles-bind, Returns-bind,
  invalid_uart, unsupported_parity, software_flow, unknown_flow, no_flow_control, not_enabled,
}
use nuhal.Memory.{byte_at, load_of_lt}
use nuhal.Time.Running.{IsRunning}
use nuhal.Uart.{
  UartFlow, hardware, software, no_flow, other_flow, UartParity, no_parity, odd, even, other_parity,
}
use nuhal.Pin.Setup.{Tivaware, enable, wait_ready, peripheral_enable}
use nuhal.Uart.Tiva.{UartLib, UartPort, flow_control, config, fifo_enable, rx_error_clear}
use nuhal.Uart.Tiva.Drained.{IsOpenable, IsDrained, byte_delay, drain-Returns}
use nuhal.Uart.Tiva.Control.{port_at, parity_setting, set_flow, uart_open}

-- Why an opening is refused: `first` is the first character of the name, from '0' to '7', and only the
-- UART '1' has flow control, by the hardware.
abbrev pub flow_refusal : Bool → UartFlow → Option Message
flow_refusal true hardware = none
flow_refusal true software = some software_flow
flow_refusal true no_flow = none
flow_refusal true other_flow = some unknown_flow
flow_refusal false hardware = some no_flow_control
flow_refusal false software = some no_flow_control
flow_refusal false no_flow = none
flow_refusal false other_flow = some no_flow_control

abbrev pub port_refusal : ℕ → UartFlow → UartParity → Option Message
port_refusal pindex flow other_parity = some unsupported_parity
port_refusal pindex flow no_parity = flow_refusal (pindex == 1) flow
port_refusal pindex flow odd = flow_refusal (pindex == 1) flow
port_refusal pindex flow even = flow_refusal (pindex == 1) flow

abbrev pub refusal : ℕ → UartFlow → UartParity → Option Message
refusal first flow parity =
    if ltb first 48 || leb 8 (first - 48)
    then some invalid_uart
    else port_refusal (first - 48) flow parity

module _ {S : Type 0} (lib : UartLib S) (tw : Tivaware S) where
  peripheral_enable-Settles :
      (p : ℕ) (s : S) → Settles (peripheral_enable tw p s) (λ _. Unit) (λ e. e ≡ not_enabled)
  unfolding peripheral_enable
  peripheral_enable-Settles p s = elim (Bool-cases (tw.peripheral_ready p s).0) [
    | inl ready ↦ rw (peripheral_enable, ready) tt
    | inr not_ready ↦
        let s1 = (tw.peripheral_ready p s).1 in
        elim (Bool-cases (0 == (wait_ready tw 100 p (tw.call (enable p) s1)).0)) [
          | inl failed ↦ rw (peripheral_enable, not_ready, failed) refl
          | inr enabled ↦ rw (peripheral_enable, not_ready, enabled) tt
        ]
  ]

  set_flow-Settles :
      (pindex base : ℕ) (flow : UartFlow) (s : S)
      → Settles
          (set_flow lib pindex base flow s)
          (λ _. flow_refusal (pindex == 1) flow ≡ none)
          (λ e. flow_refusal (pindex == 1) flow ≡ some e)
  unfolding set_flow
  set_flow-Settles pindex base flow s = by_port (pindex == 1) flow
    where
      by_port :
          (first : Bool) (flow : UartFlow)
          → Settles
              (elim first as (λ _. Outcome S) [
                | true ↦ elim flow [
                  | hardware ↦ ok (lib.call (flow_control base (bit_or lib.flow_tx lib.flow_rx)) s)
                  | software ↦ err software_flow
                  | no_flow ↦ ok (lib.call (flow_control base lib.flow_none) s)
                  | other_flow ↦ err unknown_flow
                ]
                | false ↦ elim flow [ no_flow ↦ ok s | _ ↦ err no_flow_control ]
              ])
              (λ _. flow_refusal first flow ≡ none)
              (λ e. flow_refusal first flow ≡ some e)
      by_port true hardware = refl
      by_port true software = refl
      by_port true no_flow = refl
      by_port true other_flow = refl
      by_port false hardware = refl
      by_port false software = refl
      by_port false no_flow = refl
      by_port false other_flow = refl

  parity_setting-Settles :
      (pindex : ℕ) (flow : UartFlow) (parity : UartParity)
      → Settles
          (parity_setting lib parity)
          (λ _. port_refusal pindex flow parity ≡ flow_refusal (pindex == 1) flow)
          (λ e. port_refusal pindex flow parity ≡ some e)
  unfolding parity_setting
  parity_setting-Settles pindex flow no_parity = refl
  parity_setting-Settles pindex flow odd = refl
  parity_setting-Settles pindex flow even = refl
  parity_setting-Settles pindex flow other_parity = refl

  -- The port of the name, which no rule refuses, with no character in, and its errors cleared after
  -- that.
  abbrev pub Opens : ℕ → UartFlow → UartParity → UartPort × S → Type 0
  Opens first flow parity (port, s') =
      (refusal first flow parity ≡ none)
      × (48 ≤ first)
      × (port.base ≡ byte_at lib.uart_bases (first - 48))
      × (port.sysctl ≡ byte_at lib.sysctl_uarts (first - 48))
      × ((drained : S) × IsDrained lib port.base drained
          × (s' ≡ lib.call (rx_error_clear port.base) drained))

  -- The rule that refuses the port, or a peripheral that does not get ready.
  abbrev pub Refuses : ℕ → UartFlow → UartParity → Message → Type 0
  Refuses first flow parity e = (refusal first flow parity ≡ some e) ⊎ (e ≡ not_enabled)

  module _ {limit : ℕ} (openable : IsOpenable lib limit) {slow most : ℕ}
      (running : IsRunning lib.time_current_us lib.time_period_us slow most) where
    port_at-ok :
        (i : ℕ)
        → i < 8
        → port_at lib i
          ≡ ok (record {
            base = byte_at lib.uart_bases i;
            sysctl = byte_at lib.sysctl_uarts i;
            int_base = byte_at lib.int_uarts i;
          })
    unfolding port_at
    port_at-ok i h =
        rw
          (
            load_of_lt lib.uart_bases i (omega (arith, openable.bases, h)),
            load_of_lt lib.sysctl_uarts i (omega (arith, openable.sysctls, h)),
            load_of_lt lib.int_uarts i (omega (arith, openable.ints, h)),
          )
          refl

    -- On the Tiva, for a name of at least one character, a baud rate above 0, tables with eight
    -- entries, at most limit characters that come in while the port is opened, a clock in us that
    -- runs, with less than 2^32 us for a delay of 10^7 / baud and the longest round, and more
    -- rounds than a round for each character and the rounds of one such delay: uart_open ends. It
    -- returns the base address and the peripheral of the UART that the first character of the name
    -- tells, in a state right after UARTCharsAvail told that no character is in and the errors
    -- were cleared, and then the first character is from 0 to 7, the parity is known, and the flow
    -- control is none or, on UART 1, by the hardware; or it ends in the error of the first of
    -- these rules that the arguments break; or in the error that the peripheral does not get
    -- ready.
    pub uart_open-Settles :
        (fuel clock_hz first baud : ℕ) (name : List ℕ) (flow : UartFlow) (parity : UartParity)
        (s : S)
        → 0 < baud
        → 10000000 / baud + slow < 2 ^ 32
        → limit + (10000000 / baud * (most + 1) + most) < fuel
        → Settles
            (uart_open lib fuel tw clock_hz (first ∷ name) baud flow parity s)
            (Opens first flow parity)
            (Refuses first flow parity)
    unfolding uart_open
    uart_open-Settles fuel clock_hz first baud name flow parity s positive short enough =
        elim (Bool-cases (ltb first 48 || leb 8 (first - 48))) [
          | inl outside ↦
              rw (uart_open, outside)
                (inl (
                  ap (λ b. if b then some invalid_uart else port_refusal (first - 48) flow parity)
                    outside))
          | inr inside ↦
              rw
                (
                  uart_open,
                  inside,
                  port_at-ok (first - 48) (below first inside),
                  ne→== baud 0 (λ e. omega (arith, e, positive)),
                )
                (Settles-bind _ _ (λ _. Unit) (Opens first flow parity) (Refuses first flow parity)
                  (Settles-errors (peripheral_enable tw p s) (λ _. Unit) (λ e. e ≡ not_enabled) _
                    (peripheral_enable-Settles p s) (λ e h. inr h))
                  λ s1 _.
                    Settles-bind _ _ (λ _. by_index) (Opens first flow parity)
                      (Refuses first flow parity)
                      (Settles-errors (parity_setting lib parity) _ _ _
                        (parity_setting-Settles (first - 48) flow parity)
                        (λ e h. inl (legal inside ∙ h)))
                      λ parset by_flow.
                        Settles-bind _ _ (λ _. allowed) (Opens first flow parity)
                          (Refuses first flow parity)
                          (Settles-errors
                            (set_flow lib (first - 48) base flow (configured parset s1))
                            (λ _. allowed) (λ e. flow_refusal ((first - 48) == 1) flow ≡ some e)
                            (Refuses first flow parity)
                            (set_flow-Settles (first - 48) base flow (configured parset s1))
                            (λ e h. inl (legal inside ∙ by_flow ∙ h)))
                          λ s2 free.
                            Returns-bind _ _ (λ s'. openable.noise s' ≤ openable.noise s2)
                              (Opens first flow parity) (Refuses first flow parity)
                              (byte_delay lib openable running (10000000 / baud) short fuel s2
                                (omega (arith, enough)))
                              λ s3 _.
                                Returns-bind _
                                  (λ s'. ok (opened, lib.call (rx_error_clear base) s'))
                                  (IsDrained lib base) (Opens first flow parity)
                                  (Refuses first flow parity)
                                  (drain-Returns lib openable running (10000000 / baud) short base
                                    fuel s3 (omega (arith, openable.bounded s3, enough)))
                                  λ s4 drained. (
                                    legal inside ∙ by_flow ∙ free,
                                    digit first inside,
                                    refl,
                                    refl,
                                    (s4, drained, refl),
                                  ))
        ]
      where
        base : ℕ
        base = byte_at lib.uart_bases (first - 48)

        p : ℕ
        p = byte_at lib.sysctl_uarts (first - 48)

        opened : UartPort
        opened = record { base = base; sysctl = p; int_base = byte_at lib.int_uarts (first - 48) }

        configured : ℕ → S → S
        configured parset s' = lib.call (fifo_enable base) (
            lib.call (config base clock_hz baud (bit_or (bit_or lib.wlen_8 lib.stop_one) parset))
              s')

        by_index : Type 0
        by_index = port_refusal (first - 48) flow parity ≡ flow_refusal ((first - 48) == 1) flow

        allowed : Type 0
        allowed = flow_refusal ((first - 48) == 1) flow ≡ none

        legal :
            (ltb first 48 || leb 8 (first - 48)) ≡ false
            → refusal first flow parity ≡ port_refusal (first - 48) flow parity
        legal inside =
            ap (λ b. if b then some invalid_uart else port_refusal (first - 48) flow parity) inside

        digit : (first : ℕ) → (ltb first 48 || leb 8 (first - 48)) ≡ false → 48 ≤ first
        digit first h = ground arith

        below : (first : ℕ) → (ltb first 48 || leb 8 (first - 48)) ≡ false → first - 48 < 8
        below first h = ground arith
