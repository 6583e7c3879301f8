-- ===== src/Uart/Tiva/Control.antt =====
-- The rest of nuhal_tiva/src/uart_tiva.c: opening and closing a UART, the break signal, and passing
-- through what two UARTs receive.

use nuhal.Common.{
  ℕ, zero, suc, ◌-◌, ◌/◌, ◌^◌, Bool, true, false, not, ◌&&◌, ◌||◌, Option, none, some, List, [],
  ◌∷◌, ltb, leb, ◌==◌, if◌then◌else◌, bit_and, bit_or, u8, add32, Outcome, ok, err, undefined,
  unfinished, ◌>>=◌, Ptr, require, load, null_ptr, null_pointer, invalid_uart, unsupported_parity,
  software_flow, unknown_flow, no_flow_control, break_timeout,
}
use nuhal.Time.{TimeElapsed, elapsed_init, time_elapsed}
use nuhal.Uart.{
  UartFlow, hardware, software, no_flow, other_flow, UartParity, no_parity, odd, even, other_parity,
}
use nuhal.Pin.Setup.{Tivaware, peripheral_enable}
use nuhal.Uart.Tiva.{
  config, fifo_enable, fifo_disable, disable, rx_error_clear, flow_control, break_ctl, UartLib,
  UartPort, uart_write_nonblock,
}
use nuhal.Time.Running.{delay}

module _ {S : Type 0} (lib : UartLib S) where
  -- `ports[pindex]`
  unfoldable pub port_at : ℕ → Outcome UartPort
  port_at pindex = do
    b ← load lib.uart_bases pindex
    p ← load lib.sysctl_uarts pindex
    i ← load lib.int_uarts pindex
    ok record { base = b; sysctl = p; int_base = i }

  unfoldable pub parity_setting : UartParity → Outcome ℕ
  parity_setting odd = ok lib.par_odd
  parity_setting even = ok lib.par_even
  parity_setting no_parity = ok lib.par_none
  parity_setting other_parity = err unsupported_parity

  -- The `switch` over the flow control of UART 1, and the test of it for the others.
  unfoldable pub set_flow : ℕ → ℕ → UartFlow → S → Outcome S
  set_flow pindex base flow s = elim (pindex == 1) [
    | true ↦ elim flow [
      | hardware ↦ ok (lib.call (flow_control base (bit_or lib.flow_tx lib.flow_rx)) s)
      | software ↦ err software_flow
      | no_flow ↦ ok (lib.call (flow_control base lib.flow_none) s)
      | other_flow ↦ err unknown_flow
    ]
    | false ↦ elim flow [ no_flow ↦ ok s | _ ↦ err no_flow_control ]
  ]

  -- The loop that drops what came in before the port was opened, a character at a time.
  unfoldable pub drain : ℕ → ℕ → ℕ → S → Outcome S
  drain base byte_us zero s = unfinished
  drain base byte_us (suc fuel) s =
      let (avail, s) = lib.chars_avail base s in
      elim avail [
        | false ↦ ok s
        | true ↦ do
          let (_, s) = lib.char_get base s
          s ← delay lib.time_current_us lib.time_period_us fuel byte_us s
          drain base byte_us fuel s
      ]

  -- `uart_open`; `clock_hz` is what `tiva_clock_hz` returns, and a division by zero is undefined.
  unfoldable pub uart_open :
      ℕ → Tivaware S → ℕ → List ℕ → ℕ → UartFlow → UartParity → S → Outcome (UartPort × S)
  uart_open fuel tw clock_hz name baud flow parity s = do
    c ← load name 0
    let pindex = c - 48
    if ltb c 48 || leb 8 pindex then err invalid_uart else do
      port ← port_at pindex
      s ← peripheral_enable tw port.sysctl s
      parset ← parity_setting parity
      let s =
          lib.call (config port.base clock_hz baud (bit_or (bit_or lib.wlen_8 lib.stop_one) parset))
            s
      s ← set_flow pindex port.base flow (lib.call (fifo_enable port.base) s)
      if baud == 0 then undefined else do
        let byte_us = 10000000 / baud
        s ← delay lib.time_current_us lib.time_period_us fuel byte_us s
        s ← drain port.base byte_us fuel s
        ok (port, lib.call (rx_error_clear port.base) s)

  unfoldable pub uart_close : Ptr UartPort → S → Outcome S
  uart_close port s = do
    p ← require port null_ptr
    ok (lib.call (disable p.base) (lib.call (fifo_disable p.base) s))

  -- `uart_set_receive_enable`: one bit of the control register.
  unfoldable pub uart_set_receive_enable : Tivaware S → Ptr UartPort → Bool → S → Outcome S
  uart_set_receive_enable tw port enable s = do
    p ← require port null_pointer
    let (ctl, s) = tw.read_register (add32 p.base lib.uart_o_ctl) s
    let on = bit_or ctl lib.uart_ctl_rxe
    let off = bit_and ctl (2 ^ 32 - 1 - lib.uart_ctl_rxe)
    ok (tw.write_register (add32 p.base lib.uart_o_ctl) (if enable then on else off) s)

  -- The loop of `uart_transmit_single_block`
  unfoldable pub until_idle : Tivaware S → ℕ → ℕ → S → Outcome S
  until_idle tw base zero s = unfinished
  until_idle tw base (suc fuel) s =
      let (fr, s) = tw.read_register (add32 base lib.uart_o_fr) s in
      elim (bit_and fr lib.uart_fr_busy == 0) [ true ↦ ok s | false ↦ until_idle tw base fuel s ]

  unfoldable pub uart_transmit_single_block : ℕ → Tivaware S → Ptr UartPort → ℕ → S → Outcome S
  uart_transmit_single_block fuel tw port byte s = do
    p ← require port null_ptr
    let (_, s) = lib.char_put p.base byte s
    until_idle tw p.base fuel s

  unfoldable pub uart_send_break : ℕ → Ptr UartPort → ℕ → S → Outcome S
  uart_send_break fuel port timeout s = do
    p ← require port null_ptr
    let s = lib.call (break_ctl p.base true) s
    s ←
        delay lib.time_current_ms lib.time_period_ms fuel (if ltb timeout 2 then 2 else timeout / 2)
          s
    ok (lib.call (break_ctl p.base false) s)

  -- A byte that one port received goes to the other, if that has room for it.
  unfoldable pub pass_char : Option ℕ → UartPort → S → Outcome S
  pass_char none to s = ok s
  pass_char (some c) to s = do (_, s) ← uart_write_nonblock lib (some to) s (u8 c ∷ []); ok s

  -- The first loop of `uart_passthrough`, up to the break on port1.
  unfoldable pub pass_loop : UartPort → UartPort → ℕ → S → Outcome S
  pass_loop port1 port2 zero s = unfinished
  pass_loop port1 port2 (suc fuel) s =
      let (rx1, s) = lib.char_get port1.base s in
      let (errors, s) = lib.rx_error_get port1.base s in
      elim (bit_and errors lib.rxerror_break == 0) [
        | false ↦ ok (lib.call (rx_error_clear port1.base) s)
        | true ↦ do
          s ← pass_char rx1 port2 s
          let (rx2, s) = lib.char_get port2.base s
          s ← pass_char rx2 port1 s
          pass_loop port1 port2 fuel s
      ]

  -- The second loop, which waits for the end of the break.
  unfoldable pub break_loop : UartPort → ℕ → ℕ → TimeElapsed → S → Outcome S
  break_loop port1 timeout zero stamp s = unfinished
  break_loop port1 timeout (suc fuel) stamp s =
      let (errors, s) = lib.rx_error_get port1.base s in
      elim (bit_and errors lib.rxerror_break == 0) [
        | true ↦ ok s
        | false ↦ do
          let (now, s) = lib.time_current_ms (lib.call (rx_error_clear port1.base) s)
          (t, stamp) ← time_elapsed lib.time_period_ms (some stamp) now
          elim (ltb timeout t && not (timeout == 0)) [
            | true ↦ err break_timeout
            | false ↦ break_loop port1 timeout fuel stamp s
          ]
      ]

  unfoldable pub uart_passthrough : ℕ → Ptr UartPort → Ptr UartPort → ℕ → S → Outcome S
  uart_passthrough fuel port1 port2 timeout s = do
    port1 ← require port1 null_ptr
    port2 ← require port2 null_ptr
    s ← pass_loop port1 port2 fuel s
    let (now, s) = lib.time_current_ms s
    break_loop port1 timeout fuel (elapsed_init now) s
