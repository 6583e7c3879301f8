-- ===== src/Uart/Tiva/OnLine.antt =====
-- nuhal_tiva/src/uart_tiva.c as one of the platforms of nuhal_all/include/nuhal/uart.h, where the UART
-- does what its data sheet and TivaWare say.
use nuhal.Common.{
  ℕ, zero, suc, ◌≤◌, ◌<◌, ◌≡◌, ◌≢◌, ◌⊎◌, inl, inr, refl, sym, ◌∙◌, ap, arith, Bool, true, false,
  Outcome, ok, some, List, [], ◌∷◌, ◌++◌, length, Returns, Returns-ok, Bool-cases, u8, append-nil,
  append_assoc,
}
use nuhal.Memory.{slice, slice_tail, overwrite}
use nuhal.Time.{TimeElapsed, elapsed_init, time_elapsed}
use nuhal.Uart.Line.{IsLine}
use nuhal.Uart.Tiva.{
  UartLib, UartPort, read_chars, uart_read_nonblock, write_chars, await_char, uart_wait_for_data,
  uart_data_available, tiva_port,
}

-- What is on the line of a UART: the bytes to come, of which the first is in the receive FIFO where
-- the UART is ready, and those sent; and how many calls may still find no character or no room.
pub record View (S : Type 0) : Type 0 where
  pub incoming : S → List ℕ
  pub outgoing : S → List ℕ
  pub patience : S → ℕ
  pub ready : S → Bool

module _ {S : Type 0} (view : View S) where
  -- Nothing was read or sent.
  abbrev pub Unmoved : S → S → Type 0
  Unmoved s s' =
      (view.incoming s' ≡ view.incoming s)
      × (view.outgoing s' ≡ view.outgoing s)
      × (view.patience s' ≤ view.patience s)

  -- The FIFO took the byte, or had no room for it.
  abbrev pub PutsAs : S → ℕ → Bool × S → Type 0
  PutsAs s x (taken, s') =
      (taken ≡ true)
        × (view.outgoing s' ≡ view.outgoing s ++ x ∷ [])
        × (view.incoming s' ≡ view.incoming s)
        × (view.patience s' ≤ view.patience s)
      ⊎ (taken ≡ false)
        × (view.outgoing s' ≡ view.outgoing s)
        × (view.incoming s' ≡ view.incoming s)
        × (view.patience s' < view.patience s)

-- The calls of TivaWare on a UART whose line works, without receive errors.
pub record IsUart {S : Type 0} (lib : UartLib S) (base : ℕ) (view : View S) : Type 0 where
  pub available :
      (s : S)
      → Unmoved view s (lib.chars_avail base s).1
        × ((lib.chars_avail base s).0 ≡ true → view.ready (lib.chars_avail base s).1 ≡ true)
        × ((lib.chars_avail base s).0 ≡ false
            → 0 < length (view.incoming s)
            → view.patience (lib.chars_avail base s).1 < view.patience s)
  pub getting :
      (s : S)
      → view.ready s ≡ true
      → (c : ℕ) × ((lib.char_get base s).0 ≡ some c)
        × (view.incoming s ≡ u8 c ∷ view.incoming (lib.char_get base s).1)
        × (view.outgoing (lib.char_get base s).1 ≡ view.outgoing s)
        × (view.patience (lib.char_get base s).1 ≤ view.patience s)
  pub no_errors :
      (s : S) → ((lib.rx_error_get base s).0 ≡ 0) × Unmoved view s (lib.rx_error_get base s).1
  pub putting : (s : S) (x : ℕ) → PutsAs view s x (lib.char_put base x s)
  pub ticking : (s : S) → Unmoved view s (lib.time_current_ms s).1

module _ {S : Type 0} (lib : UartLib S) (view : View S) (port : UartPort)
    (uart : IsUart lib port.base view) where
  pub reads :
      (room : ℕ) (s : S)
      → Returns (read_chars lib port.base room s) λ (bytes, s').
        (length bytes ≤ room)
        × (view.incoming s ≡ bytes ++ view.incoming s')
        × (view.outgoing s' ≡ view.outgoing s)
        × (view.patience s' ≤ view.patience s)
        × (length bytes ≡ 0
            → 0 < room
            → 0 < length (view.incoming s)
            → view.patience s' < view.patience s)
  unfolding read_chars
  reads zero s =
      let ((i, o, p), _, _) = uart.available s in
      (omega arith, sym i, o, p, λ none asked more. absurd (omega (arith, asked)))
  reads (suc room) s =
      let ((i, o, p), is_ready, less) = uart.available s in
      let s1 = (lib.chars_avail port.base s).1 in
      elim (Bool-cases (lib.chars_avail port.base s).0) [
        | inr empty ↦
            rw (read_chars, empty) (omega arith, sym i, o, p, λ none asked more. less empty more)
        | inl some_char ↦
            let (c, got, i', o', p') = uart.getting s1 (is_ready some_char) in
            let s2 = (lib.char_get port.base s1).1 in
            let (clean, (i'', o'', p'')) = uart.no_errors s2 in
            let s3 = (lib.rx_error_get port.base s2).1 in
            let ((bytes, s4), e, (short, i4, o4, p4, _)) =
              Returns-ok (read_chars lib port.base room s3) _ (reads room s3) in
            rw (read_chars, some_char, clean, got, e)
              (
                omega (arith, short),
                sym i ∙ (i' ∙ ap (λ (t : List ℕ). u8 c ∷ t) (sym i'' ∙ i4)),
                o4 ∙ (o'' ∙ (o' ∙ o)),
                omega (arith, p, p', p'', p4),
                λ none asked more. absurd (omega (arith, none)),
              )
      ]

  pub writes :
      (bytes : List ℕ) (s : S)
      → ((write_chars lib port.base bytes s).0 ≤ length bytes)
        × (view.outgoing (write_chars lib port.base bytes s).1
            ≡ view.outgoing s ++ slice bytes 0 (write_chars lib port.base bytes s).0)
        × (view.incoming (write_chars lib port.base bytes s).1 ≡ view.incoming s)
        × (view.patience (write_chars lib port.base bytes s).1 ≤ view.patience s)
        × ((write_chars lib port.base bytes s).0 ≡ 0
            → 0 < length bytes
            → view.patience (write_chars lib port.base bytes s).1 < view.patience s)
  unfolding write_chars slice
  writes [] s = (
    omega arith,
    sym (append-nil (view.outgoing s)),
    refl,
    omega arith,
    λ none more. absurd (omega (arith, more)),
  )
  writes (x ∷ bytes) s = elim (uart.putting s x) [
    | inl (taken, o, i, p) ↦
        let s1 = (lib.char_put port.base x s).1 in
        let (short, o', i', p', _) = writes bytes s1 in
        rw (write_chars, taken)
          (
            omega (arith, short),
            o'
                ∙ (ap (λ (t : List ℕ). t ++ slice bytes 0 (write_chars lib port.base bytes s1).0) o
                    ∙ (append_assoc (view.outgoing s) (x ∷ [])
                          (slice bytes 0 (write_chars lib port.base bytes s1).0)
                        ∙ ap (λ (t : List ℕ). view.outgoing s ++ x ∷ t)
                            (sym (slice_tail x bytes 0 (write_chars lib port.base bytes s1).0)))),
            i' ∙ i,
            omega (arith, p, p'),
            λ none more. absurd (omega (arith, none)),
          )
    | inr (full, o, i, p) ↦
        rw (write_chars, full)
          (omega arith, o ∙ sym (append-nil (view.outgoing s)), i, omega (arith, p), λ none more. p)
  ]

  module _ (fuel : ℕ) (calm : (s : S) → view.patience s < fuel) where
    -- The test of the timeout ends the wait, or another round follows.
    ends_or_waits :
        (over : Bool) (s s2 : S) (again : Outcome (Bool × S))
        → Unmoved view s s2
        → Returns again (λ (_, s'). Unmoved view s2 s')
        → Returns (elim over [ true ↦ ok (false, s2) | false ↦ again ]) λ (_, s'). Unmoved view s s'
    ends_or_waits true s s2 again h rest = h
    ends_or_waits false s s2 again (i, o, p) rest =
        let (r, e, (i', o', p')) = Returns-ok again _ rest in
        rw e (i' ∙ i, o' ∙ o, omega (arith, p, p'))

    pub waits :
        (rounds timeout : ℕ) (stamp : TimeElapsed) (s : S)
        → 0 < length (view.incoming s)
        → view.patience s < rounds
        → Returns (await_char lib port.base timeout rounds stamp s) λ (_, s'). Unmoved view s s'
    unfolding await_char time_elapsed
    waits zero timeout stamp s more h = absurd (omega (arith, h))
    waits (suc rounds) timeout stamp s more h =
        let ((i, o, p), _, less) = uart.available s in
        let s1 = (lib.chars_avail port.base s).1 in
        elim (Bool-cases (lib.chars_avail port.base s).0) [
          | inl some_char ↦ rw (await_char, some_char) (i, o, p)
          | inr empty ↦
              let (i', o', p') = uart.ticking s1 in
              let s2 = (lib.time_current_ms s1).1 in
              rw (await_char, empty)
                (ends_or_waits _ s s2 _ (i' ∙ i, o' ∙ o, omega (arith, p, p'))
                  (waits rounds timeout _ s2 (omega (arith, ap length (i' ∙ i), more))
                    (omega (arith, h, p', less empty more))))
        ]

    -- The calls of uart_tiva.c are those that uart.h is about.
    unfoldable pub tiva-IsLine : IsLine (tiva_port lib fuel port)
    unfolding tiva_port uart_read_nonblock uart_wait_for_data uart_data_available
    tiva-IsLine = record {
      incoming = view.incoming;
      outgoing = view.outgoing;
      patience = view.patience;
      reads = λ s n. reads n s;
      waits = λ s timeout small more.
          let (i, o, p) = uart.ticking s in
          let s1 = (lib.time_current_ms s).1 in
          let (r, e, (i', o', p')) =
            Returns-ok
              (await_char lib port.base timeout fuel (elapsed_init (lib.time_current_ms s).0) s1) _
              (waits fuel timeout (elapsed_init (lib.time_current_ms s).0) s1
                (omega (arith, ap length i, more)) (calm s1)) in
          rw e (i' ∙ i, o' ∙ o, omega (arith, p, p'));
      ticks = uart.ticking;
    }

    -- What a blocking read comes to, in the terms of the line.
    abbrev pub ReadsOnTiva : ℕ → ℕ → ℕ → Bool → List ℕ → S → ℕ × List ℕ × S → Type 0
    ReadsOnTiva at len timeout timeout_error m s (n, m', s') =
        (bytes : List ℕ) × (n ≡ length bytes)
        × (m' ≡ overwrite m at bytes)
        × (view.incoming s ≡ bytes ++ view.incoming s')
        × (view.outgoing s' ≡ view.outgoing s)
        × ((n ≡ len) ⊎ (timeout ≢ 0) × (timeout_error ≡ false))
