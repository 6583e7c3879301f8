-- ===== src/Uart/Write.antt =====
-- `uart_write_block` of nuhal_all/src/uart.c on a line that works.
use nuhal.Common.{
  ℕ, zero, suc, ◌+◌, ◌-◌, ◌^◌, ◌≤◌, ◌<◌, ◌≡◌, ◌≢◌, ◌⊎◌, inl, inr, refl, sym, ◌∙◌, ap, arith, Bool,
  true, false, ok, List, ◌++◌, length, Returns-bind, ◌==◌, Settles, Settles-mono, Settles-bind, u32,
  Bool-cases, eq→==, ne→==, le→leb, add_size, sub_size, Message, write_timeout,
}
use native.Mathlib.Decide.{ℕ_discrete}
use mathlib.Core.Path.{ap₂}
use nuhal.Memory.{slice, length-slice, slice-append, slice-slice}
use nuhal.Time.{TimeElapsed, elapsed_init}
use nuhal.Uart.{Port, in_time, write_loop, write_block}
use nuhal.Uart.Line.{IsLine, CanWrite, Idle, Sent, Sent-then, in_time-Idle}

module _ {S : Type 0} (port : Port S) (line : IsLine port) (m : List ℕ) (at len timeout : ℕ) where
  -- The bytes from the offset on, all of them, have been sent.
  abbrev pub WritesAll : S → ℕ × S → Type 0
  WritesAll s (n, s') = (n ≡ len) × Sent line s (slice m at len) s'

  -- The only error is the timeout, and only where there is one.
  abbrev pub TimesOut : Message → Type 0
  TimesOut e = (e ≡ write_timeout) × (timeout ≢ 0)

  -- The same once `written` bytes are gone.
  abbrev WritesRest : ℕ → S → ℕ × S → Type 0
  WritesRest written s (n, s') = (n ≡ len) × Sent line s (slice m (at + written) (len - written)) s'

  abbrev LoopSettles : ℕ → Type 0
  LoopSettles fuel =
      (stamp : TimeElapsed) (written : ℕ) (s : S)
      → at + len ≤ length m
      → len < 2 ^ 63
      → written ≤ len
      → len - written + line.patience s < fuel
      → Settles (write_loop port m at len timeout fuel stamp written s) (WritesRest written s)
          TimesOut

  Sent-Idle : (s s1 s2 : S) (xs : List ℕ) → Idle line s s1 → Sent line s1 xs s2 → Sent line s xs s2
  Sent-Idle s s1 s2 xs (i, o, p) (o', i', p') =
      (o' ∙ ap (λ (t : List ℕ). t ++ xs) o, i' ∙ i, omega (arith, p, p'))

  module _ (fuel written : ℕ) (s : S) (room : at + len ≤ length m) (small : len < 2 ^ 63)
      (lo : written ≤ len) (patient : len - written + line.patience s < suc fuel) where
    -- The bytes that the driver took, and then the rest.
    WritesRest-step :
        (s1 s2 : S) (n : ℕ)
        → n ≤ len - written
        → Idle line s s1
        → Sent line s1 (slice m (at + written) n) s2
        → (r : ℕ × S) → WritesRest (written + n) s2 r
        → WritesRest written s r
    WritesRest-step s1 s2 n short idle sent (k, s') (e, sent') = (
      e,
      Sent-Idle s s1 s' (slice m (at + written) (len - written)) idle (
          rw split (
            Sent-then line s1 s2 s' (slice m (at + written) n)
              (slice m (at + (written + n)) (len - (written + n))) sent sent')),
    )
      where
        split :
            slice m (at + written) (len - written)
            ≡ slice m (at + written) n ++ slice m (at + (written + n)) (len - (written + n))
        split =
            ap (slice m (at + written)) (omega (arith, short, lo))
            ∙ (slice-append m (at + written) n (len - (written + n))
                ∙ ap (λ k. slice m (at + written) n ++ slice m k (len - (written + n)))
                    (omega arith))

    round :
        LoopSettles fuel
        → (stamp' : TimeElapsed) (n k : ℕ) (s1 s2 : S) → k ≡ written + n
        → Idle line s s1
        → n ≤ len - written
        → Sent line s1 (slice m (at + written) n) s2
        → (n ≡ 0 → 0 < len - written → line.patience s2 < line.patience s1)
        → Settles
            (elim (k == len) [
              | true ↦ ok (k, s2)
              | false ↦ write_loop port m at len timeout fuel stamp' k s2
            ])
            (WritesRest written s)
            TimesOut
    round rest stamp' n k s1 s2 total idle short sent progress = elim (ℕ_discrete k len) [
      | yes all ↦ rw (eq→== k len all) (
        all,
        Sent-Idle s s1 s2 (slice m (at + written) (len - written)) idle
            (rw (taken (sym total ∙ all)) at sent),
      )
      | no part ↦ rw (ne→== k len part) (
          Settles-mono (write_loop port m at len timeout fuel stamp' k s2) (WritesRest k s2)
            (WritesRest written s) TimesOut
            (rest stamp' k s2 room small (omega (arith, total, short, lo)) (less part))
            λ r h. WritesRest-step s1 s2 n short idle sent r (rw total at h))
    ]
      where
        taken : written + n ≡ len → n ≡ len - written
        taken all = omega (arith, all)

        less : k ≢ len → len - k + line.patience s2 < fuel
        less part = elim (ℕ_discrete n 0) [
          | yes none ↦ omega (
            arith,
            total,
            none,
            progress none (omega (arith, total, none, part, lo)),
            idle.2,
            patient,
          )
          | no some_bytes ↦ omega (arith, total, some_bytes, sent.2, idle.2, patient, short)
        ]

  write_loop-Settles : CanWrite port line → (fuel : ℕ) → LoopSettles fuel
  unfolding write_loop
  write_loop-Settles can zero stamp written s room small lo patient = absurd (omega arith)
  write_loop-Settles can (suc fuel) stamp written s room small lo patient =
      Returns-bind (in_time port stamp timeout s) _ _ (WritesRest written s) TimesOut
        (in_time-Idle line stamp timeout s)
        λ (more, stamp', s1) (idle, why). elim (Bool-cases more) [
          | inr over ↦ rw over (refl, expired more over why)
          | inl going ↦
              rw
                (
                  going,
                  asked,
                  le→leb (at + written + (len - written)) (length m) (omega (arith, room, lo)),
                )
                (Returns-bind (port.write_nonblock s1 (slice m (at + written) (len - written))) _ _
                  (WritesRest written s) TimesOut
                  (can.writes s1 (slice m (at + written) (len - written)))
                  λ (n, s2) (short, o, i, p, progress).
                    round fuel written s room small lo patient (write_loop-Settles can fuel) stamp'
                      n (add_size written n) s1 s2 (sums n (fits n short)) idle (fits n short)
                      (
                        o
                            ∙ ap (λ (t : List ℕ). line.outgoing s1 ++ t)
                                (slice-slice m (at + written) (len - written) n (fits n short)),
                        i,
                        p,
                      )
                      λ none some_bytes.
                        progress none (
                          omega (arith, length-slice m (at + written) (len - written), some_bytes)))
        ]
    where
      asked : sub_size len written ≡ len - written
      asked = omega (arith, lo, small)

      sums : (n : ℕ) → n ≤ len - written → add_size written n ≡ written + n
      sums n h = omega (arith, h, lo, small)

      expired : (more : Bool) → more ≡ false → (more ≡ true) ⊎ (timeout ≢ 0) → timeout ≢ 0
      expired more over (inl on) = absurd (ground arith)
      expired more over (inr ne) = ne

      fits : (n : ℕ) → n ≤ length (slice m (at + written) (len - written)) → n ≤ len - written
      fits n h = omega (arith, h, length-slice m (at + written) (len - written))

  -- On a line that does what uart.h promises, of writes too, uart_write_block of len bytes of an
  -- object, less than 2^31, ends, given one round more than bytes and calls that may find no room:
  -- with exactly these bytes sent in their order and len as the result, or, if there is a timeout,
  -- with the timeout error.
  pub write_block-Settles :
      CanWrite port line
      → (fuel : ℕ) (s : S) → at + len ≤ length m
      → len < 2 ^ 31
      → len + line.patience s < fuel
      → Settles (write_block port fuel m at len timeout s) (WritesAll s) TimesOut
  unfolding write_block
  write_block-Settles can fuel s room small patient =
      let s1 = (port.time_current_ms s).1 in
      Settles-bind
        (write_loop port m at len timeout fuel (elapsed_init (port.time_current_ms s).0) 0 s1)
        (λ (n, s'). ok (u32 n, s')) (WritesRest 0 s1) (WritesAll s) TimesOut
        (write_loop-Settles can fuel (elapsed_init (port.time_current_ms s).0) 0 s1 room
          (omega (arith, small)) (omega arith) (omega (arith, (line.ticks s).2, patient)))
        λ (n, s') (e, sent). (
          omega (arith, e, small),
          Sent-Idle s s1 s' (slice m at len) (line.ticks s) (rw start_of at sent),
        )
    where
      start_of : slice m (at + 0) (len - 0) ≡ slice m at len
      start_of = ap₂ (slice m) (omega arith) (omega arith)
