-- ===== src/Uart/Terminator/Reads.antt =====
-- What `uart_read_block_error` of nuhal_all/src/uart.c reads up to a terminator.
use nuhal.Common.{
  ℕ, zero, suc, ◌+◌, ◌-◌, ◌^◌, ◌≤◌, ◌<◌, ◌≡◌, ◌≢◌, ◌⊎◌, inl, inr, refl, sym, ◌∙◌, ap, arith, Bool,
  true, false, ok, err, List, [], ◌∷◌, length, ◌==◌, if◌then◌else◌, add_size, sub_size, Outcome,
  ◌>>=◌, set, length-set, Returns, Returns-ok, Returns-bind, Settles, Settles-mono, Settles-bind,
  u32, Bool-cases, eq→==, ne→==, le→leb, Message, read_timeout,
}
use mathlib.Core.Path.{subst}
use nuhal.Memory.{overwrite, overwrite-nothing}
use nuhal.Time.{TimeElapsed, elapsed_init}
use nuhal.Uart.{Port, UartTerm, other_term, in_time, read_loop, read_block_error, ends, deposit}
use nuhal.Uart.Line.{IsLine, Idle, Received, Received-nothing, Received-then, in_time-Idle}
use nuhal.Uart.Terminator.{first_line, comes, ending, ends_at, a_byte}

length-first_line : (term : UartTerm) (n : ℕ) (xs : List ℕ) → length (first_line term n xs) ≤ n
length-first_line term zero xs = omega arith
length-first_line term (suc n) [] = omega arith
length-first_line term (suc n) (x ∷ xs) =
    by_end (ending term x) (first_line term n xs) (length-first_line term n xs)
  where
    by_end :
        (last : Bool) (rest : List ℕ)
        → length rest ≤ n
        → length (if last then x ∷ [] else x ∷ rest) ≤ suc n
    by_end true rest h = omega arith
    by_end false rest h = omega (arith, h)

module _ {S : Type 0} (port : Port S) (line : IsLine port) (at len timeout : ℕ) (term : UartTerm)
    (timeout_error : Bool) (known : term ≢ other_term)
    (one : (s : S) (n : ℕ) → Returns (port.read_nonblock s n) (λ (bytes, _). length bytes ≤ 1))
    (strict : (timeout ≡ 0) ⊎ (timeout_error ≡ true)) where
  -- A read of `bytes` to the offset.
  abbrev pub ReadsLine : List ℕ → List ℕ → S → ℕ × List ℕ × S → Type 0
  ReadsLine bytes m s (n, m', s') =
      (n ≡ length bytes) × (m' ≡ overwrite m at bytes) × Received line s bytes s'

  -- The same with `read` bytes before it.
  abbrev ReadsOn : ℕ → List ℕ → List ℕ → S → ℕ × List ℕ × S → Type 0
  ReadsOn read bytes m s (n, m', s') =
      (n ≡ read + length bytes) × (m' ≡ overwrite m (at + read) bytes) × Received line s bytes s'

  abbrev pub LateError : Message → Type 0
  LateError e = (e ≡ read_timeout) × (timeout ≢ 0)

  -- One byte came, the last one, or with more to follow.
  first_byte :
      (read c : ℕ) (rest m : List ℕ) (s s1 s2 : S)
      → Idle line s s1
      → Received line s1 (c ∷ []) s2
      → (r : ℕ × List ℕ × S) → ReadsOn (read + 1) rest (set m (at + read) c) s2 r
      → ReadsOn read (c ∷ rest) m s r
  unfolding overwrite
  first_byte read c rest m s s1 s2 idle got (n, m', s') (e, em, got') = (
    omega (arith, e),
    em ∙ ap (λ k. overwrite (set m (at + read) c) k rest) (omega arith),
    Received-then line s s1 s' [] (c ∷ rest) (Received-nothing line s s1 idle)
        (Received-then line s1 s2 s' (c ∷ []) rest got got'),
  )

  -- What the loop comes to with enough fuel, where `n` bytes are left to read at most.
  abbrev LoopReads : ℕ → Type 0
  LoopReads fuel =
      (stamp : TimeElapsed) (n read : ℕ) (m : List ℕ) (s : S)
      → read + suc n ≡ len
      → suc n ≤ fuel
      → at + len ≤ length m
      → len < 2 ^ 63
      → comes term (suc n) (line.incoming s) ≡ true
      → line.patience s ≡ 0
      → Settles (read_loop port at len timeout term timeout_error fuel stamp read m s)
          (ReadsOn read (first_line term (suc n) (line.incoming s)) m s) LateError

  module _ (fuel : ℕ) (rest : LoopReads fuel) (stamp : TimeElapsed) (read c : ℕ) (m : List ℕ)
      (s s1 s2 : S) (room : at + len ≤ length m) (small : len < 2 ^ 63)
      (eager : line.patience s2 ≡ 0) (idle : Idle line s s1)
      (got : Received line s1 (c ∷ []) s2) where
    -- The number of bytes read, the byte `c` with them.
    abbrev count : ℕ
    count = add_size read 1

    -- The object with the byte.
    abbrev stored : List ℕ
    stored = set m (at + read) c

    one_more : read < len → count ≡ read + 1
    one_more h = omega (arith, h, small)

    -- The end of a round that stored the byte.
    abbrev goes_on : Outcome (ℕ × List ℕ × S)
    goes_on =
        if count == len
        then ok (count, stored, s2)
        else (ends term stored at count >>= λ done. elim done [
          | true ↦ ok (count, stored, s2)
          | false ↦ read_loop port at len timeout term timeout_error fuel stamp count stored s2
        ])

    last_byte : read < len → ReadsOn read (c ∷ []) m s (count, stored, s2)
    last_byte h =
        first_byte read c [] m s s1 s2 idle got (count, stored, s2)
          (
            omega (arith, one_more h),
            sym (overwrite-nothing stored (at + (read + 1))),
            Received-nothing line s2 s2 (refl, refl, omega arith),
          )

    ended : read < len → ends term stored at count ≡ ok (ending term c)
    ended h =
        ap (ends term stored at) (one_more h)
        ∙ ends_at term m at read c known (omega (arith, room, h))

    goes_on-ReadsOn :
        (n : ℕ)
        → read + suc n ≡ len
        → suc n ≤ suc fuel
        → comes term (suc n) (c ∷ line.incoming s2) ≡ true
        → Settles goes_on
            (ReadsOn read (first_line term (suc n) (c ∷ line.incoming s2)) m s)
            LateError
    goes_on-ReadsOn zero total enough come = elim (Bool-cases (ending term c)) [
      | inl done ↦
          rw (eq→== count len (omega (arith, one_more before, total)), done) (last_byte before)
      | inr more ↦
          rw (eq→== count len (omega (arith, one_more before, total)), more) (last_byte before)
    ]
      where
        before : read < len
        before = omega (arith, total)
    goes_on-ReadsOn (suc n) total enough come = elim (Bool-cases (ending term c)) [
      | inl done ↦ rw (not_all, ended before, done) (last_byte before)
      | inr more ↦
          rw (not_all, ended before, more)
            (Settles-mono
              (read_loop port at len timeout term timeout_error fuel stamp count stored s2)
              (ReadsOn count (first_line term (suc n) (line.incoming s2)) stored s2)
              (ReadsOn read (c ∷ first_line term (suc n) (line.incoming s2)) m s) LateError
              (rest stamp n count stored s2 (omega (arith, one_more before, total))
                (omega (arith, enough)) (omega (arith, room, length-set m (at + read) c)) small
                (rw more at come) eager)
              λ r h.
                first_byte read c (first_line term (suc n) (line.incoming s2)) m s s1 s2 idle got r
                  (rw (one_more before) at h))
    ]
      where
        before : read < len
        before = omega (arith, total)

        not_all : (count == len) ≡ false
        not_all = ne→== count len (λ e. omega (arith, e, one_more before, total))

  -- What a round does with the bytes that it read.
  abbrev round : ℕ → TimeElapsed → ℕ → List ℕ → S → List ℕ → Outcome (ℕ × List ℕ × S)
  round fuel stamp read m s bytes = do
    m ← deposit m (at + read) bytes
    let read = add_size read (length bytes)
    if read == len then ok (read, m, s) else do
      done ← ends term m at read
      elim done [
        | true ↦ ok (read, m, s)
        | false ↦ read_loop port at len timeout term timeout_error fuel stamp read m s
      ]

  read_loop-Reads : (fuel : ℕ) → LoopReads fuel
  unfolding read_loop overwrite
  read_loop-Reads zero stamp n read m s total enough room small come eager =
      absurd (omega (arith, enough))
  read_loop-Reads (suc fuel) stamp n read m s total enough room small come eager =
      Returns-bind (in_time port stamp timeout s) _ _
        (ReadsOn read (first_line term (suc n) (line.incoming s)) m s) LateError
        (in_time-Idle line stamp timeout s)
        λ (more, stamp', s1) (idle, why). elim (Bool-cases more) [
          | inr over ↦ rw over (late more s1 over why strict)
          | inl going ↦ rw going (
              Returns-bind (port.read_nonblock s1 (sub_size len read)) _ _
                (ReadsOn read (first_line term (suc n) (line.incoming s)) m s) LateError
                (a_byte port line one (sub_size len read) s1 (omega (arith, total, small))
                  (omega (arith, ap length idle.0, some_come (line.incoming s) come))
                  (omega (arith, idle.2, eager)))
                λ (bytes, s2) (c, e, got).
                  let in_s : line.incoming s ≡ c ∷ line.incoming s2 = sym idle.0 ∙ got.0 in
                  subst
                    (λ bytes.
                      Settles (round fuel stamp' read m s2 bytes)
                        (ReadsOn read (first_line term (suc n) (line.incoming s)) m s) LateError)
                    (sym e)
                    (subst
                      (λ xs.
                        Settles (round fuel stamp' read m s2 (c ∷ []))
                          (ReadsOn read (first_line term (suc n) xs) m s) LateError)
                      (sym in_s)
                      (rw (le→leb (at + read + 1) (length m) (omega (arith, room, total))) (
                        goes_on-ReadsOn fuel (read_loop-Reads fuel) stamp' read c m s s1 s2 room
                          small (omega (arith, got.2, idle.2, eager)) idle got n total enough
                          (rw in_s at come)))))
        ]
    where
      some_come : (xs : List ℕ) → comes term (suc n) xs ≡ true → 0 < length xs
      some_come [] h = absurd (ground arith)
      some_come (x ∷ xs) h = omega arith

      late :
          (more : Bool) (s1 : S)
          → more ≡ false
          → (more ≡ true) ⊎ (timeout ≢ 0)
          → (timeout ≡ 0) ⊎ (timeout_error ≡ true)
          → Settles
              (if timeout_error then err read_timeout else ok (read, m, s1))
              (ReadsOn read (first_line term (suc n) (line.incoming s)) m s)
              LateError
      late more s1 over (inl on) must = absurd (ground arith)
      late more s1 over (inr ne) (inl e) = absurd (ne e)
      late more s1 over (inr ne) (inr t) = rw t (refl, ne)

  -- On a line that does what uart.h promises, hands over one byte at most with each read, and at
  -- once if one is to come: uart_read_block_error of at least one byte and less than 2^31, with a
  -- known terminator or none, room for len bytes, no timeout or one below 2^31 ms that is an
  -- error, ends, given a round for each byte, where a terminator is among the first len bytes that
  -- come in, or there are so many. It reads the bytes up to the first terminator, it included, or
  -- len of them if there is none among these, to the right place, with their number as the result,
  -- and leaves those that follow on the line; or it ends in the timeout error, if there is a
  -- timeout.
  pub read_block_error-ReadsLine :
      (fuel : ℕ) (m : List ℕ) (s : S)
      → timeout < 2 ^ 31
      → 0 < len
      → at + len ≤ length m
      → len < 2 ^ 31
      → comes term len (line.incoming s) ≡ true
      → line.patience s ≡ 0
      → len ≤ fuel
      → Settles
          (read_block_error port fuel m at len timeout term timeout_error s)
          (ReadsLine (first_line term len (line.incoming s)) m s)
          LateError
  unfolding read_block_error
  read_block_error-ReadsLine fuel m s limit some_room room small come eager enough =
      let s1 = (port.time_current_ms s).1 in
      let ((_, s2), e, idle) = Returns-ok (port.wait_for_data s1 timeout) _ (
        line.waits s1 timeout limit (
          omega
            (arith, ap length (line.ticks s).0, some_come len (line.incoming s) some_room come))) in
      let i : line.incoming s2 ≡ line.incoming s = idle.0 ∙ (line.ticks s).0 in
      rw (ne→== 0 len (λ e. omega (arith, e, some_room)), e)
        (Settles-bind
          (read_loop port at len timeout term timeout_error fuel
            (elapsed_init (port.time_current_ms s).0) 0 m s2)
          (λ (n, m', s'). ok (u32 n, m', s'))
          (ReadsOn 0 (first_line term (suc (len - 1)) (line.incoming s2)) m s2)
          (ReadsLine (first_line term len (line.incoming s)) m s) LateError
          (read_loop-Reads fuel (elapsed_init (port.time_current_ms s).0) (len - 1) 0 m s2
            (omega (arith, some_room)) (omega (arith, some_room, enough)) room
            (omega (arith, small))
            (ap (comes term (suc (len - 1))) i
              ∙ ap (λ n. comes term n (line.incoming s)) same
              ∙ come)
            (omega (arith, idle.2, (line.ticks s).2, eager)))
          (whole s2 (i, idle.1 ∙ (line.ticks s).1, omega (arith, idle.2, (line.ticks s).2))))
    where
      same : suc (len - 1) ≡ len
      same = omega (arith, some_room)

      some_come : (n : ℕ) (xs : List ℕ) → 0 < n → comes term n xs ≡ true → 0 < length xs
      some_come zero xs positive h = absurd (omega (arith, positive))
      some_come (suc n) [] positive h = absurd (ground arith)
      some_come (suc n) (x ∷ xs) positive h = omega arith

      whole :
          (s2 : S)
          → Idle line s s2
          → (r : ℕ × List ℕ × S)
          → ReadsOn 0 (first_line term (suc (len - 1)) (line.incoming s2)) m s2 r
          → ReadsLine (first_line term len (line.incoming s)) m s (u32 r.0, r.1, r.2)
      whole s2 idle r h =
          subst (λ bytes. ReadsLine bytes m s (u32 r.0, r.1, r.2))
            (ap (first_line term (suc (len - 1))) idle.0
              ∙ ap (λ n. first_line term n (line.incoming s)) same)
            (from_start (first_line term (suc (len - 1)) (line.incoming s2))
              (omega
                (arith, length-first_line term (suc (len - 1)) (line.incoming s2), same, small))
              r h)
        where
          from_start :
              (bytes : List ℕ)
              → length bytes < 2 ^ 31
              → (r : ℕ × List ℕ × S) → ReadsOn 0 bytes m s2 r
              → ReadsLine bytes m s (u32 r.0, r.1, r.2)
          from_start bytes few (n, m', s') (e, em, got) = (
            omega (arith, e, few),
            em ∙ ap (λ k. overwrite m k bytes) (omega arith),
            Received-then line s s2 s' [] bytes (Received-nothing line s s2 idle) got,
          )
