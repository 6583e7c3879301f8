-- ===== src/Uart/Read.antt =====
-- `uart_read_block_error` of nuhal_all/src/uart.c on a line that works, with no terminator.
use nuhal.Common.{
  ℕ, zero, suc, ◌+◌, ◌-◌, ◌^◌, ◌≤◌, ◌<◌, ◌≡◌, ◌≢◌, ◌⊎◌, inl, inr, refl, sym, ◌∙◌, ap, arith, Bool,
  true, false, ok, err, List, [], ◌++◌, length, length-append, Returns-ok, Returns-bind, ◌>>=◌,
  ◌==◌, Settles, Settles-mono, Settles-bind, u32, Bool-cases, if◌then◌else◌, eq→==, ne→==, le→leb,
  add_size, sub_size, Message, read_timeout,
}
use native.Mathlib.Decide.{ℕ_discrete}
use nuhal.Memory.{overwrite, overwrite-append, overwrite-nothing, length-overwrite}
use nuhal.Time.{TimeElapsed, elapsed_init}
use nuhal.Uart.{Port, in_time, no_term, read_loop, read_block_error, ends, deposit}
use nuhal.Uart.Line.{IsLine, Idle, Received, Received-nothing, Received-then, in_time-Idle}

module _ {S : Type 0} (port : Port S) (line : IsLine port) (at len timeout : ℕ)
    (timeout_error : Bool) where
  -- `n` bytes have been read at the end, the first `read` of them before the state `s`: all, or
  -- fewer where the time was over and that is no error.
  abbrev ReadsRest : ℕ → List ℕ → S → ℕ × List ℕ × S → Type 0
  ReadsRest read m s (n, m', s') =
      (bytes : List ℕ) × (n ≡ read + length bytes)
      × (m' ≡ overwrite m (at + read) bytes)
      × Received line s bytes s'
      × (n ≤ len)
      × ((n ≡ len) ⊎ (timeout ≢ 0) × (timeout_error ≡ false))

  -- What a read comes to: the bytes that came in, at the offset, all `len` of them or fewer where
  -- the time was over and that is no error.
  abbrev pub ReadsBlock : List ℕ → S → ℕ × List ℕ × S → Type 0
  ReadsBlock m s (n, m', s') =
      (bytes : List ℕ) × (n ≡ length bytes)
      × (m' ≡ overwrite m at bytes)
      × Received line s bytes s'
      × ((n ≡ len) ⊎ (timeout ≢ 0) × (timeout_error ≡ false))

  -- The only error is the timeout, and only where there is one and it is to be an error.
  abbrev pub TimesOut : Message → Type 0
  TimesOut e = (e ≡ read_timeout) × (timeout ≢ 0) × (timeout_error ≡ true)

  -- Reading `bytes` first, and then the rest.
  ReadsRest-step :
      (read : ℕ) (m : List ℕ) (s s1 s2 : S) (bytes : List ℕ)
      → Idle line s s1
      → Received line s1 bytes s2
      → (r : ℕ × List ℕ × S) → ReadsRest (read + length bytes) (overwrite m (at + read) bytes) s2 r
      → ReadsRest read m s r
  ReadsRest-step read m s s1 s2 bytes idle got (n, m', s') (more, e, em, got', le, why) = (
    bytes ++ more,
    omega (arith, e, length-append bytes more),
    em
        ∙ (ap (λ k. overwrite (overwrite m (at + read) bytes) k more) (omega arith)
            ∙ sym (overwrite-append m (at + read) bytes more)),
    Received-then line s s1 s' [] (bytes ++ more) (Received-nothing line s s1 idle)
        (Received-then line s1 s2 s' bytes more got got'),
    le,
    why,
  )

  -- What the loop comes to with enough fuel.
  abbrev LoopSettles : ℕ → Type 0
  LoopSettles fuel =
      (stamp : TimeElapsed) (read : ℕ) (m : List ℕ) (s : S)
      → at + len ≤ length m
      → len < 2 ^ 63
      → read < len
      → len - read ≤ length (line.incoming s)
      → len - read + line.patience s ≤ fuel
      → Settles (read_loop port at len timeout no_term timeout_error fuel stamp read m s)
          (ReadsRest read m s) TimesOut

  module _ (fuel read : ℕ) (m : List ℕ) (s : S) (room : at + len ≤ length m) (small : len < 2 ^ 63)
      (lo : read < len) (enough : len - read ≤ length (line.incoming s))
      (patient : len - read + line.patience s ≤ suc fuel) where
    times_out :
        (more : Bool) (s1 : S)
        → more ≡ false
        → Idle line s s1
        → (more ≡ true) ⊎ (timeout ≢ 0)
        → Settles
            (if timeout_error then err read_timeout else ok (read, m, s1))
            (ReadsRest read m s)
            TimesOut
    times_out more s1 over idle (inl on) = absurd (ground arith)
    times_out more s1 over idle (inr ne) = elim (Bool-cases timeout_error) [
      | inl t ↦ rw t (refl, ne, refl)
      | inr f ↦ rw f (
        [],
        omega arith,
        sym (overwrite-nothing m (at + read)),
        Received-nothing line s s1 idle,
        omega (arith, lo),
        inr (ne, refl),
      )
    ]

    progress_in :
        (bytes : List ℕ) (s1 s2 : S)
        → Idle line s s1
        → sub_size len read ≡ len - read
        → (length bytes ≡ 0
            → 0 < sub_size len read
            → 0 < length (line.incoming s1)
            → line.patience s2 < line.patience s1)
        → length bytes ≡ 0
        → line.patience s2 < line.patience s1
    progress_in bytes s1 s2 idle asked progress none =
        progress none (omega (arith, asked, lo)) (omega (arith, ap length idle.0, enough, lo))

    less :
        (bytes : List ℕ) (s1 s2 : S)
        → Idle line s s1
        → length bytes ≤ len - read
        → line.patience s2 ≤ line.patience s1
        → (length bytes ≡ 0 → line.patience s2 < line.patience s1)
        → len - (read + length bytes) + line.patience s2 ≤ fuel
    less bytes s1 s2 idle short p progress = elim (ℕ_discrete (length bytes) 0) [
      | yes none ↦ omega (arith, none, progress none, idle.2, patient)
      | no some_bytes ↦ omega (arith, some_bytes, p, idle.2, patient, short)
    ]

    round :
        LoopSettles fuel
        → (stamp' : TimeElapsed) (bytes : List ℕ) (s1 s2 : S) → Idle line s s1
        → length bytes ≤ sub_size len read
        → Received line s1 bytes s2
        → (length bytes ≡ 0
            → 0 < sub_size len read
            → 0 < length (line.incoming s1)
            → line.patience s2 < line.patience s1)
        → Settles
            (deposit m (at + read) bytes >>= λ m'.
              if add_size read (length bytes) == len
              then ok (add_size read (length bytes), m', s2)
              else read_loop port at len timeout no_term timeout_error fuel stamp'
                  (add_size read (length bytes))
                  m'
                  s2)
            (ReadsRest read m s)
            TimesOut
    round rest stamp' bytes s1 s2 idle short (i, o, p) progress =
        let asked : sub_size len read ≡ len - read = omega (arith, lo, small) in
        let came : length (line.incoming s1) ≡ length bytes + length (line.incoming s2) =
          ap length i ∙ length-append bytes (line.incoming s2) in
        let same : length (line.incoming s1) ≡ length (line.incoming s) = ap length idle.0 in
        let short' : length bytes ≤ len - read = omega (arith, short, asked) in
        let total : add_size read (length bytes) ≡ read + length bytes =
          omega (arith, short', small, lo) in
        elim (ℕ_discrete (read + length bytes) len) [
          | yes all ↦
              rw
                (
                  le→leb (at + read + length bytes) (length m) (omega (arith, room, all)),
                  total,
                  eq→== (read + length bytes) len all,
                )
                (
                  bytes,
                  refl,
                  refl,
                  Received-then line s s1 s2 [] bytes (Received-nothing line s s1 idle) (i, o, p),
                  omega (arith, all),
                  inl all,
                )
          | no part ↦
              rw
                (
                  le→leb (at + read + length bytes) (length m) (omega (arith, room, short', lo)),
                  total,
                  ne→== (read + length bytes) len part,
                )
                (Settles-mono
                  (read_loop port at len timeout no_term timeout_error fuel stamp'
                    (read + length bytes) (overwrite m (at + read) bytes) s2)
                  (ReadsRest (read + length bytes) (overwrite m (at + read) bytes) s2)
                  (ReadsRest read m s) TimesOut
                  (rest stamp' (read + length bytes) (overwrite m (at + read) bytes) s2
                    (omega (arith, room, length-overwrite m (at + read) bytes)) small
                    (omega (arith, short', part, lo))
                    (omega (arith, came, same, enough, short', lo))
                    (less bytes s1 s2 idle short' p (progress_in bytes s1 s2 idle asked progress)))
                  (ReadsRest-step read m s s1 s2 bytes idle (i, o, p)))
        ]

  read_loop-Settles : (fuel : ℕ) → LoopSettles fuel
  unfolding read_loop ends
  read_loop-Settles zero stamp read m s room small lo enough patient = absurd (omega arith)
  read_loop-Settles (suc fuel) stamp read m s room small lo enough patient =
      Returns-bind (in_time port stamp timeout s) _ _ (ReadsRest read m s) TimesOut
        (in_time-Idle line stamp timeout s)
        λ (more, stamp', s1) (idle, why). elim (Bool-cases more) [
          | inr over ↦
              rw over (times_out fuel read m s room small lo enough patient more s1 over idle why)
          | inl going ↦ rw going (
              Returns-bind (port.read_nonblock s1 (sub_size len read)) _ _ (ReadsRest read m s)
                TimesOut (line.reads s1 (sub_size len read))
                λ (bytes, s2) (short, got, o, p, progress).
                  round fuel read m s room small lo enough patient (read_loop-Settles fuel) stamp'
                    bytes s1 s2 idle short (got, o, p) progress)
        ]

  -- On a line that does what uart.h promises and on which at least len bytes come in,
  -- uart_read_block_error of less than 2^31 bytes, with no terminator, room for len bytes and a
  -- timeout below 2^31 ms, ends, given a round for each byte and for each call that may find
  -- nothing: with the number of the bytes that came in as the result, these in their order and at
  -- the right place, and they are all len unless there is a timeout that is no error; or with the
  -- timeout error, if there is a timeout and it is to be an error.
  pub read_block_error-Settles :
      (fuel : ℕ) (m : List ℕ) (s : S)
      → timeout < 2 ^ 31
      → at + len ≤ length m
      → len < 2 ^ 31
      → len ≤ length (line.incoming s)
      → len + line.patience s ≤ fuel
      → Settles
          (read_block_error port fuel m at len timeout no_term timeout_error s)
          (ReadsBlock m s)
          TimesOut
  unfolding read_block_error overwrite
  read_block_error-Settles fuel m s limit room small enough patient = elim (ℕ_discrete 0 len) [
    | yes none ↦
        rw (eq→== 0 len none)
          ([], refl, refl, Received-nothing line s s (refl, refl, omega arith), inl none)
    | no some_bytes ↦
        let s1 = (port.time_current_ms s).1 in
        let ((_, s2), e, idle) = Returns-ok (port.wait_for_data s1 timeout) _ (
          line.waits s1 timeout limit
            (omega (arith, some_bytes, ap length (line.ticks s).0, enough))) in
        rw (ne→== 0 len some_bytes, e)
          (Settles-bind
            (read_loop port at len timeout no_term timeout_error fuel
              (elapsed_init (port.time_current_ms s).0) 0 m s2)
            (λ (n, m', s'). ok (u32 n, m', s')) (ReadsRest 0 m s2) (ReadsBlock m s) TimesOut
            (read_loop-Settles fuel (elapsed_init (port.time_current_ms s).0) 0 m s2 room
              (omega (arith, small)) (omega (arith, some_bytes))
              (omega (arith, ap length (idle.0 ∙ (line.ticks s).0), enough))
              (omega (arith, idle.2, (line.ticks s).2, patient)))
            (whole s2 (
              idle.0 ∙ (line.ticks s).0,
              idle.1 ∙ (line.ticks s).1,
              omega (arith, idle.2, (line.ticks s).2),
            )))
  ]
    where
      whole :
          (s2 : S)
          → Idle line s s2
          → (r : ℕ × List ℕ × S) → ReadsRest 0 m s2 r
          → ReadsBlock m s (u32 r.0, r.1, r.2)
      whole s2 idle (n, m', s') (bytes, e, em, got, le, why) =
          let same : u32 n ≡ n = omega (arith, le, small) in
          (
            bytes,
            omega (arith, e, same),
            em ∙ ap (λ k. overwrite m k bytes) (omega arith),
            Received-then line s s2 s' [] bytes (Received-nothing line s s2 idle) got,
            rw same why,
          )
