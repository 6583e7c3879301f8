-- ===== src/Uart/Host/OnLine.antt =====
-- nuhal_linux/src/uart_host.c does what nuhal_all/include/nuhal/uart.h promises of reads, where the
-- system's calls do what their manual pages say. Of write() nothing is assumed.
use nuhal.Common.{
  ℕ, zero, suc, ◌+◌, ◌-◌, ◌^◌, ◌≤◌, ◌<◌, ◌≡◌, ◌≢◌, ◌⊎◌, inl, inr, refl, sym, ◌∙◌, arith, Bool, true,
  false, Option, none, some, List, ◌++◌, length, Returns, Returns-ok, if◌then◌else◌, Settles,
  Settles-mono, read_timeout, le→ltb, eq→==, ◌==◌, ◌||◌,
}
use nuhal.Memory.{overwrite}
use nuhal.Uart.{no_term, read_block_error}
use nuhal.Uart.Line.{IsLine}
use nuhal.Uart.Read.{read_block_error-Settles}
use nuhal.Uart.Host.{
  Posix, Polled, failed, timed_out, ready, uart_read_nonblock, read_result, wait_result, wait_loop,
  uart_wait_for_data, host_port,
}

-- What is on a port's line: the bytes to come and those sent; how many calls may still find nothing to
-- read or no room, and how often a wait may still be interrupted.
pub record View (W : Type 0) : Type 0 where
  pub incoming : W → List ℕ
  pub outgoing : W → List ℕ
  pub patience : W → ℕ
  pub interrupts : W → ℕ

module _ {W : Type 0} (px : Posix W) (view : View W) where
  -- Nothing was read or sent.
  abbrev Unmoved : W → W → Type 0
  Unmoved w w' =
      (view.incoming w' ≡ view.incoming w)
      × (view.outgoing w' ≡ view.outgoing w)
      × (view.patience w' ≤ view.patience w)

  -- read() hands over bytes that came in, or has none and says so in errno.
  abbrev pub ReadsAs : W → ℕ → Option (List ℕ) × W → Type 0
  ReadsAs w n (some bytes, w') =
      (length bytes ≤ n)
      × (view.incoming w ≡ bytes ++ view.incoming w')
      × (view.outgoing w' ≡ view.outgoing w)
      × (view.patience w' ≤ view.patience w)
      × (length bytes ≡ 0
          → 0 < n
          → 0 < length (view.incoming w)
          → view.patience w' < view.patience w)
  ReadsAs w n (none, w') =
      ((px.errno_of w' ≡ px.eagain) ⊎ (px.errno_of w' ≡ px.ewouldblock))
      × Unmoved w w'
      × (0 < n → 0 < length (view.incoming w) → view.patience w' < view.patience w)

  -- poll() leaves the line alone, and fails only where a signal interrupts it.
  abbrev pub PollsAs : W → Polled × W → Type 0
  PollsAs w (failed, w') =
      Unmoved w w' × (px.errno_of w' ≡ px.eintr) × (view.interrupts w' < view.interrupts w)
  PollsAs w (timed_out, w') = Unmoved w w'
  PollsAs w (ready revents, w') = Unmoved w w'

-- The system's calls on the port `fd`.
pub record IsLinux {W : Type 0} (px : Posix W) (fd : ℕ) (view : View W) : Type 0 where
  pub reading : (w : W) (n : ℕ) → ReadsAs px view w n (px.read fd n w)
  pub polling : (w : W) (limit : Option ℕ) → PollsAs px view w (px.poll fd px.pollin limit w)
  pub ticking : (w : W) → Unmoved px view w (px.time_ms w).1
  pub int_limit : px.int_max ≡ 2 ^ 31 - 1

module _ {W : Type 0} (px : Posix W) (fd : ℕ) (view : View W) where
  pub reads :
      (w : W) (n : ℕ) (r : Option (List ℕ) × W)
      → ReadsAs px view w n r
      → Returns (read_result px fd r) λ (bytes, w').
        (length bytes ≤ n)
        × (view.incoming w ≡ bytes ++ view.incoming w')
        × (view.outgoing w' ≡ view.outgoing w)
        × (view.patience w' ≤ view.patience w)
        × (length bytes ≡ 0
            → 0 < n
            → 0 < length (view.incoming w)
            → view.patience w' < view.patience w)
  unfolding read_result
  reads w n (some bytes, w') h = h
  reads w n (none, w') (inl again, (i, o, p), less) =
      rw (eq→== (px.errno_of w') px.eagain again)
        (omega arith, sym i, o, p, λ none asked more. less asked more)
  reads w n (none, w') (inr again, (i, o, p), less) =
      rw
        (blocks (px.errno_of w' == px.eagain) (px.errno_of w' == px.ewouldblock)
          (eq→== (px.errno_of w') px.ewouldblock again))
        (omega arith, sym i, o, p, λ none asked more. less asked more)
    where
      blocks : (a b : Bool) → b ≡ true → (a || b) ≡ true
      blocks true b e = refl
      blocks false b e = e

  module _ (linux : IsLinux px fd view) where
    -- A wait that is interrupted fewer times than it has rounds.
    pub waits :
        (fuel timeout : ℕ) (w : W)
        → view.interrupts w < fuel
        → Returns (wait_loop px fd fuel timeout w) λ (_, w'). Unmoved px view w w'
    unfolding wait_loop wait_result
    waits zero timeout w h = absurd (omega arith)
    waits (suc fuel) timeout w h =
        result fuel timeout w h
          (px.poll fd px.pollin (if timeout == 0 then none else some timeout) w)
          (linux.polling w (if timeout == 0 then none else some timeout))
          (λ w' lt. waits fuel timeout w' lt)
      where
        result :
            (fuel timeout : ℕ) (w : W)
            → view.interrupts w < suc fuel
            → (r : Polled × W) → PollsAs px view w r
            → ((w' : W)
                → view.interrupts w' < fuel
                → Returns (wait_loop px fd fuel timeout w') λ (_, w''). Unmoved px view w' w'')
            → Returns
                (wait_result px fd (wait_loop px fd fuel timeout) r)
                λ (_, w'). Unmoved px view w w'
        result fuel timeout w h (ready revents, w') moved rest = moved
        result fuel timeout w h (timed_out, w') moved rest = moved
        result fuel timeout w h (failed, w') ((i, o, p), again, less) rest =
            let ((b, w''), e, (i', o', p')) =
              Returns-ok (wait_loop px fd fuel timeout w') _ (rest w' (omega (arith, less, h))) in
            rw (wait_result, eq→== (px.errno_of w') px.eintr again, e)
              (i' ∙ i, o' ∙ o, omega (arith, p, p'))

    -- The calls of uart_host.c keep the promises of uart.h that a read needs.
    unfoldable pub host-IsLine :
        (fuel : ℕ) → ((w : W) → view.interrupts w < fuel) → IsLine (host_port px fd fuel)
    unfolding host_port uart_read_nonblock uart_wait_for_data
    host-IsLine fuel calm = record {
      incoming = view.incoming;
      outgoing = view.outgoing;
      patience = view.patience;
      reads = λ w n. reads w n (px.read fd n w) (linux.reading w n);
      waits = λ w timeout small _.
          rw (le→ltb px.int_max timeout (omega (arith, linux.int_limit, small)))
            (waits fuel timeout w (calm w));
      ticks = linux.ticking;
    }

    -- What a blocking read comes to, in the terms of the line.
    abbrev pub ReadsOnLinux : ℕ → ℕ → ℕ → Bool → List ℕ → W → ℕ × List ℕ × W → Type 0
    ReadsOnLinux at len timeout timeout_error m w (n, m', w') =
        (bytes : List ℕ) × (n ≡ length bytes)
        × (m' ≡ overwrite m at bytes)
        × (view.incoming w ≡ bytes ++ view.incoming w')
        × ((n ≡ len) ⊎ (timeout ≢ 0) × (timeout_error ≡ false))

    -- On Linux, where read() hands over what came in or says EAGAIN or EWOULDBLOCK, poll() fails
    -- only by an interrupt, each wait is interrupted fewer times than it has rounds, and at least
    -- len bytes come in, less than 2^31: uart_read_block_error over the calls of uart_host.c, with
    -- no terminator, room for len bytes and a timeout below 2^31 ms, ends, given a round for each
    -- byte and for each call that finds nothing, with the number of the bytes that came in and
    -- these at the right place, all len unless there is a timeout that is no error, or with the
    -- timeout error, if there is a timeout and it is to be an error.
    pub read_block_error-on_linux :
        (fuel rounds at len timeout : ℕ) (timeout_error : Bool) (m : List ℕ) (w : W)
        → ((w : W) → view.interrupts w < fuel)
        → timeout < 2 ^ 31
        → at + len ≤ length m
        → len < 2 ^ 31
        → len ≤ length (view.incoming w)
        → len + view.patience w ≤ rounds
        → Settles
            (read_block_error
              (host_port px fd fuel)
              rounds
              m
              at
              len
              timeout
              no_term
              timeout_error
              w)
            (ReadsOnLinux at len timeout timeout_error m w)
            (λ e. (e ≡ read_timeout) × (timeout ≢ 0) × (timeout_error ≡ true))
    unfolding host-IsLine
    read_block_error-on_linux fuel rounds at len timeout timeout_error m w calm limit room small
          enough patient =
        Settles-mono
          (read_block_error (host_port px fd fuel) rounds m at len timeout no_term timeout_error w)
          _ (ReadsOnLinux at len timeout timeout_error m w)
          (λ e. (e ≡ read_timeout) × (timeout ≢ 0) × (timeout_error ≡ true))
          (read_block_error-Settles (host_port px fd fuel) (host-IsLine fuel calm) at len timeout
            timeout_error rounds m w limit room small enough patient)
          λ (n, m', w') (bytes, e, em, got, why). (bytes, e, em, got.0, why)
