-- ===== src/Uart/Host/Tests.antt =====
-- A port on Linux whose wait a signal interrupts once, and from which three bytes at most come at once; it has no
-- room for writes.
use nuhal.Common.{
  ℕ, zero, suc, ◌+◌, ◌<◌, ◌≡◌, ◌≢◌, refl, sym, ◌∙◌, ap, arith, Bool, true, false, Option, none,
  some, List, [], ◌∷◌, length, take, drop, min, inl, ok, Settles, read_timeout, length-take,
  take-drop, if◌then◌else◌,
}
use nuhal.Memory.{overwrite}
use nuhal.Time.{elapsed_init, time_elapsed}
use nuhal.Uart.{no_term, read_block_error, read_loop, in_time, ends}
use nuhal.Uart.Host.{
  Posix, failed, ready, host_port, uart_read_nonblock, read_result, uart_wait_for_data, wait_loop,
  wait_result,
}
use nuhal.Uart.Host.OnLine.{
  View, IsLinux, ReadsAs, PollsAs, ReadsOnLinux, read_block_error-on_linux,
}

record World : Type 0 where
  pending : List ℕ
  sent : List ℕ
  interrupted : Bool
  error_number : ℕ
  now : ℕ

-- The constants of x86-64 Linux.
unfoldable linux : Posix World
linux = record {
  read = λ fd n w. elim w.pending [
    | [] ↦ (none, record w { error_number = 11 })
    | x ∷ xs ↦ (some (take (min 3 n) (x ∷ xs)), record w { pending = drop (min 3 n) (x ∷ xs) })
  ];
  write = λ fd bytes w. (none, record w { error_number = 11 });
  poll = λ fd events limit w. elim limit [
    | some zero ↦ (ready 1, w)
    | _ ↦ elim w.interrupted [
      | true ↦ (failed, record w { interrupted = false; error_number = 4 })
      | false ↦ (ready 1, w)
    ]
  ];
  flock = λ fd op w. (true, w);
  tcgetattr = λ fd w. (none, w);
  tcsetattr = λ fd tio w. (true, w);
  tcsendbreak = λ fd duration w. w;
  errno_of = λ w. w.error_number;
  time_ms = λ w. (w.now, record w { now = w.now + 1 });
  eagain = 11;
  ewouldblock = 11;
  eintr = 4;
  int_max = 2147483647;
  pollin = 1;
  lock_ex = 2;
  lock_un = 8;
  parenb = 256;
  parodd = 512;
}

abbrev world : World
world = record {
  pending = 1 ∷ 2 ∷ 3 ∷ 4 ∷ 5 ∷ [];
  sent = [];
  interrupted = true;
  error_number = 0;
  now = 0;
}

read_four :
    read_block_error (host_port linux 3 2) 4 (0 ∷ 0 ∷ 0 ∷ 0 ∷ []) 0 4 100 no_term true world
    ≡ ok (
      4,
      1 ∷ 2 ∷ 3 ∷ 4 ∷ [],
      record { pending = 5 ∷ []; sent = []; interrupted = false; error_number = 4; now = 3 },
    )
unfolding read_block_error read_loop in_time ends time_elapsed elapsed_init host_port linux
    uart_read_nonblock read_result uart_wait_for_data wait_loop wait_result overwrite
read_four = refl

abbrev view : View World
view = record {
  incoming = λ w. w.pending;
  outgoing = λ w. w.sent;
  patience = λ w. 0;
  interrupts = λ w. if w.interrupted then 1 else 0;
}

linux-IsLinux : IsLinux linux 3 view
unfolding linux
linux-IsLinux = record {
  reading = λ w n. reading w w.pending n refl;
  polling = λ w limit. polls w limit w.interrupted refl;
  ticking = λ w. (refl, refl, omega arith);
  int_limit = omega arith;
}
  where
    reading :
        (w : World) (xs : List ℕ) (n : ℕ)
        → w.pending ≡ xs
        → ReadsAs linux view w n (linux.read 3 n w)
    reading w [] n e = rw e (
      inl refl,
      (refl, refl, omega arith),
      λ asked more. absurd (omega (arith, ap length e, more)),
    )
    reading w (x ∷ xs) n e = rw e (
      omega (arith, length-take (min 3 n) (x ∷ xs)),
      e ∙ sym (take-drop (min 3 n) (x ∷ xs)),
      refl,
      omega arith,
      λ none asked more. absurd (omega (arith, length-take (min 3 n) (x ∷ xs), none, asked)),
    )

    polls :
        (w : World) (limit : Option ℕ) (b : Bool)
        → w.interrupted ≡ b
        → PollsAs linux view w (linux.poll 3 linux.pollin limit w)
    polls w none true e = rw e ((refl, refl, omega arith), refl, ground (arith, e))
    polls w none false e = rw e (refl, refl, omega arith)
    polls w (some zero) b e = (refl, refl, omega arith)
    polls w (some (suc n)) true e = rw e ((refl, refl, omega arith), refl, ground (arith, e))
    polls w (some (suc n)) false e = rw e (refl, refl, omega arith)

abbrev limit : ℕ
limit = 100

calm : (w : World) → view.interrupts w < 2
calm w = ground arith

read_block_error-on_linux_example :
    Settles
      (read_block_error (host_port linux 3 2) 4 (0 ∷ 0 ∷ 0 ∷ 0 ∷ []) 0 4 100 no_term true world)
      (ReadsOnLinux linux 3 view linux-IsLinux 0 4 100 true (0 ∷ 0 ∷ 0 ∷ 0 ∷ []) world)
      (λ e. (e ≡ read_timeout) × (limit ≢ 0) × (true ≡ true))
read_block_error-on_linux_example =
    read_block_error-on_linux linux 3 view linux-IsLinux 2 4 0 4 100 true (0 ∷ 0 ∷ 0 ∷ 0 ∷ []) world
      calm (omega arith) (omega arith) (omega arith) (omega arith) (omega arith)
