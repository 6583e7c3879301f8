-- ===== src/Uart/Line.antt =====
-- What nuhal_all/include/nuhal/uart.h promises of a platform's calls on a line that works: reads hand
-- over the bytes that come in, in order and no more than asked for. What it promises of writes, that they
-- take some of what they are given, stands apart, since a platform may be a line for reads only.
use nuhal.Common.{
  ℕ, ◌^◌, ◌≤◌, ◌<◌, ◌≡◌, ◌≢◌, ◌⊎◌, inl, inr, refl, ◌∙◌, ap, arith, true, List, [], ◌++◌, length,
  Returns, append_assoc, sym, eq→==, ne→==,
}
use native.Mathlib.Decide.{ℕ_discrete}
use nuhal.Memory.{slice}
use nuhal.Time.{TimeElapsed, time_elapsed}
use nuhal.Uart.{Port, in_time}

-- `incoming s` are the bytes that are still to be read, and `outgoing s` those taken for sending so
-- far. At most `patience s` further calls find nothing to read or no room, though there are bytes
-- to come or to send. A wait need not end where no more bytes come in.
pub record IsLine {S : Type 0} (port : Port S) : Type 0 where
  pub incoming : S → List ℕ
  pub outgoing : S → List ℕ
  pub patience : S → ℕ
  pub reads :
      (s : S) (n : ℕ)
      → Returns (port.read_nonblock s n) λ (bytes, s').
        (length bytes ≤ n)
        × (incoming s ≡ bytes ++ incoming s')
        × (outgoing s' ≡ outgoing s)
        × (patience s' ≤ patience s)
        × (length bytes ≡ 0 → 0 < n → 0 < length (incoming s) → patience s' < patience s)
  pub waits :
      (s : S) (timeout : ℕ)
      → timeout < 2 ^ 31
      → 0 < length (incoming s)
      → Returns (port.wait_for_data s timeout) λ (_, s').
        (incoming s' ≡ incoming s) × (outgoing s' ≡ outgoing s) × (patience s' ≤ patience s)
  pub ticks :
      (s : S)
      → (incoming (port.time_current_ms s).1 ≡ incoming s)
        × (outgoing (port.time_current_ms s).1 ≡ outgoing s)
        × (patience (port.time_current_ms s).1 ≤ patience s)

-- A write takes some of the bytes it is given, and does not fail.
pub record CanWrite {S : Type 0} (port : Port S) (line : IsLine port) : Type 0 where
  pub writes :
      (s : S) (bytes : List ℕ)
      → Returns (port.write_nonblock s bytes) λ (n, s').
        (n ≤ length bytes)
        × (line.outgoing s' ≡ line.outgoing s ++ slice bytes 0 n)
        × (line.incoming s' ≡ line.incoming s)
        × (line.patience s' ≤ line.patience s)
        × (n ≡ 0 → 0 < length bytes → line.patience s' < line.patience s)

module _ {S : Type 0} {port : Port S} (line : IsLine port) where
  -- Between two states nothing was read or sent.
  abbrev pub Idle : S → S → Type 0
  Idle s s' =
      (line.incoming s' ≡ line.incoming s)
      × (line.outgoing s' ≡ line.outgoing s)
      × (line.patience s' ≤ line.patience s)

  -- Between two states exactly `bytes` came in.
  abbrev pub Received : S → List ℕ → S → Type 0
  Received s bytes s' =
      (line.incoming s ≡ bytes ++ line.incoming s')
      × (line.outgoing s' ≡ line.outgoing s)
      × (line.patience s' ≤ line.patience s)

  -- Between two states exactly `bytes` were sent.
  abbrev pub Sent : S → List ℕ → S → Type 0
  Sent s bytes s' =
      (line.outgoing s' ≡ line.outgoing s ++ bytes)
      × (line.incoming s' ≡ line.incoming s)
      × (line.patience s' ≤ line.patience s)

  pub Received-nothing : (s s' : S) → Idle s s' → Received s [] s'
  Received-nothing s s' (i, o, p) = (sym i, o, p)

  pub Received-then :
      (s s' s'' : S) (xs ys : List ℕ)
      → Received s xs s'
      → Received s' ys s''
      → Received s (xs ++ ys) s''
  Received-then s s' s'' xs ys (i, o, p) (i', o', p') = (
    i ∙ (ap (λ (t : List ℕ). xs ++ t) i' ∙ sym (append_assoc xs ys (line.incoming s''))),
    o' ∙ o,
    omega (arith, p, p'),
  )

  pub Sent-then :
      (s s' s'' : S) (xs ys : List ℕ) → Sent s xs s' → Sent s' ys s'' → Sent s (xs ++ ys) s''
  Sent-then s s' s'' xs ys (o, i, p) (o', i', p') = (
    o' ∙ (ap (λ (t : List ℕ). t ++ ys) o ∙ append_assoc (line.outgoing s) xs ys),
    i' ∙ i,
    omega (arith, p, p'),
  )

  -- The test of a loop's timeout only reads the clock, and fails only if there is a timeout.
  pub in_time-Idle :
      (stamp : TimeElapsed) (timeout : ℕ) (s : S)
      → Returns
          (in_time port stamp timeout s)
          λ (more, _, s'). Idle s s' × ((more ≡ true) ⊎ (timeout ≢ 0))
  unfolding in_time time_elapsed
  in_time-Idle stamp timeout s = elim (ℕ_discrete timeout 0) [
    | yes e ↦ rw (eq→== timeout 0 e) ((refl, refl, omega arith), inl refl)
    | no ne ↦ rw (ne→== timeout 0 ne) (line.ticks s, inr ne)
  ]
