-- ===== src/Protocol/Broadcast/Ends.antt =====
-- About the end of the loop in `protocol_broadcast_timeout` of nuhal_all/src/protocol.c.
use nuhal.Common.{
  ℕ, zero, suc, ◌+◌, ◌-◌, ◌*◌, ◌^◌, ◌≤◌, ◌<◌, ◌≡◌, ◌⊎◌, inl, inr, refl, sym, ◌∙◌, ap, arith, true,
  false, List, [], ◌∷◌, length, ltb, ok, err, undefined, unfinished, Outcome, ◌>>=◌, if◌then◌else◌,
  load, Bool-cases, add32, timeout, not, ◌&&◌, some, leb,
}
use nuhal.Time.{TimeElapsed, time_elapsed, since}
use nuhal.Time.Running.{IsRunning, exact_sum, not_over, fewer_rounds}
use nuhal.Uart.{Port, deposit}
use nuhal.Protocol.Broadcast.{Lane, set_length, set_lengths, more_to_read, read_row, read_all}

-- The call ends; if it returns, what it returns satisfies `P`.
abbrev pub Ends {ℓ} : {A : Type ℓ} → Outcome A → (A → Type 0) → Type 0
Ends (ok a) P = P a
Ends (err e) P = Unit
Ends undefined P = Unit
Ends unfinished P = ⊥

pub Ends-bind {ℓ κ} :
    {A : Type ℓ} {B : Type κ} (m : Outcome A) (f : A → Outcome B) (P : A → Type 0) (Q : B → Type 0)
    → Ends m P
    → ((a : A) → P a → Ends (f a) Q)
    → Ends (m >>= f) Q
Ends-bind (ok a) f P Q h g = g a h
Ends-bind (err e) f P Q h g = tt
Ends-bind undefined f P Q h g = tt
Ends-bind unfinished f P Q h g = absurd h

deposit-Ends : (m : List ℕ) (at : ℕ) (bytes : List ℕ) → Ends (deposit m at bytes) (λ _. Unit)
deposit-Ends m at bytes = elim (Bool-cases (leb (at + length bytes) (length m))) [
  | inl fits ↦ rw fits tt
  | inr not_fits ↦ rw not_fits tt
]

set_length-Ends : (lane : Lane) → Ends (set_length lane) (λ _. Unit)
unfolding set_length
set_length-Ends lane = elim (Bool-cases (not lane.length_set && ltb 0 lane.index)) [
  | inl first ↦ rw first (
      Ends-bind (load lane.packet.stream.memory 0) _ (λ _. Unit) (λ _. Unit)
        (loads lane.packet.stream.memory) λ _ _. tt)
  | inr later ↦ rw later tt
]
  where
    loads : (m : List ℕ) → Ends (load m 0) (λ _. Unit)
    loads [] = tt
    loads (x ∷ m) = tt

set_lengths-Ends : (lanes : List Lane) → Ends (set_lengths lanes) (λ _. Unit)
unfolding set_lengths
set_lengths-Ends [] = tt
set_lengths-Ends (lane ∷ lanes) =
    Ends-bind (set_length lane) _ (λ _. Unit) (λ _. Unit) (set_length-Ends lane)
      λ lane' _.
        Ends-bind (set_lengths lanes) _ (λ _. Unit) (λ _. Unit) (set_lengths-Ends lanes) λ _ _. tt

module _ {S : Type 0} (clock : Port S) {slow most : ℕ}
    (running : IsRunning clock.time_current_ms clock.time_period_ms slow most) where
  -- Between two states the clock was not read.
  abbrev pub Unread : S → S → Type 0
  Unread s s' = (running.last s' ≡ running.last s) × (running.stalls s' ≤ running.stalls s)

  -- The calls that read from the ports end, and do not read the clock.
  abbrev pub AreReadable : List (Port S) → Type 0
  AreReadable [] = Unit
  AreReadable (port ∷ ports) =
      ((s : S) (n : ℕ) → Ends (port.read_nonblock s n) (λ (_, s'). Unread s s')) × AreReadable ports

  read_row-Ends :
      (ports : List (Port S)) (lanes : List Lane) (s : S)
      → AreReadable ports
      → Ends (read_row ports lanes s) (λ (_, s'). Unread s s')
  unfolding read_row
  read_row-Ends [] lanes s h = (refl, omega arith)
  read_row-Ends (port ∷ ports) [] s h = tt
  read_row-Ends (port ∷ ports) (lane ∷ lanes) s h =
      Ends-bind (port.read_nonblock s 12) _ (λ (_, s'). Unread s s') (λ (_, s'). Unread s s')
        (h.0 s 12)
        λ (bytes, s1) u1.
          Ends-bind (deposit lane.packet.stream.memory lane.index bytes) _ (λ _. Unit)
            (λ (_, s'). Unread s s') (deposit-Ends lane.packet.stream.memory lane.index bytes)
            λ m _.
              Ends-bind (read_row ports lanes s1) _ (λ (_, s'). Unread s1 s')
                (λ (_, s'). Unread s s') (read_row-Ends ports lanes s1 h.1)
                λ (rest, s2) u2. (u2.0 ∙ u1.0, omega (arith, u1.1, u2.1))

  -- The rounds that are left: `most` that show no later time for each unit that is left.
  abbrev rounds_left : ℕ → TimeElapsed → S → ℕ
  rounds_left limit stamp s = (limit - stamp.elapsed_time) * (most + 1) + running.stalls s

  -- What the loop comes to with the rounds it may need.
  abbrev LoopEnds : List (Port S) → ℕ → ℕ → Type 0
  LoopEnds ports limit fuel =
      (lanes : List Lane) (stamp : TimeElapsed) (s : S)
      → stamp.curr_time ≡ running.last s
      → stamp.elapsed_time ≤ limit
      → rounds_left limit stamp s < fuel
      → Ends (read_all clock fuel ports lanes stamp limit s) (λ _. Unit)

  after_reading :
      (ports : List (Port S)) (limit fuel : ℕ) (lanes2 : List Lane) (stamp : TimeElapsed) (s s1 : S)
      → limit + slow < 2 ^ 32
      → LoopEnds ports limit fuel
      → stamp.curr_time ≡ running.last s
      → stamp.elapsed_time ≤ limit
      → rounds_left limit stamp s < suc fuel
      → Unread s s1
      → Ends {A = List Lane × S}
          (time_elapsed clock.time_period_ms (some stamp) (clock.time_current_ms s1).0
            >>= λ (t, stamp'). if ltb limit t then err timeout else elim (more_to_read lanes2) [
              | true ↦ read_all clock fuel ports lanes2 stamp' limit (clock.time_current_ms s1).1
              | false ↦ ok (lanes2, (clock.time_current_ms s1).1)
            ])
          (λ _. Unit)
  unfolding time_elapsed
  after_reading ports limit fuel lanes2 stamp s s1 small again cur early enough u =
      let (shown, close, later) = running.ticks s1 in
      let now = (clock.time_current_ms s1).0 in
      let d = since clock.time_period_ms stamp.curr_time now in
      let d_here = ap (λ c. since clock.time_period_ms c now) (cur ∙ sym u.0) in
      let total = exact_sum stamp.elapsed_time d (omega (arith, early, small, close, d_here)) in
      elim (Bool-cases (ltb limit (add32 stamp.elapsed_time d))) [
        | inl late ↦ rw late tt
        | inr in_time ↦
            let early' : stamp.elapsed_time + d ≤ limit = not_over limit _ _ total in_time in
            let later' : (0 < d)
                ⊎ (running.stalls (clock.time_current_ms s1).1 < running.stalls s1) =
              rw d_here later in
            let fewer =
              fewer_rounds limit stamp.elapsed_time d most (running.stalls s1)
                (running.stalls (clock.time_current_ms s1).1) early'
                (running.stalls_most (clock.time_current_ms s1).1) later' in
            rw in_time (elim (Bool-cases (more_to_read lanes2)) [
              | inr done ↦ rw done tt
              | inl more ↦ rw more (
                  again lanes2
                    (record {
                      curr_time = now;
                      prev_time = stamp.curr_time;
                      elapsed_time = add32 stamp.elapsed_time d;
                    })
                    (clock.time_current_ms s1).1 (sym shown) (omega (arith, total, early'))
                    (omega (arith, ap (λ t. (limit - t) * (most + 1)) total, fewer, u.1, enough)))
            ])
      ]

  read_all-rounds :
      (ports : List (Port S)) (limit fuel : ℕ)
      → AreReadable ports
      → limit + slow < 2 ^ 32
      → LoopEnds ports limit fuel
  unfolding read_all
  read_all-rounds ports limit zero h small lanes stamp s cur early enough =
      absurd (omega (arith, enough))
  read_all-rounds ports limit (suc fuel) h small lanes stamp s cur early enough =
      Ends-bind (read_row ports lanes s) _ (λ (_, s'). Unread s s') (λ _. Unit)
        (read_row-Ends ports lanes s h)
        λ (lanes1, s1) u.
          Ends-bind (set_lengths lanes1) _ (λ _. Unit) (λ _. Unit) (set_lengths-Ends lanes1)
            λ lanes2 _.
              after_reading ports limit fuel lanes2 stamp s s1 small
                (read_all-rounds ports limit fuel h small) cur early enough u

  -- The loop of a broadcast that reads the responses ends in an error, in undefined behaviour, or
  -- with the responses, where it is given more rounds than ms are left of its timeout, times one
  -- more than the readings that may show no later time, plus as many: if the reads of the ports
  -- end and do not read the clock, the stamp holds the last reading and no more than the timeout,
  -- and the clock runs, with less than 2^32 ms for the timeout and the longest round.
  pub read_all-Ends :
      (ports : List (Port S)) (lanes : List Lane) (stamp : TimeElapsed) (limit fuel : ℕ) (s : S)
      → AreReadable ports
      → limit + slow < 2 ^ 32
      → stamp.curr_time ≡ running.last s
      → stamp.elapsed_time ≤ limit
      → (limit - stamp.elapsed_time) * (most + 1) + most < fuel
      → Ends (read_all clock fuel ports lanes stamp limit s) (λ _. Unit)
  read_all-Ends ports lanes stamp limit fuel s h small cur early enough =
      read_all-rounds ports limit fuel h small lanes stamp s cur early
        (omega (arith, running.stalls_most s, enough))
