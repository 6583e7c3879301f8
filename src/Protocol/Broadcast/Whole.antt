-- ===== src/Protocol/Broadcast/Whole.antt =====
-- About `protocol_broadcast_timeout` of nuhal_all/src/protocol.c as a whole.
use nuhal.Common.{
  ℕ, zero, suc, ◌+◌, ◌-◌, ◌*◌, ◌^◌, ◌<◌, ◌≡◌, sym, ap, arith, List, [], ◌∷◌, ltb, load, Ensures-ok,
  Ptr, some, ◌||◌, ◌==◌, take,
}
use nuhal.Uart.{Port}
use nuhal.Time.{elapsed_init}
use nuhal.Protocol.{Packet, header_init}
use nuhal.Protocol.Broadcast.{
  BroadcastType, header_each, drop_first, init_each, check_each, write_row, write_rows, read_all,
  broadcast_timeout,
}
use nuhal.Protocol.Broadcast.Verified.{Answers, broadcast_timeout-Answers}
use nuhal.Protocol.Broadcast.Ends.{Ends, AreReadable, read_all-Ends}
use nuhal.Time.Running.{IsRunning}
use nuhal.Protocol.Broadcast.Calls.{
  Terminates, then_do, ends_with, test, load-Ends, IsSized, AreSized, LanesAreSized,
  header_init-Ends, header_each-Ends, check_each-Ends, init_each-Ends,
}
use nuhal.Protocol.Broadcast.Sizes.{
  init_each-LanesAreSized, load-IsSized, drop_first-AreSized, take-AreSized, firsts-then,
  responses_of, read_all-Sized,
}

module _ {S : Type 0} where
  -- The calls that write to the ports end.
  abbrev pub AreWritable : List (Port S) → Type 0
  AreWritable [] = Unit
  AreWritable (port ∷ ports) =
      ((s : S) (bytes : List ℕ) → Terminates (port.write_nonblock s bytes)) × AreWritable ports

  write_row-Ends :
      (i : ℕ) (ports : List (Port S)) (outs : List Packet) (s : S)
      → AreWritable ports
      → Terminates (write_row i ports outs s)
  unfolding write_row
  write_row-Ends i [] outs s h = tt
  write_row-Ends i (port ∷ ports) [] s h = tt
  write_row-Ends i (port ∷ ports) (out ∷ outs) s h =
      then_do (load out.stream.memory i) _ (load-Ends out.stream.memory i) λ x _.
        then_do (port.write_nonblock s (x ∷ [])) _ (h.0 s (x ∷ []))
          λ (_, s') _. write_row-Ends i ports outs s' h.1

  write_rows-Ends :
      (i n : ℕ) (ports : List (Port S)) (outs : List Packet) (s : S)
      → AreWritable ports
      → Terminates (write_rows i n ports outs s)
  unfolding write_rows
  write_rows-Ends i zero ports outs s h = tt
  write_rows-Ends i (suc n) ports outs s h =
      then_do (write_row i ports outs s) _ (write_row-Ends i ports outs s h)
        λ s' _. write_rows-Ends (i + 1) n ports outs s' h

  take-AreWritable :
      (n : ℕ) (ports : List (Port S)) → AreWritable ports → AreWritable (take n ports)
  take-AreWritable zero ports h = tt
  take-AreWritable (suc n) [] h = tt
  take-AreWritable (suc n) (port ∷ ports) h = (h.0, take-AreWritable n ports h.1)

  module _ (clock : Port S) {slow most : ℕ}
      (running : IsRunning clock.time_current_ms clock.time_period_ms slow most) where
    take-AreReadable :
        (n : ℕ) (ports : List (Port S))
        → AreReadable clock running ports
        → AreReadable clock running (take n ports)
    take-AreReadable zero ports h = tt
    take-AreReadable (suc n) [] h = tt
    take-AreReadable (suc n) (port ∷ ports) h = (h.0, take-AreReadable n ports h.1)

    broadcast_timeout-Terminates :
        (fuel n limit : ℕ) (ports : List (Port S)) (pkt : List Packet)
        (response : Ptr (List Packet)) (garbage : List Packet) (btype : BroadcastType) (s : S)
        → AreReadable clock running (clock ∷ ports)
        → AreWritable (clock ∷ ports)
        → AreSized pkt
        → AreSized (responses_of response garbage)
        → limit + slow < 2 ^ 32
        → limit * (most + 1) + most < fuel
        → Terminates (
            broadcast_timeout fuel
              (some (clock ∷ ports))
              n
              (some pkt)
              response
              garbage
              btype
              limit
              s)
    unfolding broadcast_timeout elapsed_init
    broadcast_timeout-Terminates fuel zero limit ports pkt response garbage btype s reads writes
          sized room small enough =
        tt
    broadcast_timeout-Terminates fuel (suc k) limit ports pkt response garbage btype s reads writes
          sized room small enough =
        test (ltb 3 (suc k) || suc k == 0) _ _ tt (
          then_do (load pkt 0) _ (load-Ends pkt 0) λ first e.
            then_do (header_init (some first)) _
              (header_init-Ends first
                (Ensures-ok (load pkt 0) IsSized first e (load-IsSized pkt sized)))
              λ (l, first') _.
                then_do (header_each btype l first' (drop_first pkt) (suc k - 1)) _
                  (header_each-Ends btype l first' (drop_first pkt) (suc k - 1)
                    (drop_first-AreSized pkt sized))
                  λ (rest, outs) _. test (ltb 253 l) _ _ tt (
                    firsts-then (suc k) (clock ∷ ports) _ (
                      then_do (write_rows 0 l (clock ∷ take k ports) (first' ∷ outs) s) _
                        (write_rows-Ends 0 l (clock ∷ take k ports) (first' ∷ outs) s
                          (take-AreWritable (suc k) (clock ∷ ports) writes))
                        λ s1 _. firsts-then (suc k) (responses_of response garbage) _ (
                          then_do (init_each (take (suc k) (responses_of response garbage))) _
                            (init_each-Ends (take (suc k) (responses_of response garbage)))
                            λ lanes el.
                              let h =
                                Ensures-ok
                                  (init_each (take (suc k) (responses_of response garbage)))
                                  LanesAreSized lanes el
                                  (init_each-LanesAreSized
                                    (take (suc k) (responses_of response garbage))
                                    (take-AreSized (suc k) (responses_of response garbage) room)) in
                              let (now, s2) = clock.time_current_ms s1 in
                              then_do
                                (read_all clock fuel (clock ∷ take k ports) lanes (elapsed_init now)
                                  limit s2)
                                _
                                (read_all-Ends clock running (clock ∷ take k ports) lanes
                                  (elapsed_init now) limit fuel s2
                                  (take-AreReadable (suc k) (clock ∷ ports) reads) small
                                  (sym (running.ticks s1).0) (omega arith)
                                  (all_left limit fuel enough))
                                λ (lanes', s3) er.
                                  then_do (check_each (first' ∷ outs) lanes') _
                                    (check_each-Ends (first' ∷ outs) lanes' (
                                      Ensures-ok
                                        (read_all clock fuel (clock ∷ take k ports) lanes
                                          (elapsed_init now) limit s2)
                                        (λ (lanes', _). LanesAreSized lanes') (lanes', s3) er
                                        (read_all-Sized clock fuel (clock ∷ take k ports) lanes
                                          (elapsed_init now) limit s2 h)))
                                    λ _ _. tt))))
      where
        limit_left : (limit : ℕ) → limit - 0 ≡ limit
        limit_left limit = omega arith

        all_left :
            (limit fuel : ℕ)
            → limit * (most + 1) + most < fuel
            → (limit - 0) * (most + 1) + most < fuel
        all_left limit fuel h = omega (arith, h, ap (λ t. t * (most + 1)) (limit_left limit))

    -- A broadcast to ports, packets of at most 255 bytes, and responses of at most 255 bytes ends,
    -- in an error, in undefined behaviour, or with a return. If it returns, it was to one, two or
    -- three ports, and it hands back one response for each of them: each has the checksum in its
    -- second byte that its bytes have, and its command is not that of an error response. This is
    -- if the reads and writes of the ports end and the reads do not read the clock, and the clock
    -- of the first port runs, with less than 2^32 ms for the timeout and the longest round; and
    -- with more rounds than ms of the timeout, times one more than the readings that may show no
    -- later time, plus as many.
    pub broadcast_timeout-Ends :
        (fuel n limit : ℕ) (ports : List (Port S)) (pkt : List Packet)
        (response : Ptr (List Packet)) (garbage : List Packet) (btype : BroadcastType) (s : S)
        → AreReadable clock running (clock ∷ ports)
        → AreWritable (clock ∷ ports)
        → AreSized pkt
        → AreSized (responses_of response garbage)
        → limit + slow < 2 ^ 32
        → limit * (most + 1) + most < fuel
        → Ends
            (broadcast_timeout fuel
              (some (clock ∷ ports))
              n
              (some pkt)
              response
              garbage
              btype
              limit
              s)
            (Answers n)
    broadcast_timeout-Ends fuel n limit ports pkt response garbage btype s reads writes sized room
          small enough =
        ends_with
          (broadcast_timeout fuel (some (clock ∷ ports)) n (some pkt) response garbage btype limit
            s)
          (Answers n)
          (broadcast_timeout-Terminates fuel n limit ports pkt response garbage btype s reads writes
            sized room small enough)
          (broadcast_timeout-Answers fuel n limit (some (clock ∷ ports)) (some pkt) response garbage
            btype s)
