-- ===== src/Protocol/Broadcast/Sizes.antt =====
-- The sizes of the packets of `protocol_broadcast_timeout` of nuhal_all/src/protocol.c.
use nuhal.Common.{
  ℕ, zero, suc, ◌+◌, ◌≡◌, refl, arith, List, [], ◌∷◌, length, ltb, leb, Outcome, ◌>>=◌, load,
  Bool-cases, Ensures, Ensures-bind, Ensures-guard, Ensures-ok, Ptr, none, some, take, ◌&&◌, not,
  inl, inr,
}
use nuhal.Bytestream
use nuhal.Bytestream.{Bytestream, extract_u8, verify_args}
use nuhal.Memory.{length-overwrite}
use nuhal.Uart.{Port, deposit}
use nuhal.Time.{TimeElapsed, time_elapsed}
use nuhal.Protocol.{Packet, packet_stream_init}
use nuhal.Protocol.Broadcast.{
  Lane, drop_first, firsts, init_each, read_row, set_length, set_lengths, more_to_read, read_all,
}
use nuhal.Protocol.Broadcast.Calls.{Terminates, IsSized, AreSized, LanesAreSized}

pub init_each-LanesAreSized :
    (packets : List Packet) → AreSized packets → Ensures (init_each packets) LanesAreSized
unfolding init_each packet_stream_init Bytestream.init
init_each-LanesAreSized [] h = tt
init_each-LanesAreSized (p ∷ packets) h =
    Ensures-bind (init_each packets) _ LanesAreSized λ lanes e. (
      h.0,
      Ensures-ok (init_each packets) LanesAreSized lanes e (init_each-LanesAreSized packets h.1),
    )

deposit-size :
    (m : List ℕ) (at : ℕ) (bytes : List ℕ)
    → Ensures (deposit m at bytes) (λ m'. length m' ≡ length m)
deposit-size m at bytes = elim (Bool-cases (leb (at + length bytes) (length m))) [
  | inl fits ↦ rw fits (length-overwrite m at bytes)
  | inr not_fits ↦ rw not_fits tt
]

set_length-packet : (lane : Lane) → Ensures (set_length lane) (λ lane'. lane'.packet ≡ lane.packet)
unfolding set_length
set_length-packet lane = elim (Bool-cases (not lane.length_set && ltb 0 lane.index)) [
  | inl first ↦ rw first (
      Ensures-bind (load lane.packet.stream.memory 0) _ (λ lane'. lane'.packet ≡ lane.packet)
        λ _ _. refl)
  | inr later ↦ rw later refl
]

set_lengths-LanesAreSized :
    (lanes : List Lane) → LanesAreSized lanes → Ensures (set_lengths lanes) LanesAreSized
unfolding set_lengths
set_lengths-LanesAreSized [] h = tt
set_lengths-LanesAreSized (lane ∷ lanes) h =
    Ensures-bind (set_length lane) _ LanesAreSized λ lane' e.
      let same =
        Ensures-ok (set_length lane) (λ lane'. lane'.packet ≡ lane.packet) lane' e
          (set_length-packet lane) in
      Ensures-bind (set_lengths lanes) _ LanesAreSized λ lanes' e'. (
        rw same h.0,
        Ensures-ok (set_lengths lanes) LanesAreSized lanes' e'
            (set_lengths-LanesAreSized lanes h.1),
      )

pub load-IsSized : (pkt : List Packet) → AreSized pkt → Ensures (load pkt 0) IsSized
load-IsSized [] h = tt
load-IsSized (p ∷ pkt) h = h.0

pub drop_first-AreSized : (pkt : List Packet) → AreSized pkt → AreSized (drop_first pkt)
drop_first-AreSized [] h = tt
drop_first-AreSized (p ∷ pkt) h = h.1

pub take-AreSized : (n : ℕ) (pkt : List Packet) → AreSized pkt → AreSized (take n pkt)
take-AreSized zero pkt h = tt
take-AreSized (suc n) [] h = tt
take-AreSized (suc n) (p ∷ pkt) h = (h.0, take-AreSized n pkt h.1)

pub firsts-then :
    {A : Type 0} {B : Type 0} (n : ℕ) (xs : List A) (f : List A → Outcome B)
    → Terminates (f (take n xs))
    → Terminates (firsts n xs >>= f)
firsts-then n xs f h = elim (Bool-cases (ltb (length xs) n)) [
  | inl few ↦ rw few tt
  | inr enough ↦ rw enough h
]

-- The packets that take the responses.
abbrev pub responses_of : Ptr (List Packet) → List Packet → List Packet
responses_of response garbage = elim response as (λ _. List Packet) [ none ↦ garbage | some r ↦ r ]

module _ {S : Type 0} where
  read_row-Sized :
      (ports : List (Port S)) (lanes : List Lane) (s : S)
      → LanesAreSized lanes
      → Ensures (read_row ports lanes s) (λ (lanes', _). LanesAreSized lanes')
  unfolding read_row
  read_row-Sized [] lanes s h = tt
  read_row-Sized (port ∷ ports) [] s h = tt
  read_row-Sized (port ∷ ports) (lane ∷ lanes) s h =
      Ensures-bind (port.read_nonblock s 12) _ (λ (lanes', _). LanesAreSized lanes')
        λ (bytes, s1) _.
          Ensures-bind (deposit lane.packet.stream.memory lane.index bytes) _
            (λ (lanes', _). LanesAreSized lanes')
            λ m e.
              let same =
                Ensures-ok (deposit lane.packet.stream.memory lane.index bytes)
                  (λ m'. length m' ≡ length lane.packet.stream.memory) m e
                  (deposit-size lane.packet.stream.memory lane.index bytes) in
              Ensures-bind (read_row ports lanes s1) _ (λ (lanes', _). LanesAreSized lanes')
                λ (rest, s2) e'. (
                  omega (arith, same, h.0),
                  Ensures-ok (read_row ports lanes s1) (λ (lanes', _). LanesAreSized lanes')
                      (rest, s2) e' (read_row-Sized ports lanes s1 h.1),
                )

  pub read_all-Sized :
      (clock : Port S) (fuel : ℕ) (ports : List (Port S)) (lanes : List Lane) (stamp : TimeElapsed)
      (limit : ℕ) (s : S)
      → LanesAreSized lanes
      → Ensures
          (read_all clock fuel ports lanes stamp limit s)
          (λ (lanes', _). LanesAreSized lanes')
  unfolding read_all
  read_all-Sized clock zero ports lanes stamp limit s h = tt
  read_all-Sized clock (suc fuel) ports lanes stamp limit s h =
      Ensures-bind (read_row ports lanes s) _ (λ (lanes', _). LanesAreSized lanes')
        λ (lanes1, s1) e1.
          let h1 =
            Ensures-ok (read_row ports lanes s) (λ (lanes', _). LanesAreSized lanes') (lanes1, s1)
              e1 (read_row-Sized ports lanes s h) in
          Ensures-bind (set_lengths lanes1) _ (λ (lanes', _). LanesAreSized lanes')
            λ lanes2 e2.
              let h2 =
                Ensures-ok (set_lengths lanes1) LanesAreSized lanes2 e2
                  (set_lengths-LanesAreSized lanes1 h1) in
              Ensures-bind
                (time_elapsed clock.time_period_ms (some stamp) (clock.time_current_ms s1).0) _
                (λ (lanes', _). LanesAreSized lanes')
                λ (t, stamp') _.
                  Ensures-guard (ltb limit t) _ _ (λ (lanes', _). LanesAreSized lanes')
                    λ _. elim (Bool-cases (more_to_read lanes2)) [
                      | inl more ↦ rw more (
                          read_all-Sized clock fuel ports lanes2 stamp' limit
                            (clock.time_current_ms s1).1 h2)
                      | inr done ↦ rw done h2
                    ]
