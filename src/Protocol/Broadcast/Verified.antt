-- ===== src/Protocol/Broadcast/Verified.antt =====
-- About the responses that `protocol_broadcast_timeout` of nuhal_all/src/protocol.c hands back.
use nuhal.Common.{
  ℕ, zero, suc, ◌+◌, ◌-◌, ◌≤◌, ◌≡◌, refl, sym, ◌∙◌, ap, arith, false, not, ◌||◌, some, List, [],
  ◌∷◌, length, ltb, ◌==◌, ok, load, Ptr, Outcome, Ensures, Ensures-bind, Ensures-guard, Ensures-ok,
  ok_inj, Bool-cases, inl, inr, require, null_ptr, add_size,
}
use nuhal.Bytestream
use nuhal.Bytestream.{Bytestream, extract_u8, verify_args}
use nuhal.Uart.{Port}
use nuhal.Protocol.{
  Packet, checksum, header_init, verify_checksum, validate_response, packet_command,
}
use nuhal.Protocol.Broadcast.{
  BroadcastType, broadcast, anycast, other_type, Lane, firsts, write_rows, init_each, read_all,
  header_each, drop_first, check_each, broadcast_timeout,
}

-- The checksum byte of a packet is right.
abbrev pub HasChecksum : Packet → Type 0
HasChecksum p = (c : ℕ) × (checksum p.stream.memory ≡ ok c) × (load p.stream.memory 1 ≡ ok c)

-- A response whose checksum is right and which is no error response.
abbrev pub IsGood : Packet → Type 0
IsGood p = HasChecksum p × ¬ Path (Outcome ℕ) (load p.stream.memory 2) (ok 255)

abbrev pub AreGood : List Packet → Type 0
AreGood [] = Unit
AreGood (p ∷ packets) = IsGood p × AreGood packets

extract_u8-memory :
    (b : Bytestream) → Ensures (extract_u8 (some b)) (λ (_, b'). b'.memory ≡ b.memory)
unfolding extract_u8 verify_args
extract_u8-memory b = Ensures-bind (verify_args (some b) 1) _ _ λ (p, b') e.
    Ensures-bind (load b'.memory (p + b'.size)) _ _ λ u _.
      Ensures-ok (verify_args (some b) 1) (λ (_, b'). b'.memory ≡ b.memory) (p, b') e
        (Ensures-bind (require b.data_ptr null_ptr) _ (λ (_, b'). b'.memory ≡ b.memory)
          λ p _.
            Ensures-guard (ltb b.capacity (add_size b.size 1)) _ _ (λ (_, b'). b'.memory ≡ b.memory)
              λ _. refl)

-- The stream of a packet as `protocol_verify_checksum` sets it.
abbrev pub stream_at : Packet → ℕ → Bytestream
stream_at p n = record { memory = p.stream.memory; data_ptr = some 2; capacity = n; size = 0 }

verify_checksum-HasChecksum :
    (p : Packet) (n : ℕ) → Ensures (verify_checksum (some p) n) HasChecksum
unfolding verify_checksum Bytestream.init
verify_checksum-HasChecksum p n = Ensures-bind (checksum p.stream.memory) _ HasChecksum λ c ec.
    Ensures-bind (load p.stream.memory 1) _ HasChecksum λ expected ee.
      Ensures-guard (not (c == expected)) _ _ HasChecksum λ same.
        Ensures-bind (load p.stream.memory 0) _ HasChecksum λ len _.
          let right : load p.stream.memory 1 ≡ ok c = ee ∙ ap ok (equal c expected same) in
          elim (Bool-cases (ltb 0 len)) [
            | inr empty ↦ rw empty (c, ec, right)
            | inl some_bytes ↦ rw some_bytes (
                Ensures-bind (extract_u8 (some (stream_at p n))) _ HasChecksum λ (u, b') e.
                  let kept : b'.memory ≡ p.stream.memory =
                    Ensures-ok (extract_u8 (some (stream_at p n)))
                      (λ (_, b'). b'.memory ≡ p.stream.memory) (u, b') e
                      (extract_u8-memory (stream_at p n)) in
                  (c, ap checksum kept ∙ ec, ap (λ m. load m 1) kept ∙ right))
          ]
  where
    equal : (a b : ℕ) → not (a == b) ≡ false → b ≡ a
    equal a b h = ground arith

validate_response-no_error :
    (q r : Packet)
    → Ensures
        (validate_response (some q) (some r))
        (λ _. ¬ Path (Outcome ℕ) (load r.stream.memory 2) (ok 255))
unfolding validate_response packet_command
validate_response-no_error q r = Ensures-bind (load q.stream.memory 2) _ _ λ req _.
    Ensures-bind (load r.stream.memory 2) _ _ λ resp e.
      Ensures-guard (255 == resp) _ _ (λ _. ¬ Path (Outcome ℕ) (load r.stream.memory 2) (ok 255))
        λ fine.
          Ensures-guard (not (req == resp)) _ _
            (λ _. ¬ Path (Outcome ℕ) (load r.stream.memory 2) (ok 255))
            λ _ bad.
              let is_error : resp ≡ 255 = ok_inj resp 255 (sym e ∙ bad) in absurd (ground arith)

check_each-AreGood :
    (outs : List Packet) (lanes : List Lane)
    → Ensures (check_each outs lanes) (λ rs. AreGood rs × (length rs ≡ length outs))
unfolding check_each
check_each-AreGood [] [] = (tt, refl)
check_each-AreGood [] (lane ∷ lanes) = tt
check_each-AreGood (out ∷ outs) [] = tt
check_each-AreGood (out ∷ outs) (lane ∷ lanes) = Ensures-guard (ltb lane.length 2) _ _ Good λ _.
    Ensures-bind (verify_checksum (some lane.packet) (lane.length - 2)) _ Good λ p ep.
      Ensures-bind (validate_response (some out) (some p)) _ Good λ u eu.
        Ensures-bind (check_each outs lanes) _ Good λ rest er.
          let more =
            Ensures-ok (check_each outs lanes) (λ rs. AreGood rs × (length rs ≡ length outs)) rest
              er (check_each-AreGood outs lanes) in
          (
            (
              (
                Ensures-ok (verify_checksum (some lane.packet) (lane.length - 2)) HasChecksum p ep
                    (verify_checksum-HasChecksum lane.packet (lane.length - 2)),
                Ensures-ok (validate_response (some out) (some p))
                    (λ _. ¬ Path (Outcome ℕ) (load p.stream.memory 2) (ok 255)) u eu
                    (validate_response-no_error out p),
              ),
              more.0,
            ),
            ap suc more.1,
          )
  where
    Good : List Packet → Type 0
    Good rs = AreGood rs × (length rs ≡ length (out ∷ outs))

length-header_each :
    (btype : BroadcastType) (l : ℕ) (out : Packet) (pkt : List Packet) (n : ℕ)
    → Ensures (header_each btype l out pkt n) (λ (_, outs). length outs ≡ n)
unfolding header_each
length-header_each btype l out pkt zero = refl
length-header_each broadcast l out pkt (suc n) =
    Ensures-bind (header_each broadcast l out pkt n) _ (λ (_, outs). length outs ≡ suc n)
      λ (pkt', outs) e. ap suc (
        Ensures-ok (header_each broadcast l out pkt n) (λ (_, outs). length outs ≡ n) (pkt', outs) e
          (length-header_each broadcast l out pkt n))
length-header_each anycast l out [] (suc n) = tt
length-header_each anycast l out (p ∷ pkt) (suc n) =
    Ensures-bind (header_init (some p)) _ (λ (_, outs). length outs ≡ suc n)
      λ (l', p') _.
        Ensures-guard (not (l' == l)) _ _ (λ (_, outs). length outs ≡ suc n)
          λ _.
            Ensures-bind (header_each anycast l out pkt n) _ (λ (_, outs). length outs ≡ suc n)
              λ (pkt', outs) e. ap suc (
                Ensures-ok (header_each anycast l out pkt n) (λ (_, outs). length outs ≡ n)
                  (pkt', outs) e (length-header_each anycast l out pkt n))
length-header_each other_type l out pkt (suc n) = tt

module _ {S : Type 0} where
  -- One response for each of at most three ports, and all of them good.
  abbrev pub Answers : ℕ → List Packet × List Packet × S → Type 0
  Answers n (pkt, responses, s) = (1 ≤ n) × (n ≤ 3) × AreGood responses × (length responses ≡ n)

  finished :
      (btype : BroadcastType) (l : ℕ) (first : Packet) (pkt : List Packet) (n : ℕ)
      (rest outs : List Packet) (lanes : List Lane) (rs : List Packet) (s : S)
      → (ltb 3 n || n == 0) ≡ false
      → header_each btype l first pkt (n - 1) ≡ ok (rest, outs)
      → check_each (first ∷ outs) lanes ≡ ok rs
      → Answers n (first ∷ rest, rs, s)
  finished btype l first pkt n rest outs lanes rs s count eo er =
      let good =
        Ensures-ok (check_each (first ∷ outs) lanes)
          (λ rs. AreGood rs × (length rs ≡ length (first ∷ outs))) rs er
          (check_each-AreGood (first ∷ outs) lanes) in
      let sent =
        Ensures-ok (header_each btype l first pkt (n - 1)) (λ (_, outs). length outs ≡ n - 1)
          (rest, outs) eo (length-header_each btype l first pkt (n - 1)) in
      let range = bounds n count in (range.0, range.1, good.0, omega (arith, good.1, sent, range.0))
    where
      bounds : (n : ℕ) → (ltb 3 n || n == 0) ≡ false → (1 ≤ n) × (n ≤ 3)
      bounds n h = (ground arith, ground arith)

  -- If a broadcast returns, it was to one, two or three ports, and it hands back one response for
  -- each of them: each has the checksum in its second byte that its bytes have, and its command is
  -- not that of an error response.
  pub broadcast_timeout-Answers :
      (fuel num_ports limit : ℕ) (ports : Ptr (List (Port S))) (pkt response : Ptr (List Packet))
      (garbage : List Packet) (btype : BroadcastType) (s : S)
      → Ensures
          (broadcast_timeout fuel ports num_ports pkt response garbage btype limit s)
          (Answers num_ports)
  unfolding broadcast_timeout
  broadcast_timeout-Answers fuel n limit ports pkt response garbage btype s =
      Ensures-bind (require pkt null_ptr) _ (Answers n) λ pkt _.
        Ensures-bind (require ports null_ptr) _ (Answers n) λ ports _.
          Ensures-guard (ltb 3 n || n == 0) _ _ (Answers n) λ count.
            Ensures-bind (load pkt 0) _ (Answers n) λ first _.
              Ensures-bind (header_init (some first)) _ (Answers n) λ (l, first) _.
                Ensures-bind (header_each btype l first (drop_first pkt) (n - 1)) _ (Answers n)
                  λ (rest, outs) eo. Ensures-guard (ltb 253 l) _ _ (Answers n) λ _.
                    Ensures-bind (firsts n ports) _ (Answers n) λ ports _.
                      Ensures-bind (load ports 0) _ (Answers n) λ clock _.
                        Ensures-bind (write_rows 0 l ports (first ∷ outs) s) _ (Answers n) λ s _.
                          Ensures-bind (firsts n _) _ (Answers n) λ packets _.
                            Ensures-bind (init_each packets) _ (Answers n) λ lanes _.
                              Ensures-bind (read_all clock fuel ports lanes _ limit _) _ (Answers n)
                                λ (lanes, s) _.
                                  Ensures-bind (check_each (first ∷ outs) lanes) _ (Answers n)
                                    λ rs er.
                                      finished btype l first (drop_first pkt) n rest outs lanes rs s
                                        count eo er
