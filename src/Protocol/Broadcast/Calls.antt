-- ===== src/Protocol/Broadcast/Calls.antt =====
-- About the end of the calls in `protocol_broadcast_timeout` of nuhal_all/src/protocol.c, apart from the loop
-- that reads.
use nuhal.Common.{
  ℕ, zero, suc, ◌+◌, ◌-◌, ◌≤◌, ◌<◌, ◌≡◌, refl, arith, Bool, true, false, List, [], ◌∷◌, length, ltb,
  ok, err, undefined, unfinished, Outcome, ◌>>=◌, if◌then◌else◌, load, store, Bool-cases, Ensures,
  Ensures-ok, Ensures-both, Ptr, none, some, ◌==◌, require, null_ptr, add_size, Message, not, u8,
  length-set, inl, inr,
}
use nuhal.Bytestream
use nuhal.Bytestream.{Bytestream, extract_u8, verify_args}
use nuhal.Protocol.{
  Packet, checksum, checksum_loop, header_init, verify_checksum, validate_response, packet_command,
  packet_stream_init,
}
use nuhal.Protocol.Broadcast.{
  BroadcastType, broadcast, anycast, other_type, Lane, header_each, init_each, check_each,
}
use nuhal.Protocol.Broadcast.Verified.{stream_at}
use nuhal.Protocol.Broadcast.Ends.{Ends}

-- The call ends.
abbrev pub Terminates {ℓ} : {A : Type ℓ} → Outcome A → Type 0
Terminates m = Ends m (λ _. Unit)

pub then_do {ℓ κ} :
    {A : Type ℓ} {B : Type κ} (m : Outcome A) (f : A → Outcome B)
    → Terminates m
    → ((a : A) → m ≡ ok a → Terminates (f a))
    → Terminates (m >>= f)
then_do (ok a) f h g = g a refl
then_do (err e) f h g = tt
then_do undefined f h g = tt
then_do unfinished f h g = absurd h

pub ends_with {ℓ} :
    {A : Type ℓ} (m : Outcome A) (P : A → Type 0) → Terminates m → Ensures m P → Ends m P
ends_with (ok a) P h p = p
ends_with (err e) P h p = tt
ends_with undefined P h p = tt
ends_with unfinished P h p = h

pub test {ℓ} :
    {A : Type ℓ} (b : Bool) (m n : Outcome A)
    → Terminates m
    → Terminates n
    → Terminates (if b then m else n)
test true m n h g = h
test false m n h g = g

pub load-Ends {ℓ} : {A : Type ℓ} (m : List A) (i : ℕ) → Terminates (load m i)
load-Ends [] i = tt
load-Ends (x ∷ m) zero = tt
load-Ends (x ∷ m) (suc i) = load-Ends m i

-- What is loaded lies inside.
load-inside : (m : List ℕ) (i : ℕ) → Ensures (load m i) (λ _. i < length m)
load-inside [] i = tt
load-inside (x ∷ m) zero = omega arith
load-inside (x ∷ m) (suc i) =
    Ensures-both (load m i) (λ _. i < length m) (λ _. i < length m) (λ _. suc i < length (x ∷ m))
      (load-inside m i) (load-inside m i) λ _ h _. omega (arith, h)

require-Ends {ℓ} : {A : Type ℓ} (p : Ptr A) (e : Message) → Terminates (require p e)
require-Ends none e = tt
require-Ends (some a) e = tt

checksum_loop-Ends :
    (rounds : ℕ) (m : List ℕ) (len i sum : ℕ)
    → length m ≤ 255
    → i ≤ 255
    → 256 ≤ rounds + i
    → Terminates (checksum_loop rounds m len i sum)
unfolding checksum_loop
checksum_loop-Ends zero m len i sum size lo many = absurd (omega (arith, lo, many))
checksum_loop-Ends (suc rounds) m len i sum size lo many = elim (Bool-cases (i == len)) [
  | inl done ↦ rw (checksum_loop, done) tt
  | inr go ↦
      rw (checksum_loop, go)
        (then_do (load m i) (λ x. checksum_loop rounds m len (u8 (i + 1)) (u8 (sum + x)))
          (load-Ends m i)
          λ x e.
            let inside = Ensures-ok (load m i) (λ _. i < length m) x e (load-inside m i) in
            checksum_loop-Ends rounds m len (u8 (i + 1)) (u8 (sum + x)) size
              (omega (arith, inside, size)) (omega (arith, inside, size, many)))
]

checksum-Ends : (m : List ℕ) → length m ≤ 255 → Terminates (checksum m)
unfolding checksum
checksum-Ends m size = then_do (load m 0) _ (load-Ends m 0) λ len _.
    test (0 == len) _ _ tt (checksum_loop-Ends 256 m len 2 0 size (omega arith) (omega arith))

store-Ends : (m : List ℕ) (i v : ℕ) → Terminates (store m i v)
store-Ends m i v = test (ltb i (length m)) _ _ tt tt

store-size : (m : List ℕ) (i v : ℕ) → Ensures (store m i v) (λ m'. length m' ≡ length m)
store-size m i v = elim (Bool-cases (ltb i (length m))) [
  | inl fits ↦ rw fits (length-set m i v)
  | inr not_fits ↦ rw not_fits tt
]

-- A packet of at most 255 bytes.
abbrev pub IsSized : Packet → Type 0
IsSized p = length p.stream.memory ≤ 255

abbrev pub AreSized : List Packet → Type 0
AreSized [] = Unit
AreSized (p ∷ packets) = IsSized p × AreSized packets

abbrev pub LanesAreSized : List Lane → Type 0
LanesAreSized [] = Unit
LanesAreSized (lane ∷ lanes) = IsSized lane.packet × LanesAreSized lanes

pub header_init-Ends : (p : Packet) → IsSized p → Terminates (header_init (some p))
unfolding header_init
header_init-Ends p size =
    then_do (store p.stream.memory 0 (u8 (p.stream.size + 2))) _
      (store-Ends p.stream.memory 0 (u8 (p.stream.size + 2)))
      λ m e.
        let same =
          Ensures-ok (store p.stream.memory 0 (u8 (p.stream.size + 2)))
            (λ m'. length m' ≡ length p.stream.memory) m e
            (store-size p.stream.memory 0 (u8 (p.stream.size + 2))) in
        then_do (checksum m) _ (checksum-Ends m (omega (arith, same, size))) λ c _.
          then_do (store m 1 c) _ (store-Ends m 1 c)
            λ m' _. then_do (load m' 0) _ (load-Ends m' 0) λ _ _. tt

pub header_each-Ends :
    (btype : BroadcastType) (l : ℕ) (out : Packet) (pkt : List Packet) (n : ℕ)
    → AreSized pkt
    → Terminates (header_each btype l out pkt n)
unfolding header_each
header_each-Ends btype l out pkt zero h = tt
header_each-Ends broadcast l out pkt (suc n) h =
    then_do (header_each broadcast l out pkt n) _ (header_each-Ends broadcast l out pkt n h)
      λ _ _. tt
header_each-Ends anycast l out [] (suc n) h = tt
header_each-Ends anycast l out (p ∷ pkt) (suc n) h =
    then_do (header_init (some p)) _ (header_init-Ends p h.0) λ (l', p') _.
      test (not (l' == l)) _ _ tt (
        then_do (header_each anycast l out pkt n) _ (header_each-Ends anycast l out pkt n h.1)
          λ _ _. tt)
header_each-Ends other_type l out pkt (suc n) h = tt

extract_u8-Ends : (b : Bytestream) → Terminates (extract_u8 (some b))
unfolding extract_u8 verify_args
extract_u8-Ends b =
    then_do (verify_args (some b) 1) _
      (then_do (require b.data_ptr null_ptr) _ (require-Ends b.data_ptr null_ptr)
        λ _ _. test (ltb b.capacity (add_size b.size 1)) _ _ tt tt)
      λ (p, b') _.
        then_do (load b'.memory (p + b'.size)) _ (load-Ends b'.memory (p + b'.size)) λ _ _. tt

verify_checksum-Ends : (p : Packet) (n : ℕ) → IsSized p → Terminates (verify_checksum (some p) n)
unfolding verify_checksum Bytestream.init
verify_checksum-Ends p n size =
    then_do (checksum p.stream.memory) _ (checksum-Ends p.stream.memory size) λ c _.
      then_do (load p.stream.memory 1) _ (load-Ends p.stream.memory 1) λ expected _.
        test (not (c == expected)) _ _ tt (
          then_do (load p.stream.memory 0) _ (load-Ends p.stream.memory 0) λ len _.
            test (ltb 0 len) _ _
              (then_do (extract_u8 (some (stream_at p n))) _ (extract_u8-Ends (stream_at p n))
                λ _ _. tt)
              tt)

validate_response-Ends : (q r : Packet) → Terminates (validate_response (some q) (some r))
unfolding validate_response packet_command
validate_response-Ends q r = then_do (load q.stream.memory 2) _ (load-Ends q.stream.memory 2) λ a _.
    then_do (load r.stream.memory 2) _ (load-Ends r.stream.memory 2)
      λ b _. test (255 == b) _ _ tt (test (not (a == b)) _ _ tt tt)

pub check_each-Ends :
    (outs : List Packet) (lanes : List Lane)
    → LanesAreSized lanes
    → Terminates (check_each outs lanes)
unfolding check_each
check_each-Ends [] [] h = tt
check_each-Ends [] (lane ∷ lanes) h = tt
check_each-Ends (out ∷ outs) [] h = tt
check_each-Ends (out ∷ outs) (lane ∷ lanes) h = test (ltb lane.length 2) _ _ tt (
    then_do (verify_checksum (some lane.packet) (lane.length - 2)) _
      (verify_checksum-Ends lane.packet (lane.length - 2) h.0)
      λ p _.
        then_do (validate_response (some out) (some p)) _ (validate_response-Ends out p)
          λ _ _. then_do (check_each outs lanes) _ (check_each-Ends outs lanes h.1) λ _ _. tt)

pub init_each-Ends : (packets : List Packet) → Terminates (init_each packets)
unfolding init_each packet_stream_init Bytestream.init
init_each-Ends [] = tt
init_each-Ends (p ∷ packets) = then_do (init_each packets) _ (init_each-Ends packets) λ _ _. tt
