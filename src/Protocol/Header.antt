-- ===== src/Protocol/Header.antt =====
-- `protocol_header_init` and `protocol_verify_checksum` of nuhal_all/src/protocol.c on the bytes of a
-- packet.
use nuhal.Common.{
  ℕ, ◌+◌, ◌-◌, ◌%◌, ◌≤◌, ◌<◌, ◌≡◌, ◌≢◌, inr, refl, sym, ◌∙◌, ap, arith, some, List, length,
  length-set, set, get_elem?-set_self, get_elem?-set_ne, ok, err, load, lt→ltb, eq→==, ne→==,
  invalid_checksum,
}
use nuhal.Memory.{slice, byte_at, load_of_lt, store_of_lt, slice-set_disjoint}
use nuhal.Bytestream
use nuhal.Bytestream.{Bytestream, verify_args, extract_u8}
use nuhal.Protocol.{Packet, checksum, header_init, verify_checksum}
use nuhal.Protocol.Checksum.{sum8, sum8-change, checksum_lem}

-- A packet's bytes that claim `len` bytes and the checksum `c`.
pub record Claims (len c : ℕ) (m : List ℕ) : Type 0 where
  pub size : length m ≡ 255
  pub length_byte : load m 0 ≡ ok len
  pub checksum_byte : load m 1 ≡ ok c
  pub least : 3 ≤ len
  pub most : len ≤ 255

-- The packet as its reader gets it: the stream stands behind the command byte.
abbrev pub opened : List ℕ → ℕ → Packet
opened m n = record { stream = record { memory = m; data_ptr = some 2; capacity = n; size = 1 } }

skip_command :
    (m : List ℕ) (n : ℕ)
    → 1 ≤ n
    → n < 256
    → 3 ≤ length m
    → extract_u8 (some record { memory = m; data_ptr = some 2; capacity = n; size = 0 })
      ≡ ok (byte_at m 2, (opened m n).stream)
unfolding extract_u8 verify_args
skip_command m n some_bytes small room = ground (arith, load_of_lt m 2)

module _ {len c : ℕ} (p : Packet) (claims : Claims len c p.stream.memory) where
  sum : checksum p.stream.memory ≡ ok (sum8 (slice p.stream.memory 2 (len - 2)))
  sum =
      checksum_lem p.stream.memory len claims.length_byte (omega (arith, claims.least))
        (omega (arith, claims.size, claims.most)) (omega (arith, claims.most))

  -- A right checksum is accepted.
  pub verify_checksum_accepts :
      c ≡ sum8 (slice p.stream.memory 2 (len - 2))
      → verify_checksum (some p) (len - 2) ≡ ok (opened p.stream.memory (len - 2))
  unfolding verify_checksum Bytestream.init
  verify_checksum_accepts right =
      rw (sum, claims.checksum_byte, eq→== (sum8 (slice p.stream.memory 2 (len - 2))) c (sym right))
        (rw
          (
            claims.length_byte,
            lt→ltb 0 len (omega (arith, claims.least)),
            skip_command p.stream.memory (len - 2) (omega (arith, claims.least))
                (omega (arith, claims.most)) (omega (arith, claims.size)),
          )
          refl)

  pub verify_checksum_refuses :
      c ≢ sum8 (slice p.stream.memory 2 (len - 2))
      → verify_checksum (some p) (len - 2) ≡ err invalid_checksum
  unfolding verify_checksum
  verify_checksum_refuses wrong =
      rw
        (
          sum,
          claims.checksum_byte,
          ne→== (sum8 (slice p.stream.memory 2 (len - 2))) c (λ e. wrong (sym e)),
        )
        refl

-- The bytes of a packet with `n` bytes of data, once the header is filled in.
unfoldable pub sealed : List ℕ → ℕ → List ℕ
sealed m n = set (set m 0 (n + 2)) 1 (sum8 (slice m 2 n))

pub length-sealed : (m : List ℕ) (n : ℕ) → length (sealed m n) ≡ length m
unfolding sealed
length-sealed m n = length-set (set m 0 (n + 2)) 1 (sum8 (slice m 2 n)) ∙ length-set m 0 (n + 2)

-- The header leaves the data as it is.
pub slice-sealed : (m : List ℕ) (n k : ℕ) → slice (sealed m n) 2 k ≡ slice m 2 k
unfolding sealed
slice-sealed m n k =
    slice-set_disjoint (set m 0 (n + 2)) 1 (sum8 (slice m 2 n)) 2 k (inr (omega arith))
    ∙ slice-set_disjoint m 0 (n + 2) 2 k (inr (omega arith))

load-set : (m : List ℕ) (i v : ℕ) → i < length m → load (set m i v) i ≡ ok v
load-set m i v h = ground (arith, get_elem?-set_self m i v h)

load-sealed : (m : List ℕ) (n : ℕ) → length m ≡ 255 → load (sealed m n) 0 ≡ ok (n + 2)
unfolding sealed
load-sealed m n size = ground (
  arith,
  get_elem?-set_ne (set m 0 (n + 2)) 1 0 (sum8 (slice m 2 n)) (omega arith),
  get_elem?-set_self m 0 (n + 2) (omega (arith, size)),
)

pub sealed-Claims :
    (m : List ℕ) (n : ℕ)
    → length m ≡ 255
    → 1 ≤ n
    → n ≤ 253
    → Claims (n + 2) (sum8 (slice (sealed m n) 2 (n + 2 - 2))) (sealed m n)
unfolding sealed
sealed-Claims m n size some_bytes most = record {
  size = length-sealed m n ∙ size;
  length_byte = load-sealed m n size;
  checksum_byte =
      load-set (set m 0 (n + 2)) 1 (sum8 (slice m 2 n))
        (omega (arith, length-set m 0 (n + 2), size))
      ∙ ap (λ t. ok (sum8 t)) (sym (slice-sealed m n n) ∙ ap (slice (sealed m n) 2) (omega arith));
  least = omega arith;
  most = omega arith;
}

pub header_init_lem :
    (p : Packet)
    → length p.stream.memory ≡ 255
    → 1 ≤ p.stream.size
    → p.stream.size ≤ 253
    → header_init (some p)
      ≡ ok (
        p.stream.size + 2,
        record p {
          stream = record p.stream {
            memory = sealed p.stream.memory p.stream.size;
            capacity = p.stream.size;
          };
        },
      )
unfolding header_init sealed
header_init_lem p size some_bytes most =
    rw
      (
        byte,
        store_of_lt p.stream.memory 0 (p.stream.size + 2) (omega (arith, size)),
        sum,
        store_of_lt (set p.stream.memory 0 (p.stream.size + 2)) 1
            (sum8 (slice p.stream.memory 2 p.stream.size))
            (omega (arith, size, length-set p.stream.memory 0 (p.stream.size + 2))),
        load-sealed p.stream.memory p.stream.size size,
      )
      refl
  where
    byte : (p.stream.size + 2) % 256 ≡ p.stream.size + 2
    byte = omega (arith, most)

    sum :
        checksum (set p.stream.memory 0 (p.stream.size + 2))
        ≡ ok (sum8 (slice p.stream.memory 2 p.stream.size))
    sum =
        checksum_lem (set p.stream.memory 0 (p.stream.size + 2)) (p.stream.size + 2)
          (load-set p.stream.memory 0 (p.stream.size + 2) (omega (arith, size))) (omega arith)
          (omega (arith, length-set p.stream.memory 0 (p.stream.size + 2), size, most))
          (omega (arith, most))
        ∙ ap (λ t. ok (sum8 t))
            (ap (slice (set p.stream.memory 0 (p.stream.size + 2)) 2) (omega arith)
              ∙ slice-set_disjoint p.stream.memory 0 (p.stream.size + 2) 2 p.stream.size
                  (inr (omega arith)))

-- A packet of 3 to 255 bytes with the right checksum, of which one byte of the data, from the
-- command on, was replaced by another byte, is refused with the checksum error.
pub verify_checksum-detects :
    (p : Packet) (len k x : ℕ)
    → Claims len (sum8 (slice p.stream.memory 2 (len - 2))) p.stream.memory
    → k < len - 2
    → byte_at p.stream.memory (2 + k) < 256
    → x < 256
    → x ≢ byte_at p.stream.memory (2 + k)
    → verify_checksum
        (some record { stream = record p.stream { memory = set p.stream.memory (2 + k) x } })
        (len - 2)
      ≡ err invalid_checksum
verify_checksum-detects p len k x claims lt small small' ne =
    verify_checksum_refuses
      (record { stream = record p.stream { memory = set p.stream.memory (2 + k) x } })
      (record {
        size = length-set p.stream.memory (2 + k) x ∙ claims.size;
        length_byte = kept 0 len (omega arith) claims.length_byte;
        checksum_byte =
            kept 1 (sum8 (slice p.stream.memory 2 (len - 2))) (omega arith) claims.checksum_byte;
        least = claims.least;
        most = claims.most;
      })
      λ e.
        sum8-change p.stream.memory 2 (len - 2) k x lt
          (omega (arith, claims.size, claims.most, claims.least)) small small' ne (sym e)
  where
    kept :
        (i v : ℕ)
        → i < 2
        → load p.stream.memory i ≡ ok v
        → load (set p.stream.memory (2 + k) x) i ≡ ok v
    kept i v lo h =
        ground (arith, h, get_elem?-set_ne p.stream.memory (2 + k) i x (omega (arith, lo)))
