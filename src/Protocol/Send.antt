-- ===== src/Protocol/Send.antt =====
-- `protocol_write_block` of nuhal_all/src/protocol.c on a line that works: the bytes of a packet on the
-- line.
use nuhal.Common.{
  ℕ, ◌+◌, ◌-◌, ◌*◌, ◌≤◌, ◌<◌, ◌≡◌, refl, sym, ◌∙◌, ap, arith, some, List, ◌∷◌, length, ok, load,
  u32, Settles, Settles-bind, Settles-errors, write_timeout,
}
use mathlib.Core.Path.{ap₂}
use nuhal.Memory.{slice, byte_at, slice-append, length-slice}
use nuhal.Uart.{Port}
use nuhal.Uart
use nuhal.Uart.Line.{IsLine, CanWrite, Sent}
use nuhal.Uart.Write.{write_block-Settles, WritesAll, TimesOut}
use nuhal.Protocol.{Packet, write_block}
use nuhal.Protocol.Checksum.{sum8}
use nuhal.Protocol.Header.{sealed, length-sealed, slice-sealed, sealed-Claims, header_init_lem}

-- A packet on the line: its length, the sum of its data, and the data, from the command byte on.
abbrev pub frame : List ℕ → List ℕ
frame payload = (length payload + 2) ∷ sum8 payload ∷ payload

-- The data of a packet that is being built.
abbrev pub payload_of : Packet → List ℕ
payload_of p = slice p.stream.memory 2 p.stream.size

byte_at-load : (m : List ℕ) (i v : ℕ) → load m i ≡ ok v → byte_at m i ≡ v
byte_at-load m i v h = ground arith

frame-sealed :
    (m : List ℕ) (n : ℕ)
    → length m ≡ 255
    → 1 ≤ n
    → n ≤ 253
    → slice (sealed m n) 0 (n + 2) ≡ frame (slice m 2 n)
unfolding slice
frame-sealed m n size some_bytes most =
    let claims = sealed-Claims m n size some_bytes most in
    ap (slice (sealed m n) 0) (omega arith)
    ∙ (slice-append (sealed m n) 0 2 n
        ∙ ap₂ (λ a (t : List ℕ). a ∷ t)
            (byte_at-load (sealed m n) 0 (n + 2) claims.length_byte
              ∙ ap (λ k. k + 2) (sym (length-slice m 2 n)))
            (ap₂ (λ a (t : List ℕ). a ∷ t)
              (byte_at-load (sealed m n) 1 (sum8 (slice (sealed m n) 2 (n + 2 - 2)))
                  claims.checksum_byte
                ∙ ap sum8 (ap (slice (sealed m n) 2) (omega arith) ∙ slice-sealed m n n))
              (slice-sealed m n n)))

-- A packet that is being built: its stream has a command byte at least, and stays in its bytes.
pub record IsBuilt (p : Packet) : Type 0 where
  pub memory_size : length p.stream.memory ≡ 255
  pub command : 1 ≤ p.stream.size
  pub fits : p.stream.size ≤ 253

module _ {S : Type 0} (port : Port S) (line : IsLine port) where
  -- The packet's frame is on the line, its data are as they were, and nothing more fits its stream.
  abbrev pub Sends : Packet → S → Packet × S → Type 0
  Sends p s (p', s') =
      Sent line s (frame (payload_of p)) s'
      × (payload_of p' ≡ payload_of p)
      × (p'.stream.size ≡ p.stream.size)
      × (p'.stream.capacity ≡ p.stream.size)
      × (length p'.stream.memory ≡ 255)

  -- A packet that is being built is sent as its frame, or it is the write timeout.
  pub write_block-Sends :
      CanWrite port line
      → (fuel : ℕ) (p : Packet) (s : S) → IsBuilt p
      → 255 + line.patience s < fuel
      → Settles (write_block fuel (some port) (some p) s) (Sends p s) (λ e. e ≡ write_timeout)
  unfolding write_block
  write_block-Sends can fuel p s built patient =
      let n = p.stream.size in
      let m = sealed p.stream.memory n in
      rw (header_init_lem p built.memory_size built.command built.fits) (
        Settles-bind (Uart.write_block port fuel m 0 (n + 2) (u32 ((n + 2) * 10 + 100)) s) _
          (WritesAll port line m 0 (n + 2) (u32 ((n + 2) * 10 + 100)) s) (Sends p s)
          (λ e. e ≡ write_timeout)
          (Settles-errors (Uart.write_block port fuel m 0 (n + 2) (u32 ((n + 2) * 10 + 100)) s)
            (WritesAll port line m 0 (n + 2) (u32 ((n + 2) * 10 + 100)) s)
            (TimesOut port line m 0 (n + 2) (u32 ((n + 2) * 10 + 100))) (λ e. e ≡ write_timeout)
            (write_block-Settles port line m 0 (n + 2) (u32 ((n + 2) * 10 + 100)) can fuel s
              (omega (arith, length-sealed p.stream.memory n, built.memory_size, built.fits))
              (omega (arith, built.fits)) (omega (arith, patient, built.fits)))
            λ e h. h.0)
          λ (k, s') (e, sent). (
            rw (frame-sealed p.stream.memory n built.memory_size built.command built.fits) at sent,
            slice-sealed p.stream.memory n n,
            refl,
            refl,
            length-sealed p.stream.memory n ∙ built.memory_size,
          ))
