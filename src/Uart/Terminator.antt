-- ===== src/Uart/Terminator.antt =====
-- `uart_read_block_error` of nuhal_all/src/uart.c with a terminator, where the bytes come in one at a time.
pub mod Reads
mod Tests
use nuhal.Common.{
  ℕ, zero, suc, ◌+◌, ◌-◌, ◌≤◌, ◌<◌, ◌≡◌, ◌≢◌, refl, ap, arith, Bool, true, false, ok, undefined,
  none, List, [], ◌∷◌, ◌++◌, length, ◌==◌, ◌||◌, if◌then◌else◌, ◌>>=◌, load, set,
  get_elem?-set_self, Returns, Returns-ok, ne→==,
}
use nuhal.Uart.{Port, UartTerm, no_term, lf, cr, cr_or_lf, nul, other_term, ends}
use nuhal.Uart.Line.{IsLine, Received}

-- Whether a byte is the terminator.
abbrev pub ending : UartTerm → ℕ → Bool
ending no_term c = false
ending cr c = c == 13
ending lf c = c == 10
ending nul c = c == 0
ending cr_or_lf c = c == 13 || c == 10
ending other_term c = false

-- The bytes up to the first terminator, and `n` of them at most.
abbrev pub first_line : UartTerm → ℕ → List ℕ → List ℕ
first_line term zero xs = []
first_line term (suc n) [] = []
first_line term (suc n) (x ∷ xs) =
    let rest = first_line term n xs in if ending term x then x ∷ [] else x ∷ rest

-- A terminator is among the first `n` bytes, or there are `n`.
abbrev pub comes : UartTerm → ℕ → List ℕ → Bool
comes term zero xs = true
comes term (suc n) [] = false
comes term (suc n) (x ∷ xs) = let rest = comes term n xs in if ending term x then true else rest

-- The last byte of a read is the one just stored.
last_read :
    (m : List ℕ) (at read c : ℕ)
    → at + read + 1 ≤ length m
    → (if read + 1 == 0 then undefined else load (set m (at + read) c) (at + (read + 1) - 1)) ≡ ok c
last_read m at read c inside =
    rw
      (
        ne→== (read + 1) 0 (λ e. omega (arith, e)),
        same,
        load,
        get_elem?-set_self m (at + read) c (omega (arith, inside)),
      )
      refl
  where
    same : at + (read + 1) - 1 ≡ at + read
    same = omega arith

pub ends_at :
    (term : UartTerm) (m : List ℕ) (at read c : ℕ)
    → term ≢ other_term
    → at + read + 1 ≤ length m
    → ends term (set m (at + read) c) at (read + 1) ≡ ok (ending term c)
unfolding ends
ends_at no_term m at read c known inside = refl
ends_at lf m at read c known inside =
    ap (λ o. o >>= λ c. ok (c == 10)) (last_read m at read c inside)
ends_at cr m at read c known inside =
    ap (λ o. o >>= λ c. ok (c == 13)) (last_read m at read c inside)
ends_at cr_or_lf m at read c known inside =
    ap (λ o. o >>= λ c. ok (c == 13 || c == 10)) (last_read m at read c inside)
ends_at nul m at read c known inside =
    ap (λ o. o >>= λ c. ok (c == 0)) (last_read m at read c inside)
ends_at other_term m at read c known inside = absurd (known refl)

module _ {S : Type 0} (port : Port S) (line : IsLine port)
    (one : (s : S) (n : ℕ)
      → Returns (port.read_nonblock s n) (λ (bytes, _). length bytes ≤ 1)) where
  -- A read where bytes are to come brings one.
  pub a_byte :
      (n : ℕ) (s : S)
      → 0 < n
      → 0 < length (line.incoming s)
      → line.patience s ≡ 0
      → Returns
          (port.read_nonblock s n)
          (λ (bytes, s'). (c : ℕ) × (bytes ≡ c ∷ []) × Received line s (c ∷ []) s')
  a_byte n s asked more eager =
      let ((bytes, s'), e, (_, i, o, p, progress)) =
        Returns-ok (port.read_nonblock s n) _ (line.reads s n) in
      let short : Returns {A = List ℕ × S} (ok (bytes, s')) (λ (bytes, _). length bytes ≤ 1) =
        rw e at (one s n) in
      rw e (single bytes s' short i o p (λ none. progress none asked more))
    where
      single :
          (bytes : List ℕ) (s' : S)
          → length bytes ≤ 1
          → line.incoming s ≡ bytes ++ line.incoming s'
          → line.outgoing s' ≡ line.outgoing s
          → line.patience s' ≤ line.patience s
          → (length bytes ≡ 0 → line.patience s' < line.patience s)
          → (c : ℕ) × (bytes ≡ c ∷ []) × Received line s (c ∷ []) s'
      single [] s' short i o p progress = absurd (omega (arith, progress refl, eager))
      single (c ∷ []) s' short i o p progress = (c, refl, (i, o, p))
      single (c ∷ d ∷ bytes) s' short i o p progress = absurd (omega (arith, short))
