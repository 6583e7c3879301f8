-- ===== src/Uart/Expected.antt =====
-- `uart_read_block_error` of nuhal_all/src/uart.c where it is known what comes in.
use nuhal.Common.{
  ℕ, ◌+◌, ◌^◌, ◌≤◌, ◌<◌, ◌≡◌, ◌≢◌, ◌⊎◌, inl, inr, sym, ◌∙◌, ap, arith, Bool, true, false, List,
  ◌++◌, length, length-append, append_split, Outcome, Settles, Settles-mono, Settles-errors,
  read_timeout,
}
use nuhal.Memory.{overwrite}
use nuhal.Uart.{Port, no_term, read_block_error}
use nuhal.Uart.Line.{IsLine, Received}
use nuhal.Uart.Read.{read_block_error-Settles, ReadsBlock, TimesOut}

module _ {S : Type 0} (port : Port S) (line : IsLine port) (at timeout : ℕ) (timeout_error : Bool)
    (expected rest : List ℕ) where
  -- All of `expected` was read to the offset, and the rest is still to come.
  abbrev pub ReadsExpected : List ℕ → S → ℕ × List ℕ × S → Type 0
  ReadsExpected m s (n, m', s') =
      (n ≡ length expected)
      × (m' ≡ overwrite m at expected)
      × Received line s expected s'
      × (line.incoming s' ≡ rest)

  expected_of :
      (m : List ℕ) (s : S)
      → (timeout ≡ 0) ⊎ (timeout_error ≡ true)
      → line.incoming s ≡ expected ++ rest
      → (r : ℕ × List ℕ × S) → ReadsBlock port line at (length expected) timeout timeout_error m s r
      → ReadsExpected m s r
  expected_of m s strict i (n, m', s') (bytes, e, em, got, why) =
      let full : n ≡ length expected = all why strict in
      let (same, left) =
        append_split bytes (line.incoming s') expected rest (sym e ∙ full) (sym got.0 ∙ i) in
      (full, em ∙ ap (overwrite m at) same, rw same at got, left)
    where
      all :
          (n ≡ length expected) ⊎ (timeout ≢ 0) × (timeout_error ≡ false)
          → (timeout ≡ 0) ⊎ (timeout_error ≡ true)
          → n ≡ length expected
      all (inl h) strict = h
      all (inr (ne, f)) (inl z) = absurd (ne z)
      all (inr (ne, f)) (inr t) = absurd (ground arith)

  pub read_block_error-Expected :
      (fuel : ℕ) (m : List ℕ) (s : S)
      → (timeout ≡ 0) ⊎ (timeout_error ≡ true)
      → line.incoming s ≡ expected ++ rest
      → timeout < 2 ^ 31
      → at + length expected ≤ length m
      → length expected < 2 ^ 31
      → length expected + line.patience s ≤ fuel
      → Settles
          (read_block_error port fuel m at (length expected) timeout no_term timeout_error s)
          (ReadsExpected m s)
          (λ e. (e ≡ read_timeout) × (timeout ≢ 0))
  read_block_error-Expected fuel m s strict i limit room small patient =
      Settles-errors call (ReadsExpected m s)
        (TimesOut port line at (length expected) timeout timeout_error)
        (λ e. (e ≡ read_timeout) × (timeout ≢ 0))
        (Settles-mono call (ReadsBlock port line at (length expected) timeout timeout_error m s)
          (ReadsExpected m s) (TimesOut port line at (length expected) timeout timeout_error)
          (read_block_error-Settles port line at (length expected) timeout timeout_error fuel m s
            limit room small (omega (arith, ap length i, length-append expected rest)) patient)
          (expected_of m s strict i))
        λ e h. (h.0, h.1)
    where
      call : Outcome (ℕ × List ℕ × S)
      call = read_block_error port fuel m at (length expected) timeout no_term timeout_error s
