-- ===== src/Utilities/Length.antt =====
-- What `utilities_strlen` returns.
use nuhal.Common.{
  ℕ, ◌+◌, ◌≤◌, ◌<◌, ◌≡◌, ◌≢◌, refl, List, [], ◌∷◌, ◌++◌, arith, length, ok, undefined,
}
use nuhal.Utilities.{strlen_from, strlen}

-- No character of the text is '\0'.
abbrev pub IsText : List ℕ → Type 0
IsText [] = Unit
IsText (c ∷ cs) = (c ≢ 0) × IsText cs

strlen_from-terminated :
    (text rest : List ℕ) (maxlen index : ℕ)
    → IsText text
    → index + length text ≤ maxlen
    → strlen_from (text ++ 0 ∷ rest) maxlen index ≡ ok (index + length text)
unfolding strlen_from
strlen_from-terminated [] rest maxlen index t h = ground arith
strlen_from-terminated (c ∷ text) rest maxlen index t h =
    ground (arith, strlen_from-terminated text rest maxlen (index + 1) t.1)

-- Up to the limit, the length of a terminated text is the number of its characters.
pub strlen-terminated :
    (text rest : List ℕ) (maxlen : ℕ)
    → IsText text
    → length text ≤ maxlen
    → strlen (text ++ 0 ∷ rest) maxlen ≡ ok (length text)
unfolding strlen
strlen-terminated text rest maxlen t h = ground (arith, strlen_from-terminated text rest maxlen 0 t)

strlen_from-long :
    (text rest : List ℕ) (maxlen index : ℕ)
    → IsText text
    → index ≤ maxlen
    → maxlen < index + length text
    → strlen_from (text ++ rest) maxlen index ≡ ok maxlen
unfolding strlen_from
strlen_from-long [] rest maxlen index t lo hi = absurd (omega arith)
strlen_from-long (c ∷ text) rest maxlen index t lo hi =
    ground (arith, strlen_from-long text rest maxlen (index + 1) t.1)

-- Of a text with more characters than the limit the length is the limit, whatever follows it.
pub strlen-long :
    (text rest : List ℕ) (maxlen : ℕ)
    → IsText text
    → maxlen < length text
    → strlen (text ++ rest) maxlen ≡ ok maxlen
unfolding strlen
strlen-long text rest maxlen t h = strlen_from-long text rest maxlen 0 t (omega arith) (omega arith)

strlen_from-runs_out :
    (text : List ℕ) (maxlen index : ℕ)
    → IsText text
    → index + length text ≤ maxlen
    → strlen_from text maxlen index ≡ undefined
unfolding strlen_from
strlen_from-runs_out [] maxlen index t h = refl
strlen_from-runs_out (c ∷ text) maxlen index t h =
    ground (arith, strlen_from-runs_out text maxlen (index + 1) t.1)

-- An object of at most maxlen characters with no terminator is read past its end, also where it
-- holds exactly maxlen.
pub strlen-runs_out :
    (text : List ℕ) (maxlen : ℕ)
    → IsText text
    → length text ≤ maxlen
    → strlen text maxlen ≡ undefined
unfolding strlen
strlen-runs_out text maxlen t h = strlen_from-runs_out text maxlen 0 t (omega arith)
