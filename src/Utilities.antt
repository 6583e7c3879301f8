-- ===== src/Utilities.antt =====
-- nuhal_all/src/utilities.c: the length of a C string with a limit, and angles.
pub mod Length
mod Tests
use nuhal.Common.{ℕ, ◌+◌, List, [], ◌∷◌, ltb, ◌==◌, if◌then◌else◌}
use nuhal.Floats.{FloatOps, two_f, pi_f, neg_pi_f}
use nuhal.Common.{Outcome, ok, undefined}

-- The loop of `utilities_strlen`, over what the object holds from `str[index]` on. The character is
-- read before the limit is tested, so a string object that ends without '\0' is read past its end.
pub strlen_from : List ℕ → ℕ → ℕ → Outcome ℕ
strlen_from [] maxlen index = undefined
strlen_from (c ∷ cs) maxlen index =
    if c == 0
    then ok index
    else if ltb index maxlen
    then strlen_from cs maxlen (index + 1)
    else ok index

-- `utilities_strlen`. `str` is the object from the pointer on.
pub strlen : List ℕ → ℕ → Outcome ℕ
strlen str maxlen = strlen_from str maxlen 0

-- `normalize_angle`
unfoldable pub normalize_angle : FloatOps → ℕ → ℕ
normalize_angle F rad =
    let turn = F.mul two_f pi_f in
    let a = F.fmod rad turn in
    if F.less pi_f a then F.sub a turn else if F.less a neg_pi_f then F.add a turn else a
