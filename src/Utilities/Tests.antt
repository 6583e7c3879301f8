-- ===== src/Utilities/Tests.antt =====
-- `utilities_strlen` at concrete strings.
use nuhal.Common.{◌≡◌, refl, [], ◌∷◌, ok, undefined}
use nuhal.Utilities.{strlen, strlen_from}

-- The bound does not keep it from the character behind the array.
strlen_abc : strlen (97 ∷ 98 ∷ 99 ∷ []) 3 ≡ undefined
unfolding strlen strlen_from
strlen_abc = refl

strlen_abc_0 : strlen (97 ∷ 98 ∷ 99 ∷ 0 ∷ []) 3 ≡ ok 3
unfolding strlen strlen_from
strlen_abc_0 = refl
