-- ===== src/Led/Host.antt =====
-- The LED of the host, set again and again.
use nuhal.Common.{◌≤◌, ◌≡◌, refl, arith, List, [], ◌∷◌, ok}
use nuhal.Led.{LedColor, LedHost, led_set, led_get, set_each}

-- The colours before the first that is none, and whether all are colours.
abbrev pub AllColors : List LedColor → Type 0
AllColors [] = Unit
AllColors (c ∷ cs) = (c ≤ 7) × AllColors cs

-- What is printed, the last colour first.
abbrev pub onto : List LedColor → List LedColor → List LedColor
onto [] printed = printed
onto (c ∷ cs) printed = onto cs (c ∷ printed)

abbrev pub last_of : LedColor → List LedColor → LedColor
last_of c [] = c
last_of c (d ∷ cs) = last_of d cs

-- After the host's LED was set to any sequence of colours, led_get is the last of them, or what it
-- was if there is none, and all of them were printed in their order.
pub set_each-colors :
    (colors : List LedColor) (led : LedHost)
    → AllColors colors
    → set_each led colors
      ≡ ok (record { color = last_of (led_get led) colors; printed = onto colors led.printed })
unfolding set_each led_set
set_each-colors [] led h = refl
set_each-colors (c ∷ cs) led h =
    ground (arith, h, set_each-colors cs (record { color = c; printed = c ∷ led.printed }) h.1)
