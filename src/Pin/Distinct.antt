-- ===== src/Pin/Distinct.antt =====
-- `pin_setup` of nuhal_tiva/src/pin_tiva.c lets no pin through twice.
use nuhal.Common.{
  ℕ, zero, suc, ◌≡◌, ◌≢◌, refl, sym, ◌∙◌, ap, arith, false, not, ◌&&◌, leb, some, List, [], ◌∷◌,
  bit_and, bit_or, set, get_elem?-set_ne, ok, load, Ensures, Ensures-bind, Ensures-guard,
  Ensures-ok, Ensures-both, ok_inj, ◌==◌,
}
use mathlib.Core.Path.{ap₂}
use native.Mathlib.Decide.{ℕ_discrete}
use nuhal.Common.Bits.{and_or_zero, bit_and_self}
use nuhal.Pin.{pin_port, pin_number}
use nuhal.Pin.Setup.{
  Tivaware, PinConfiguration, PinType, pin_base, pin_mask, pin_configure, peripheral_enable,
  set_type, unlock, configure_each, pin_setup,
}

-- The entry of a table after it was changed.
load-set : (m : List ℕ) (i v a : ℕ) → load m i ≡ ok a → load (set m i v) i ≡ ok v
load-set [] i v a e = absurd (ground arith)
load-set (x ∷ m) zero v a e = refl
load-set (x ∷ m) (suc i) v a e = load-set m i v a e

load-set_other : (m : List ℕ) (i j v : ℕ) → i ≢ j → load (set m i v) j ≡ load m j
load-set_other m i j v ne = ground (arith, get_elem?-set_ne m i j v ne)

module _ {S : Type 0} (tw : Tivaware S) where
  -- The bit of the pin is set in the table of assigned pins.
  abbrev Claimed : List ℕ → ℕ → Type 0
  Claimed assigned p =
      (a : ℕ) × (mask : ℕ) × (load assigned (pin_port p) ≡ ok a)
      × (pin_mask tw p ≡ ok mask)
      × (bit_and a mask ≢ 0)

  abbrev pub SamePin : ℕ → ℕ → Type 0
  SamePin p q = (pin_port p ≡ pin_port q) × (pin_number p ≡ pin_number q)

  -- No entry of the table is the pin; no two entries are the same pin.
  abbrev pub Free : ℕ → List PinConfiguration → Type 0
  Free p [] = Unit
  Free p (c ∷ table) = ¬ SamePin c.pin p × Free p table

  abbrev pub Distinct : List PinConfiguration → Type 0
  Distinct [] = Unit
  Distinct (c ∷ table) = Free c.pin table × Distinct table

  module _ (masks : (i mask : ℕ) → load tw.port_pins i ≡ ok mask → mask ≢ 0) where
    -- The entry of a pin after its bit was set.
    set-Claimed :
        (assigned : List ℕ) (p a mask : ℕ)
        → load assigned (pin_port p) ≡ ok a
        → pin_mask tw p ≡ ok mask
        → Claimed (set assigned (pin_port p) (bit_or a mask)) p
    unfolding pin_mask
    set-Claimed assigned p a mask ea em = (
      bit_or a mask,
      mask,
      load-set assigned (pin_port p) (bit_or a mask) a ea,
      em,
      λ z. masks (pin_number p) mask em (sym (bit_and_self mask) ∙ (and_or_zero a mask mask z).1),
    )

    Claimed-kept :
        (assigned : List ℕ) (p q a mask : ℕ)
        → load assigned (pin_port p) ≡ ok a
        → Claimed assigned q
        → Claimed (set assigned (pin_port p) (bit_or a mask)) q
    Claimed-kept assigned p q a mask ea (b, other, eb, eo, ne) =
        elim (ℕ_discrete (pin_port p) (pin_port q)) [
          | yes same ↦
              let now : load (set assigned (pin_port p) (bit_or a mask)) (pin_port q)
                  ≡ ok (bit_or a mask) =
                ap (load (set assigned (pin_port p) (bit_or a mask))) (sym same)
                ∙ load-set assigned (pin_port p) (bit_or a mask) a ea in
              let before : a ≡ b = ok_inj a b (sym ea ∙ (ap (load assigned) same ∙ eb)) in
              (
                bit_or a mask,
                other,
                now,
                eo,
                λ z. ne (ap (λ t. bit_and t other) (sym before) ∙ (and_or_zero a mask other z).0),
              )
          | no ne_port ↦ (
            b,
            other,
            load-set_other assigned (pin_port p) (pin_port q) (bit_or a mask) ne_port ∙ eb,
            eo,
            ne,
          )
        ]

    not_twice :
        (assigned : List ℕ) (p q a mask : ℕ)
        → load assigned (pin_port p) ≡ ok a
        → pin_mask tw p ≡ ok mask
        → not (0 == bit_and a mask) ≡ false
        → Claimed assigned q
        → ¬ SamePin p q
    unfolding pin_mask
    not_twice assigned p q a mask ea em unclaimed (b, other, eb, eo, ne) (port, number) =
        let same_a : a ≡ b = ok_inj a b (sym ea ∙ (ap (load assigned) port ∙ eb)) in
        let same_mask : mask ≡ other =
          ok_inj mask other (sym em ∙ (ap (load tw.port_pins) number ∙ eo)) in
        let none : bit_and a mask ≡ 0 = ground arith in
        ne (ap₂ bit_and (sym same_a) (sym same_mask) ∙ none)

    -- The pin that was set up was not claimed before, and is afterwards; the others stay claimed.
    Claims : ℕ → List ℕ → List ℕ × S → Type 0
    Claims p assigned (assigned', s') =
        Claimed assigned' p × ((q : ℕ) → Claimed assigned q → Claimed assigned' q × ¬ SamePin p q)

    pin_configure-Claims :
        (p : ℕ) (type : PinType) (assigned : List ℕ) (s : S)
        → Ensures (pin_configure tw p type assigned s) (Claims p assigned)
    unfolding pin_configure Claims
    pin_configure-Claims p type assigned s =
        Ensures-guard (leb 6 (pin_port p)) _ _ (Claims p assigned) λ _.
          Ensures-guard (leb 8 (pin_number p)) _ _ (Claims p assigned) λ _.
            Ensures-bind (pin_base tw p) _ (Claims p assigned) λ base _.
              Ensures-bind (pin_mask tw p) _ (Claims p assigned) λ mask em.
                Ensures-bind (load assigned (pin_port p)) _ (Claims p assigned) λ a ea.
                  Ensures-guard (not (0 == bit_and a mask)) _ _ (Claims p assigned) λ unclaimed.
                    Ensures-bind (load tw.sysctl_ports (pin_port p)) _ (Claims p assigned)
                      λ sysctl _.
                        Ensures-bind (peripheral_enable tw sysctl s) _ (Claims p assigned) λ s1 _.
                          Ensures-guard (pin_port p == 2 && leb (pin_number p) 3) _ _
                            (Claims p assigned)
                            λ _.
                              Ensures-bind
                                (set_type tw p base mask type
                                  (unlock tw (pin_port p) (pin_number p) base mask s1))
                                _ (Claims p assigned)
                                λ s2 _. (
                                  set-Claimed assigned p a mask ea em,
                                  λ q claimed. (
                                    Claimed-kept assigned p q a mask ea claimed,
                                    λ same.
                                        not_twice assigned p q a mask ea em unclaimed claimed same,
                                  ),
                                )

    configure_each-Free :
        (q : ℕ) (table : List PinConfiguration) (assigned : List ℕ) (s : S)
        → Claimed assigned q
        → Ensures (configure_each tw table assigned s) (λ _. Free q table)
    unfolding configure_each Claims
    configure_each-Free q [] assigned s claimed = tt
    configure_each-Free q (c ∷ table) assigned s claimed =
        Ensures-bind (pin_configure tw c.pin c.type assigned s) _ (λ _. Free q (c ∷ table))
          λ (assigned', s') e.
            let (_, keeps) =
              Ensures-ok (pin_configure tw c.pin c.type assigned s) (Claims c.pin assigned)
                (assigned', s') e (pin_configure-Claims c.pin c.type assigned s) in
            Ensures-both (configure_each tw table assigned' s') (λ _. Free q table)
              (λ _. Free q table) (λ _. Free q (c ∷ table))
              (configure_each-Free q table assigned' s' (keeps q claimed).0)
              (configure_each-Free q table assigned' s' (keeps q claimed).0)
              λ _ free _. ((keeps q claimed).1, free)

    configure_each-Distinct :
        (table : List PinConfiguration) (assigned : List ℕ) (s : S)
        → Ensures (configure_each tw table assigned s) (λ _. Distinct table)
    unfolding configure_each Claims
    configure_each-Distinct [] assigned s = tt
    configure_each-Distinct (c ∷ table) assigned s =
        Ensures-bind (pin_configure tw c.pin c.type assigned s) _ (λ _. Distinct (c ∷ table))
          λ (assigned', s') e.
            let (claimed, _) =
              Ensures-ok (pin_configure tw c.pin c.type assigned s) (Claims c.pin assigned)
                (assigned', s') e (pin_configure-Claims c.pin c.type assigned s) in
            Ensures-both (configure_each tw table assigned' s') (λ _. Free c.pin table)
              (λ _. Distinct table) (λ _. Distinct (c ∷ table))
              (configure_each-Free c.pin table assigned' s' claimed)
              (configure_each-Distinct table assigned' s') λ _ free distinct. (free, distinct)

  -- If pin_setup of a table returns, whatever was assigned before, no two of its entries are the
  -- same pin of the same port, as long as no pin mask of TivaWare is 0.
  pub pin_setup-Distinct :
      (table : List PinConfiguration) (assigned assigned' : List ℕ) (s s' : S)
      → ((i mask : ℕ) → load tw.port_pins i ≡ ok mask → mask ≢ 0)
      → pin_setup tw (some table) assigned s ≡ ok (assigned', s')
      → Distinct table
  unfolding pin_setup
  pin_setup-Distinct table assigned assigned' s s' masks e =
      Ensures-ok (configure_each tw table assigned s) (λ _. Distinct table) (assigned', s') e
        (configure_each-Distinct masks table assigned s)
