-- ===== src/Uart/Host/Ports/Close.antt =====
-- What `uart_close` leaves of the list of open ports.
use nuhal.Common.{
  ℕ, ◌≡◌, refl, sym, ◌∙◌, ap, arith, true, false, ◌||◌, Option, none, some, [], ◌∷◌, ◌++◌, ◌==◌,
  Ptr,
}
use mathlib.Core.Path.{subst}
use nuhal.Uart.Host.Ports.{PortNode, Heap, points_to}
use nuhal.Uart.Host.Ports.Chain.{
  Ports, has, Distinct, Chain, has-append, apart_of_has, write-other, frame,
}
use nuhal.Uart.Host.Ports.Unlink.{unlinked, relink-other, relink-at, without_prev, without_both}

pub some_inj : (n n' : PortNode) → Path (Option PortNode) (some n) (some n') → n ≡ n'
some_inj n n' e = ap (λ o. elim o as (λ _. PortNode) [ none ↦ n | some m ↦ m ]) e

-- The pointer to the last of the ports, or to the one before them.
abbrev pub before : Ptr ℕ → Ports → Ptr ℕ
before prev [] = prev
before prev ((y, d) ∷ ys) = before (some y) ys

pub points_to-first :
    (cells : Heap) (prev head : Ptr ℕ) (a : ℕ) (xs : Ports)
    → Chain cells prev head xs
    → has a xs ≡ false
    → points_to head a ≡ false
points_to-first cells prev head a [] e out = rw e refl
points_to-first cells prev head a ((x, d) ∷ xs) (e, n, at, back, own, fd, rest) out =
    rw e (ground arith)

pub points_to-before :
    (a y d : ℕ) (ys : Ports)
    → has a ((y, d) ∷ ys) ≡ false
    → points_to (before (some y) ys) a ≡ false
points_to-before a y d [] out = ground arith
points_to-before a y d ((y', d') ∷ ys) out = points_to-before a y' d' ys (ground arith)

module _ (cells : Heap) (p d : ℕ) (pn : PortNode) (at : cells p ≡ some pn) where
  -- The port's own structure, and the ports after it.
  pub middle :
      (prev head : Ptr ℕ) (ys zs : Ports)
      → Chain cells prev head (ys ++ (p, d) ∷ zs)
      → (pn.prev ≡ before prev ys) × (pn.self ≡ p) × (pn.fd ≡ d) × Chain cells (some p) pn.next zs
  middle prev head [] zs (e, n, at', back, own, fd, rest) =
      let same = some_inj n pn (sym at' ∙ at) in
      subst
        (λ (m : PortNode).
          (m.prev ≡ prev) × (m.self ≡ p) × (m.fd ≡ d) × Chain cells (some p) m.next zs)
        same (back, own, fd, rest)
  middle prev head ((y, d') ∷ ys) zs (e, n, at', back, own, fd, rest) =
      middle (some y) n.next ys zs rest

  unlinked-other :
      (a : ℕ)
      → (a == p) ≡ false
      → points_to pn.prev a ≡ false
      → points_to pn.next a ≡ false
      → unlinked cells p pn a ≡ cells a
  unlinked-other a not_p not_prev not_next =
      write-other (without_both cells p pn) p a none not_p
      ∙ (relink-other pn.next (λ n. record n { prev = pn.prev }) (without_prev cells p pn) a
            not_next
          ∙ relink-other pn.prev (λ n. record n { next = pn.next }) cells a not_prev)

  unlinked-prev :
      (a : ℕ) (n : PortNode)
      → (a == p) ≡ false
      → pn.prev ≡ some a
      → cells a ≡ some n
      → points_to pn.next a ≡ false
      → unlinked cells p pn a ≡ some (record n { next = pn.next })
  unlinked-prev a n not_p is here not_next =
      write-other (without_both cells p pn) p a none not_p
      ∙ (relink-other pn.next (λ n. record n { prev = pn.prev }) (without_prev cells p pn) a
            not_next
          ∙ relink-at pn.prev (λ n. record n { next = pn.next }) cells a n is here)

  unlinked-next :
      (a : ℕ) (n : PortNode)
      → (a == p) ≡ false
      → pn.next ≡ some a
      → cells a ≡ some n
      → points_to pn.prev a ≡ false
      → unlinked cells p pn a ≡ some (record n { prev = pn.prev })
  unlinked-next a n not_p is here not_prev =
      write-other (without_both cells p pn) p a none not_p
      ∙ relink-at pn.next (λ n. record n { prev = pn.prev }) (without_prev cells p pn) a n is
          (relink-other pn.prev (λ n. record n { next = pn.next }) cells a not_prev ∙ here)

  -- The ports after the one that is taken out.
  pub after-Chain :
      (zs : Ports)
      → Chain cells (some p) pn.next zs
      → has p zs ≡ false
      → Distinct zs
      → ((a : ℕ) → has a zs ≡ true → points_to pn.prev a ≡ false)
      → Chain (unlinked cells p pn) pn.prev pn.next zs
  after-Chain [] e out apart not_prev = e
  after-Chain ((z, d') ∷ zs) (e, n, here, back, own, fd, rest) out apart not_prev = (
    e,
    record n { prev = pn.prev },
    unlinked-next z n (ground arith) e here (not_prev z (ground arith)),
    refl,
    own,
    fd,
    frame cells (unlinked cells p pn) (some z) n.next zs rest λ a i.
        unlinked-other a (apart_sym p a zs (ground arith) i) (not_prev a (ground arith))
          (rw e (apart_of_has z a zs apart.0 i)),
  )
    where
      apart_sym : (p a : ℕ) (zs : Ports) → has p zs ≡ false → has a zs ≡ true → (a == p) ≡ false
      apart_sym p a zs out i = ground (arith, apart_of_has p a zs out i)

  -- The head of the list, where `ys` come before the port.
  abbrev pub new_head : Ports → Ptr ℕ → Ptr ℕ
  new_head [] head = pn.next
  new_head (y ∷ ys) head = head

  pub before-Chain :
      (prev head : Ptr ℕ) (ys zs : Ports)
      → Chain cells prev head (ys ++ (p, d) ∷ zs)
      → Distinct (ys ++ (p, d) ∷ zs)
      → Chain (unlinked cells p pn) pn.prev pn.next zs
      → Chain (unlinked cells p pn) prev (new_head ys head) (ys ++ zs)
  before-Chain prev head [] zs chain apart done =
      subst (λ (q : Ptr ℕ). Chain (unlinked cells p pn) q pn.next zs)
        (middle prev head [] zs chain).0 done
  before-Chain prev head ((y, d') ∷ []) zs (e, n, here, back, own, fd, rest) apart done =
      let (is_prev, _, _, after) = middle (some y) n.next [] zs rest in
      (
        e,
        record n { next = pn.next },
        unlinked-prev y n (ground arith) is_prev here
            (points_to-first cells (some p) pn.next y zs after (ground arith)),
        back,
        own,
        fd,
        subst (λ (q : Ptr ℕ). Chain (unlinked cells p pn) q pn.next zs) is_prev done,
      )
  before-Chain prev head ((y, d') ∷ (y', e') ∷ ys) zs (e, n, here, back, own, fd, rest) apart done =
      let (is_prev, _, _, after) = middle (some y) n.next ((y', e') ∷ ys) zs rest in
      let out : has y ((y', e') ∷ ys) || has y ((p, d) ∷ zs) ≡ false =
        sym (has-append y ((y', e') ∷ ys) ((p, d) ∷ zs)) ∙ apart.0 in
      (
        e,
        n,
        unlinked-other y (ground (arith, out))
              (rw is_prev (points_to-before y y' e' ys (ground (arith, out))))
              (points_to-first cells (some p) pn.next y zs after (ground (arith, out)))
            ∙ here,
        back,
        own,
        fd,
        before-Chain (some y) n.next ((y', e') ∷ ys) zs rest apart.1 done,
      )
