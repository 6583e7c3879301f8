-- ===== src/Uart/Host/Ports/Unlink.antt =====
-- Taking a port out of the list of open ports.
use nuhal.Common.{
  ℕ, ◌≡◌, refl, ◌∙◌, arith, false, Option, none, some, if◌then◌else◌, Outcome, ok, Ptr,
}
use nuhal.Uart.Host.Ports.{PortNode, Heap, write, set_next, set_prev, points_to, unlink}
use nuhal.Uart.Host.Ports.Chain.{node_at-ok}

abbrev changed : Heap → ℕ → (PortNode → PortNode) → Option PortNode → Heap
changed cells q f none = cells
changed cells q f (some n) = write cells q (some (f n))

-- A change of the structure that a pointer leads to.
abbrev relink : Ptr ℕ → (PortNode → PortNode) → Heap → Heap
relink none f cells = cells
relink (some q) f cells = changed cells q f (cells q)

pub relink-other :
    (ptr : Ptr ℕ) (f : PortNode → PortNode) (cells : Heap) (a : ℕ)
    → points_to ptr a ≡ false
    → relink ptr f cells a ≡ cells a
relink-other none f cells a h = refl
relink-other (some q) f cells a h = other (cells q)
  where
    other : (c : Option PortNode) → changed cells q f c a ≡ cells a
    other none = refl
    other (some n) = ground arith

pub relink-at :
    (ptr : Ptr ℕ) (f : PortNode → PortNode) (cells : Heap) (a : ℕ) (n : PortNode)
    → ptr ≡ some a
    → cells a ≡ some n
    → relink ptr f cells a ≡ some (f n)
relink-at ptr f cells a n e at = rw (e, at) (ground arith)

-- The pointer is NULL, or leads to a structure.
abbrev pub IsPresent : Heap → Ptr ℕ → Type 0
IsPresent cells none = Unit
IsPresent cells (some q) = (n : PortNode) × (cells q ≡ some n)

set_next-relink :
    (ptr x : Ptr ℕ) (cells : Heap)
    → IsPresent cells ptr
    → (elim ptr as (λ _. Outcome Heap) [ none ↦ ok cells | some q ↦ set_next q x cells ])
      ≡ ok (relink ptr (λ n. record n { next = x }) cells)
unfolding set_next
set_next-relink none x cells h = refl
set_next-relink (some q) x cells (n, at) = rw (node_at-ok cells q n at, at) refl

set_prev-relink :
    (ptr x : Ptr ℕ) (cells : Heap)
    → IsPresent cells ptr
    → (elim ptr as (λ _. Outcome Heap) [ none ↦ ok cells | some q ↦ set_prev q x cells ])
      ≡ ok (relink ptr (λ n. record n { prev = x }) cells)
unfolding set_prev
set_prev-relink none x cells h = refl
set_prev-relink (some q) x cells (n, at) = rw (node_at-ok cells q n at, at) refl

IsPresent-relink :
    (ptr ptr' : Ptr ℕ) (f : PortNode → PortNode) (cells : Heap)
    → IsPresent cells ptr'
    → ((a : ℕ) → ptr' ≡ some a → points_to ptr a ≡ false)
    → IsPresent (relink ptr f cells) ptr'
IsPresent-relink ptr none f cells h apart = tt
IsPresent-relink ptr (some q) f cells (n, at) apart =
    (n, relink-other ptr f cells q (apart q refl) ∙ at)

module _ (cells : Heap) (p : ℕ) (pn : PortNode) where
  abbrev pub without_prev : Heap
  without_prev = relink pn.prev (λ n. record n { next = pn.next }) cells

  abbrev pub without_both : Heap
  without_both = relink pn.next (λ n. record n { prev = pn.prev }) without_prev

  -- The heap after the port has been taken out.
  abbrev pub unlinked : Heap
  unlinked = write without_both p none

  pub unlink-unlinked :
      (head : Ptr ℕ)
      → cells p ≡ some pn
      → pn.self ≡ p
      → IsPresent cells pn.prev
      → IsPresent cells pn.next
      → points_to pn.prev p ≡ false
      → points_to pn.next p ≡ false
      → ((a : ℕ) → pn.next ≡ some a → points_to pn.prev a ≡ false)
      → unlink p head cells ≡ ok (if points_to head p then pn.next else head, unlinked)
  unfolding unlink
  unlink-unlinked head at self before after not_prev not_next apart =
      let at' : without_prev p ≡ some pn =
        relink-other pn.prev (λ n. record n { next = pn.next }) cells p not_prev ∙ at in
      let at'' : without_both p ≡ some pn =
        relink-other pn.next (λ n. record n { prev = pn.prev }) without_prev p not_next ∙ at' in
      rw
        (
          node_at-ok cells p pn at,
          set_next-relink pn.prev pn.next cells before,
          node_at-ok without_prev p pn at',
          set_prev-relink pn.next pn.prev without_prev (
              IsPresent-relink pn.prev pn.next (λ n. record n { next = pn.next }) cells after
                apart),
          node_at-ok without_both p pn at'',
          self,
        )
        refl
