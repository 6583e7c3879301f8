-- ===== src/Uart/Host/Ports/Listed.antt =====
-- The list of open ports after `uart_close`, and after all ports have been closed.
use nuhal.Common.{
  ℕ, ◌≡◌, refl, sym, ◌∙◌, ap, arith, true, false, ◌||◌, none, some, [], ◌∷◌, ◌++◌, if◌then◌else◌,
  Bool-cases, inl, inr, Ptr, Returns,
}
use nuhal.Uart.Host.Ports.{PortNode, Heap, points_to, unlink}
use nuhal.Uart.Host.Ports.Chain.{Ports, has, Distinct, Chain, IsPortList, has-append, apart_of_has}
use nuhal.Uart.Host.Ports.Unlink.{unlink-unlinked, IsPresent}
use nuhal.Uart.Host.Ports.Close.{
  before, points_to-first, points_to-before, middle, after-Chain, before-Chain, new_head,
}

-- The addresses before, at and after a port are apart.
record Apart (p d : ℕ) (ys zs : Ports) : Type 0 where
  not_before : has p ys ≡ false
  not_after : has p zs ≡ false
  after : Distinct zs
  rest : Distinct (ys ++ zs)
  sides : (a : ℕ) → has a zs ≡ true → has a ys ≡ false

Distinct-Apart : (p d : ℕ) (ys zs : Ports) → Distinct (ys ++ (p, d) ∷ zs) → Apart p d ys zs
Distinct-Apart p d [] zs h = record {
  not_before = refl;
  not_after = h.0;
  after = h.1;
  rest = h.1;
  sides = λ a i. refl;
}
Distinct-Apart p d ((y, e) ∷ ys) zs h =
    let r = Distinct-Apart p d ys zs h.1 in
    let out : has y ys || has y ((p, d) ∷ zs) ≡ false = sym (has-append y ys ((p, d) ∷ zs)) ∙ h.0 in
    record {
      not_before = ground (arith, out, r.not_before);
      not_after = r.not_after;
      after = r.after;
      rest = (ground (arith, has-append y ys zs, out), r.rest);
      sides = λ a i. ground (arith, apart_of_has y a zs (ground (arith, out)) i, r.sides a i);
    }

module _ (cells : Heap) (p d : ℕ) where
  pub node_of :
      (prev head : Ptr ℕ) (ys zs : Ports)
      → Chain cells prev head (ys ++ (p, d) ∷ zs)
      → (n : PortNode) × (cells p ≡ some n) × (n.fd ≡ d)
  node_of prev head [] zs (e, n, at, back, own, fd, rest) = (n, at, fd)
  node_of prev head ((y, d') ∷ ys) zs (e, n, at, back, own, fd, rest) =
      node_of (some y) n.next ys zs rest

  IsPresent-before :
      (prev head : Ptr ℕ) (ys zs : Ports)
      → Chain cells prev head (ys ++ (p, d) ∷ zs)
      → IsPresent cells prev
      → IsPresent cells (before prev ys)
  IsPresent-before prev head [] zs chain h = h
  IsPresent-before prev head ((y, d') ∷ ys) zs (e, n, at, back, own, fd, rest) h =
      IsPresent-before (some y) n.next ys zs rest (n, at)

  IsPresent-first :
      (prev head : Ptr ℕ) (xs : Ports) → Chain cells prev head xs → IsPresent cells head
  IsPresent-first prev head [] e = rw e tt
  IsPresent-first prev head ((x, d') ∷ xs) (e, n, at, back, own, fd, rest) = rw e (n, at)

  head-new_head :
      (head : Ptr ℕ) (ys zs : Ports) (pn : PortNode) (at : cells p ≡ some pn)
      → Chain cells none head (ys ++ (p, d) ∷ zs)
      → has p ys ≡ false
      → (if points_to head p then pn.next else head) ≡ new_head cells p d pn at ys head
  head-new_head head [] zs pn at chain out = rw chain.0 (ground arith)
  head-new_head head ((y, d') ∷ ys) zs pn at chain out = rw chain.0 (ground arith)

  -- The list without the port, whose structure is freed.
  pub unlink-IsPortList :
      (head : Ptr ℕ) (ys zs : Ports)
      → IsPortList cells head (ys ++ (p, d) ∷ zs)
      → Returns
          (unlink p head cells)
          λ (head', cells'). IsPortList cells' head' (ys ++ zs) × (cells' p ≡ none)
  unlink-IsPortList head ys zs list =
      let (pn, at, _) = node_of none head ys zs list.chain in
      let (is_prev, self, fd, after) = middle cells p d pn at none head ys zs list.chain in
      let apart = Distinct-Apart p d ys zs list.distinct in
      let not_prev : (a : ℕ) → has a ys ≡ false → points_to pn.prev a ≡ false =
        λ a out. rw is_prev (not_before a ys out) in
      rw
        (unlink-unlinked cells p pn head at self
          (rw is_prev (IsPresent-before none head ys zs list.chain tt))
          (IsPresent-first (some p) pn.next zs after) (not_prev p apart.not_before)
          (points_to-first cells (some p) pn.next p zs after apart.not_after)
          (λ a e. not_prev a (apart.sides a (is_first pn.next a zs after e))))
        (
          record {
            chain = rw (head-new_head head ys zs pn at list.chain apart.not_before) (
                before-Chain cells p d pn at none head ys zs list.chain list.distinct (
                  after-Chain cells p d pn at zs after apart.not_after apart.after
                    λ a i. not_prev a (apart.sides a i)));
            distinct = apart.rest;
          },
          ground arith,
        )
    where
      not_before : (a : ℕ) (ys : Ports) → has a ys ≡ false → points_to (before none ys) a ≡ false
      not_before a [] out = refl
      not_before a ((y, d') ∷ ys) out = points_to-before a y d' ys out

      is_first :
          (next : Ptr ℕ) (a : ℕ) (zs : Ports)
          → Chain cells (some p) next zs
          → next ≡ some a
          → has a zs ≡ true
      is_first next a zs chain e = elim (Bool-cases (has a zs)) [
        | inl h ↦ h
        | inr out ↦
            let nowhere : points_to next a ≡ false =
              points_to-first cells (some p) next a zs chain out in
            absurd (ground (arith, ap (λ q. points_to q a) (sym e) ∙ nowhere))
      ]
