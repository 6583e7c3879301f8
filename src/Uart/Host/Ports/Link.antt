-- ===== src/Uart/Host/Ports/Link.antt =====
-- Adding a port to the list of open ports.
use nuhal.Common.{
  ℕ, ◌<◌, ◌≡◌, refl, ◌∙◌, arith, false, none, some, [], ◌∷◌, ◌++◌, length, Ptr, Returns,
}
use nuhal.Uart.Host.Ports.{PortNode, Heap, write, set_next, set_prev, link}
use nuhal.Uart.Host.Ports.Chain.{
  Ports, has, Distinct, Chain, IsPortList, has-append, apart_of_has, write-other, redirect,
  node_at-ok, last_of, has-last_of, last_port-last_of,
}

module _ (cells : Heap) (a : ℕ) (new : PortNode) where
  -- The heap after the port at `a` is put behind the one at `l`.
  abbrev linked : ℕ → PortNode → Heap
  linked l n =
      write (write cells l (some (record n { next = some a }))) a
        (some (record new { prev = some l }))

  link-Chain :
      (prev : Ptr ℕ) (x d : ℕ) (xs : Ports)
      → Chain cells prev (some x) ((x, d) ∷ xs)
      → Distinct ((x, d) ∷ xs)
      → has a ((x, d) ∷ xs) ≡ false
      → new.next ≡ none
      → new.self ≡ a
      → (n : PortNode) × (cells (last_of x xs) ≡ some n)
        × Chain (linked (last_of x xs) n) prev (some x) (((x, d) ∷ xs) ++ (a, new.fd) ∷ [])
  link-Chain prev x d [] (e, n, at, back, own, fd, rest) apart out last self = (
    n,
    at,
    (
      refl,
      record n { next = some a },
      ground arith,
      back,
      own,
      fd,
      (refl, record new { prev = some x }, ground arith, refl, self, refl, last),
    ),
  )
  link-Chain prev x d ((y, d') ∷ xs) (e, n, at, back, own, fd, rest) apart out last self =
      let (l, at_last, chain) =
        link-Chain (some x) y d' xs (redirect cells (some x) n.next (some y) (y, d') xs rest refl)
          apart.1 (ground arith) last self in
      (
        l,
        at_last,
        (
          refl,
          n,
          ground (
            arith,
            at,
            apart_of_has x (last_of y xs) ((y, d') ∷ xs) apart.0 (has-last_of y d' xs),
          ),
          back,
          own,
          fd,
          redirect (linked (last_of y xs) l) (some x) (some y) n.next (y, d')
              (xs ++ (a, new.fd) ∷ []) chain rest.0,
        ),
      )

  Distinct-append :
      (xs : Ports) (d : ℕ) → Distinct xs → has a xs ≡ false → Distinct (xs ++ (a, d) ∷ [])
  Distinct-append [] d apart out = (refl, tt)
  Distinct-append ((x, d') ∷ xs) d apart out = (
    ground (arith, has-append x xs ((a, d) ∷ []), apart.0),
    Distinct-append xs d apart.1 (ground arith),
  )

  -- What uart_open leaves: the ports that were open, and the new one at the end.
  pub link-IsPortList :
      (fuel : ℕ) (head : Ptr ℕ) (xs : Ports)
      → IsPortList cells head xs
      → cells a ≡ some new
      → has a xs ≡ false
      → new.next ≡ none
      → new.prev ≡ none
      → new.self ≡ a
      → length xs < fuel
      → Returns
          (link fuel a head cells)
          λ (head', cells'). IsPortList cells' head' (xs ++ (a, new.fd) ∷ [])
  unfolding link set_next set_prev
  link-IsPortList fuel head [] list at out next prev self enough =
      rw list.chain
        (record { chain = (refl, new, at, prev, self, refl, next); distinct = (refl, tt) })
  link-IsPortList fuel head ((x, d) ∷ xs) list at out next prev self enough =
      let first = redirect cells none head (some x) (x, d) xs list.chain refl in
      let (n, at_last, chain) = link-Chain none x d xs first list.distinct out next self in
      let l = last_of x xs in
      let still : write cells l (some (record n { next = some a })) a ≡ some new =
        write-other cells l a (some (record n { next = some a }))
          (apart_of_has a l ((x, d) ∷ xs) out (has-last_of x d xs))
        ∙ at in
      rw
        (
          list.chain.0,
          last_port-last_of fuel cells none x d xs first (omega (arith, enough)),
          node_at-ok cells l n at_last,
          node_at-ok (write cells l (some (record n { next = some a }))) a new still,
        )
        (record {
          chain = chain;
          distinct = Distinct-append ((x, d) ∷ xs) new.fd list.distinct out;
        })
