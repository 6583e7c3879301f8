-- ===== src/Uart/Host/Ports/Chain.antt =====
-- Lists in a heap that are linked in both directions.
use nuhal.Common.{
  ℕ, zero, suc, ◌<◌, ◌≡◌, refl, sym, ◌∙◌, ap, arith, Bool, true, false, ◌||◌, Option, none, some,
  List, [], ◌∷◌, ◌++◌, length, ◌==◌, ne→==, ok, Ptr,
}
use native.Mathlib.Decide.{ℕ_discrete}
use nuhal.Uart.Host.Ports.{PortNode, Heap, write, node_at, last_port}

-- Each port by its address and its file descriptor.
abbrev pub Ports : Type 0
Ports = List (ℕ × ℕ)

abbrev pub has : ℕ → Ports → Bool
has a [] = false
has a ((x, d) ∷ xs) = (a == x) || has a xs

-- No address occurs twice.
abbrev pub Distinct : Ports → Type 0
Distinct [] = Unit
Distinct ((x, d) ∷ xs) = (has x xs ≡ false) × Distinct xs

-- From `head` on, the `next` pointers lead through the structures of `xs`, and each points back to
-- the one before, the first to `prev`.
abbrev pub Chain : Heap → Ptr ℕ → Ptr ℕ → Ports → Type 0
Chain cells prev head [] = head ≡ none
Chain cells prev head ((x, d) ∷ xs) =
    (head ≡ some x)
    × (n : PortNode) × (cells x ≡ some n)
    × (n.prev ≡ prev)
    × (n.self ≡ x)
    × (n.fd ≡ d)
    × Chain cells (some x) n.next xs

-- The open ports, in the order in which they were opened.
pub record IsPortList (cells : Heap) (head : Ptr ℕ) (xs : Ports) : Type 0 where
  pub chain : Chain cells none head xs
  pub distinct : Distinct xs

pub has-append : (a : ℕ) (xs ys : Ports) → has a (xs ++ ys) ≡ (has a xs || has a ys)
has-append a [] ys = refl
has-append a (x ∷ xs) ys = ground (arith, has-append a xs ys)

-- An address in a list is not one outside it.
pub apart_of_has : (a b : ℕ) (xs : Ports) → has a xs ≡ false → has b xs ≡ true → (a == b) ≡ false
apart_of_has a b xs out inside = elim (ℕ_discrete a b) [
  | yes e ↦ absurd (ground (arith, sym out ∙ (ap (λ t. has t xs) e ∙ inside)))
  | no ne ↦ ne→== a b ne
]

pub write-other :
    (cells : Heap) (l a : ℕ) (c : Option PortNode) → (a == l) ≡ false → write cells l c a ≡ cells a
write-other cells l a c e = rw e refl

-- A change elsewhere.
pub frame :
    (cells cells' : Heap) (prev head : Ptr ℕ) (xs : Ports)
    → Chain cells prev head xs
    → ((a : ℕ) → has a xs ≡ true → cells' a ≡ cells a)
    → Chain cells' prev head xs
frame cells cells' prev head [] h same = h
frame cells cells' prev head ((x, d) ∷ xs) (e, n, at, back, own, fd, rest) same = (
  e,
  n,
  same x (ground arith) ∙ at,
  back,
  own,
  fd,
  frame cells cells' (some x) n.next xs rest λ a i. same a (ground arith),
)

-- Another pointer to the same structure.
pub redirect :
    (cells : Heap) (prev head head' : Ptr ℕ) (x : ℕ × ℕ) (xs : Ports)
    → Chain cells prev head (x ∷ xs)
    → head' ≡ some (x.0)
    → Chain cells prev head' (x ∷ xs)
redirect cells prev head head' x xs (e, n, at, back, own, fd, rest) e' =
    (e', n, at, back, own, fd, rest)

pub node_at-ok : (cells : Heap) (p : ℕ) (n : PortNode) → cells p ≡ some n → node_at cells p ≡ ok n
unfolding node_at
node_at-ok cells p n e = rw (node_at, e) refl

-- The address of the last of the ports `x ∷ xs`.
abbrev pub last_of : ℕ → Ports → ℕ
last_of x [] = x
last_of x ((y, d) ∷ xs) = last_of y xs

pub has-last_of : (x d : ℕ) (xs : Ports) → has (last_of x xs) ((x, d) ∷ xs) ≡ true
has-last_of x d [] = ground arith
has-last_of x d ((y, d') ∷ xs) = ground (arith, has-last_of y d' xs)

pub last_port-last_of :
    (fuel : ℕ) (cells : Heap) (prev : Ptr ℕ) (x d : ℕ) (xs : Ports)
    → Chain cells prev (some x) ((x, d) ∷ xs)
    → length xs < fuel
    → last_port fuel cells x ≡ ok (last_of x xs)
unfolding last_port
last_port-last_of zero cells prev x d xs h enough = absurd (omega (arith, enough))
last_port-last_of (suc fuel) cells prev x d [] (e, n, at, back, own, fd, rest) enough =
    rw (node_at-ok cells x n at, rest) refl
last_port-last_of (suc fuel) cells prev x d ((y, d') ∷ xs) (e, n, at, back, own, fd, rest) enough =
    rw (node_at-ok cells x n at, rest.0)
      (last_port-last_of fuel cells (some x) y d' xs
        (redirect cells (some x) n.next (some y) (y, d') xs rest refl) (omega (arith, enough)))
