-- ===== src/Common/Effect.antt =====
-- What a call of a C function comes to. `error()` (nuhal_all/src/error.c) does not return, so a
-- call of it ends the whole computation and carries the text that it was given. Accesses that C
-- leaves undefined (outside an object, through a null pointer that no guard catches) are
-- `undefined`, and never a value. A loop that has used up the rounds it is given is `unfinished`.
use Prim.Native.Nat.{ℕ}
use mathlib.Core.Path.{Path, ◌≡◌, refl, ap}
use mathlib.Core.Option.{Option, none, some}
use mathlib.Core.List.{List}
use mathlib.Core.Bool.{Bool, true, false}
use nuhal.Common.Tests.{ltb, if◌then◌else◌}
use nuhal.Common.Lists.{length, get_elem?, set}

-- The texts that the modelled files hand to `error()`.
pub data Message : Type 0 where
  null_ptr null_pointer queue_is_null stamp_is_null : Message
  overflow buffer_overrun string_not_terminated string_too_long : Message
  out_of_range unknown_orientation invalid_color : Message
  bad_capacity queue_is_full queue_is_empty timeout : Message
  unknown_color invalid_shape errno : Message
  read_timeout write_timeout invalid_term : Message
  invalid_checksum downstream_error response_mismatch : Message
  bad_port_count length_mismatch unknown_broadcast data_too_long invalid_length : Message
  invalid_port invalid_pin pin_assigned jtag_pin invalid_peripheral not_enabled : Message
  invalid_param break_with_parity cleanup_not_registered : Message
  unsupported_baud unsupported_flow unsupported_parity : Message
  invalid_uart uart_read_error break_timeout clock_not_set : Message
  software_flow unknown_flow no_flow_control : Message

pub data Outcome {ℓ} (A : Type ℓ) : Type ℓ where
  ok : A → Outcome A
  err : Message → Outcome A
  undefined : Outcome A
  unfinished : Outcome A

infixl 5 ◌>>=◌
abbrev pub ◌>>=◌ {ℓ κ} : {A : Type ℓ} {B : Type κ} → Outcome A → (A → Outcome B) → Outcome B
ok a >>= f = f a
err e >>= f = err e
undefined >>= f = undefined
unfinished >>= f = unfinished

-- A pointer to one object: `none` is NULL.
abbrev pub Ptr {ℓ} : Type ℓ → Type ℓ
Ptr A = Option A

-- `if(!p) error(FILE_LINE, msg);` before `*p` is used.
abbrev pub require {ℓ} : {A : Type ℓ} → Ptr A → Message → Outcome A
require none msg = err msg
require (some a) msg = ok a

-- `m[i]` for an object `m` in memory.
abbrev pub load {ℓ} : {A : Type ℓ} → List A → ℕ → Outcome A
load m i = elim (get_elem? m i) [ none ↦ undefined | some a ↦ ok a ]

-- `m[i] = v`.
abbrev pub store {ℓ} : {A : Type ℓ} → List A → ℕ → A → Outcome (List A)
store m i v = if ltb i (length m) then ok (set m i v) else undefined

-- The call returns, and what it returns satisfies `P`.
abbrev pub Returns {ℓ} : {A : Type ℓ} → Outcome A → (A → Type 0) → Type 0
Returns (ok a) P = P a
Returns (err e) P = ⊥
Returns undefined P = ⊥
Returns unfinished P = ⊥

-- The value that a returning call returns.
pub Returns-ok {ℓ} :
    {A : Type ℓ} (m : Outcome A) (P : A → Type 0) → Returns m P → (a : A) × (m ≡ ok a) × P a
Returns-ok (ok a) P h = (a, refl, h)
Returns-ok (err e) P h = absurd h
Returns-ok undefined P h = absurd h
Returns-ok unfinished P h = absurd h

-- The first of two calls that return.
pub Returns-split {ℓ κ} :
    {A : Type ℓ} {B : Type κ} (m : Outcome A) (f : A → Outcome B) (P : B → Type 0)
    → Returns (m >>= f) P
    → Returns m (λ a. Returns (f a) P)
Returns-split (ok a) f P h = h
Returns-split (err e) f P h = h
Returns-split undefined f P h = h
Returns-split unfinished f P h = h

-- The call returns a value that satisfies `P`, or ends in an error that satisfies `E`: nothing is
-- undefined, and every loop ends.
abbrev pub Settles {ℓ} : {A : Type ℓ} → Outcome A → (A → Type 0) → (Message → Type 0) → Type 0
Settles (ok a) P E = P a
Settles (err e) P E = E e
Settles undefined P E = ⊥
Settles unfinished P E = ⊥

pub Settles-mono {ℓ} :
    {A : Type ℓ} (m : Outcome A) (P Q : A → Type 0) (E : Message → Type 0)
    → Settles m P E
    → ((a : A) → P a → Q a)
    → Settles m Q E
Settles-mono (ok a) P Q E h f = f a h
Settles-mono (err e) P Q E h f = h
Settles-mono undefined P Q E h f = absurd h
Settles-mono unfinished P Q E h f = absurd h

pub Settles-errors {ℓ} :
    {A : Type ℓ} (m : Outcome A) (P : A → Type 0) (E F : Message → Type 0)
    → Settles m P E
    → ((e : Message) → E e → F e)
    → Settles m P F
Settles-errors (ok a) P E F h f = h
Settles-errors (err e) P E F h f = f e h
Settles-errors undefined P E F h f = absurd h
Settles-errors unfinished P E F h f = absurd h

-- What follows a call that settles.
pub Settles-bind {ℓ κ} :
    {A : Type ℓ} {B : Type κ} (m : Outcome A) (f : A → Outcome B) (P : A → Type 0) (Q : B → Type 0)
    (E : Message → Type 0)
    → Settles m P E
    → ((a : A) → P a → Settles (f a) Q E)
    → Settles (m >>= f) Q E
Settles-bind (ok a) f P Q E h g = g a h
Settles-bind (err e) f P Q E h g = h
Settles-bind undefined f P Q E h g = absurd h
Settles-bind unfinished f P Q E h g = absurd h

-- What follows a call that returns.
pub Returns-bind {ℓ κ} :
    {A : Type ℓ} {B : Type κ} (m : Outcome A) (f : A → Outcome B) (P : A → Type 0) (Q : B → Type 0)
    (E : Message → Type 0)
    → Returns m P
    → ((a : A) → P a → Settles (f a) Q E)
    → Settles (m >>= f) Q E
Returns-bind (ok a) f P Q E h g = g a h
Returns-bind (err e) f P Q E h g = absurd h
Returns-bind undefined f P Q E h g = absurd h
Returns-bind unfinished f P Q E h g = absurd h

-- If the call returns, what it returns satisfies `P`: for what a return tells.
abbrev pub Ensures {ℓ} : {A : Type ℓ} → Outcome A → (A → Type 0) → Type 0
Ensures (ok a) P = P a
Ensures (err e) P = Unit
Ensures undefined P = Unit
Ensures unfinished P = Unit

pub Ensures-bind {ℓ κ} :
    {A : Type ℓ} {B : Type κ} (m : Outcome A) (f : A → Outcome B) (P : B → Type 0)
    → ((a : A) → m ≡ ok a → Ensures (f a) P)
    → Ensures (m >>= f) P
Ensures-bind (ok a) f P h = h a refl
Ensures-bind (err e) f P h = tt
Ensures-bind undefined f P h = tt
Ensures-bind unfinished f P h = tt

pub Ensures-guard {ℓ} :
    {A : Type ℓ} (b : Bool) (e : Message) (m : Outcome A) (P : A → Type 0)
    → (b ≡ false → Ensures m P)
    → Ensures (if b then err e else m) P
Ensures-guard true e m P h = tt
Ensures-guard false e m P h = h refl

pub Ensures-ok {ℓ} :
    {A : Type ℓ} (m : Outcome A) (P : A → Type 0) (a : A) → m ≡ ok a → Ensures m P → P a
Ensures-ok m P a e h = rw e at h

pub Ensures-both {ℓ} :
    {A : Type ℓ} (m : Outcome A) (P Q R : A → Type 0)
    → Ensures m P
    → Ensures m Q
    → ((a : A) → P a → Q a → R a)
    → Ensures m R
Ensures-both (ok a) P Q R p q f = f a p q
Ensures-both (err e) P Q R p q f = tt
Ensures-both undefined P Q R p q f = tt
Ensures-both unfinished P Q R p q f = tt

pub ok_inj : (a b : ℕ) → Path (Outcome ℕ) (ok a) (ok b) → a ≡ b
ok_inj a b e = ap (λ m. elim m as (λ _. ℕ) [ ok c ↦ c | _ ↦ 0 ]) e
