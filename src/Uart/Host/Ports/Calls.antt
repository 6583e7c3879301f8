-- ===== src/Uart/Host/Ports/Calls.antt =====
-- The calls of the system in `uart_open` of nuhal_linux/src/uart_host.c: each returns or ends in an error,
-- and what a return tells of the call.
use nuhal.Common.{
  ℕ, ◌≡◌, ◌⊎◌, inl, inr, refl, ap, arith, Bool, true, false, ◌||◌, Option, none, some, ◌==◌,
  if◌then◌else◌, Outcome, ok, err, undefined, unfinished, ◌>>=◌, Ptr, Message, errno,
  cleanup_not_registered, require, Settles, Settles-bind,
}
use nuhal.Uart.{
  UartFlow, hardware, software, no_flow, other_flow, UartParity, no_parity, odd, even, other_parity,
}
use nuhal.Uart.Host.{Posix, Termios}
use nuhal.Uart.Host.Ports.{PortSystem, must, must_if_supported}
use mathlib.Core.Path.{subst}
use nuhal.Uart.Host.Ports.Open.{
  baud_setting, flow_setting, parity_setting, settings, set_rs485_mode, register_cleanup,
}

-- The call returns or ends in an error.
abbrev pub Definite : {A : Type 0} → Outcome A → Type 0
Definite m = Settles m (λ _. Unit) (λ _. Unit)

pub known : {A : Type 0} (m : Outcome A) → Definite m → Settles m (λ a. m ≡ ok a) (λ _. Unit)
known (ok a) h = refl
known (err e) h = tt
known undefined h = h
known unfinished h = h

-- What follows a call that returns or ends in an error.
pub after :
    {A : Type 0} {B : Type 0} (m : Outcome A) (f : A → Outcome B) (P : B → Type 0)
    → Definite m
    → ((a : A) → m ≡ ok a → Settles (f a) P (λ _. Unit))
    → Settles (m >>= f) P (λ _. Unit)
after m f P h g = Settles-bind m f (λ a. m ≡ ok a) P (λ _. Unit) (known m h) g

pub require-Definite : {A : Type 0} (p : Ptr A) (e : Message) → Definite (require p e)
require-Definite none e = tt
require-Definite (some a) e = tt

same_value : {A : Type 0} (a b : A) → Path (Outcome A) (ok a) (ok b) → a ≡ b
same_value {A = A} a b e = ap (λ m. elim m as (λ _. A) [ ok c ↦ c | _ ↦ a ]) e

not_ok : {A : Type 0} (e : Message) (a : A) → Path (Outcome A) (err e) (ok a) → ⊥
not_ok e a h = subst (λ m. elim m as (λ _. Type 0) [ ok c ↦ ⊥ | _ ↦ Unit ]) h tt

pub require-some :
    {A : Type 0} (p : Ptr A) (a : A) → Path (Outcome A) (require p errno) (ok a) → p ≡ some a
require-some none a h = absurd (not_ok errno a h)
require-some (some b) a h = ap some (same_value b a h)

pub if-Definite :
    {A : Type 0} (b : Bool) (m n : Outcome A)
    → Definite m
    → Definite n
    → Definite (if b then m else n)
if-Definite true m n h g = h
if-Definite false m n h g = g

-- Where a call whose failure is an error has returned, it succeeded.
if-ok :
    {A : Type 0} (b : Bool) (e : Message) (a a' : A)
    → Path (Outcome A) (if b then ok a else err e) (ok a')
    → (b ≡ true) × (a ≡ a')
if-ok true e a a' h = (refl, same_value a a' h)
if-ok false e a a' h = absurd (not_ok e a' h)

one_of : (a b : Bool) → (a || b) ≡ true → (a ≡ true) ⊎ (b ≡ true)
one_of true b h = inl refl
one_of false b h = inr h

is_number : (m n : ℕ) → (m == n) ≡ true → m ≡ n
is_number m n h = ground arith

-- The call had the result `a`, and led to the world `w`.
abbrev pub Got : {W : Type 0} {A : Type 0} → Option A × W → A → W → Type 0
Got r a w = (r.0 ≡ some a) × (r.1 ≡ w)

-- The call succeeded, and led to the world `w`.
abbrev pub Done : {W : Type 0} → Bool × W → W → Type 0
Done r w = (r.0 ≡ true) × (r.1 ≡ w)

module _ {W : Type 0} (px : Posix W) (sys : PortSystem W) where
  -- The call succeeded or is not supported.
  abbrev pub Accepted : Bool × W → W → Type 0
  Accepted r w = ((r.0 ≡ true) ⊎ (px.errno_of r.1 ≡ sys.enotsup)) × (r.1 ≡ w)

  -- But for a USB device, the RS485 mode was set, or is not supported.
  abbrev pub SetsMode : ℕ → Bool → W → W → Type 0
  SetsMode fd true w w' = w ≡ w'
  SetsMode fd false w w' =
      let r = sys.set_rs485 fd sys.rs485_flags w in
      ((r.0 ≡ true) ⊎ (px.errno_of r.1 ≡ sys.enotsup) ⊎ (px.errno_of r.1 ≡ sys.enotty)) × (r.1 ≡ w')

  -- The first opening has registered the cleanup.
  abbrev pub Registers : Bool → W → W → Type 0
  Registers true w w' = Done (sys.atexit w) w'
  Registers false w w' = w ≡ w'

  pub must-Done : (r : Bool × W) (w : W) → must px sys r ≡ ok w → Done r w
  unfolding must
  must-Done (done, w') w e = if-ok done errno w' w e

  pub must_if_supported-Accepted :
      (r : Bool × W) (w : W) → must_if_supported px sys r ≡ ok w → Accepted r w
  unfolding must_if_supported
  must_if_supported-Accepted (true, w') w e = (inl refl, same_value w' w e)
  must_if_supported-Accepted (false, w') w e =
      let (h, same) = if-ok (px.errno_of w' == sys.enotsup) errno w' w e in
      (inr (is_number (px.errno_of w') sys.enotsup h), same)

  pub set_rs485_mode-SetsMode :
      (fd : ℕ) (usb : Bool) (w w' : W)
      → set_rs485_mode px sys fd usb w ≡ ok w'
      → SetsMode fd usb w w'
  unfolding set_rs485_mode
  set_rs485_mode-SetsMode fd true w w' e = same_value w w' e
  set_rs485_mode-SetsMode fd false w w' e =
      let r = sys.set_rs485 fd sys.rs485_flags w in
      let sup = px.errno_of r.1 == sys.enotsup in
      let tty = px.errno_of r.1 == sys.enotty in
      let (h, same) = if-ok (r.0 || sup || tty) errno r.1 w' e in
      (
        elim (one_of (r.0 || sup) tty h) [
          | inr i ↦ inr (inr (is_number (px.errno_of r.1) sys.enotty i))
          | inl other ↦ elim (one_of r.0 sup other) [
            | inl done ↦ inl done
            | inr i ↦ inr (inl (is_number (px.errno_of r.1) sys.enotsup i))
          ]
        ],
        same,
      )

  pub register_cleanup-Registers :
      (first : Bool) (w w' : W) → register_cleanup px sys first w ≡ ok w' → Registers first w w'
  unfolding register_cleanup
  register_cleanup-Registers false w w' e = same_value w w' e
  register_cleanup-Registers true w w' e =
      if-ok (sys.atexit w).0 cleanup_not_registered (sys.atexit w).1 w' e

  pub must-Definite : (r : Bool × W) → Definite (must px sys r)
  unfolding must
  must-Definite (true, w) = tt
  must-Definite (false, w) = tt

  pub must_if_supported-Definite : (r : Bool × W) → Definite (must_if_supported px sys r)
  unfolding must_if_supported
  must_if_supported-Definite (true, w) = tt
  must_if_supported-Definite (false, w) = if-Definite (px.errno_of w == sys.enotsup) _ _ tt tt

  baud_setting-Definite : (baud : ℕ) → Definite (baud_setting px sys baud)
  unfolding baud_setting
  baud_setting-Definite baud =
      if-Definite
        (baud == 9600
          || baud == 115200
          || baud == 230400
          || baud == 1000000
          || baud == 2000000
          || baud == 3000000)
        _ _ tt tt

  flow_setting-Definite : (flow : UartFlow) (t : Termios) → Definite (flow_setting px sys flow t)
  unfolding flow_setting
  flow_setting-Definite hardware t = tt
  flow_setting-Definite software t = tt
  flow_setting-Definite no_flow t = tt
  flow_setting-Definite other_flow t = tt

  parity_setting-Definite :
      (parity : UartParity) (t : Termios) → Definite (parity_setting px sys parity t)
  unfolding parity_setting
  parity_setting-Definite no_parity t = tt
  parity_setting-Definite odd t = tt
  parity_setting-Definite even t = tt
  parity_setting-Definite other_parity t = tt

  pub settings-Definite :
      (baud : ℕ) (flow : UartFlow) (parity : UartParity)
      → Definite (settings px sys baud flow parity)
  unfolding settings
  settings-Definite baud flow parity =
      after (baud_setting px sys baud) _ (λ _. Unit) (baud_setting-Definite baud)
        λ speed _.
          after (flow_setting px sys flow _) _ (λ _. Unit) (flow_setting-Definite flow _)
            λ t _.
              after (parity_setting px sys parity t) _ (λ _. Unit)
                (parity_setting-Definite parity t)
                λ t _.
                  after (require (sys.cfsetospeed _ speed) _) _ (λ _. Unit)
                    (require-Definite (sys.cfsetospeed _ speed) _)
                    λ t _. require-Definite (sys.cfsetispeed t speed) _

  pub set_rs485_mode-Definite :
      (fd : ℕ) (usb : Bool) (w : W) → Definite (set_rs485_mode px sys fd usb w)
  unfolding set_rs485_mode
  set_rs485_mode-Definite fd true w = tt
  set_rs485_mode-Definite fd false w =
      let (done, w) = sys.set_rs485 fd sys.rs485_flags w in
      if-Definite (done || px.errno_of w == sys.enotsup || px.errno_of w == sys.enotty) _ _ tt tt

  pub register_cleanup-Definite :
      (first : Bool) (w : W) → Definite (register_cleanup px sys first w)
  unfolding register_cleanup
  register_cleanup-Definite false w = tt
  register_cleanup-Definite true w = if-Definite (sys.atexit w).0 _ _ tt tt
