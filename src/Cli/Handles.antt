-- ===== src/Cli/Handles.antt =====
-- The steps of a command between its opens and closes: how many devices are open (src/main.c).
pub mod Files
pub mod Bodies
pub mod Commands
pub mod Debug
pub mod Main
use libopenwch_tools.Prelude.{ℕ, suc, ◌-◌, ◌≡◌, refl, sym, ◌∙◌, Option, none, some, List, arith}
use mathlib.Core.Path.{subst}
use libopenwch_tools.Status.{Action, Result, ok, err, ⊤, ◌>>◌}
use libopenwch_tools.Status.Preserves.{Preserves, preserves, then-Preserves}
use libopenwch_tools.Target.{Chip}
use libopenwch_tools.Usb.Bus.{Libusb, Host, UsbLink}
use libopenwch_tools.Usb.Bus.Handles.{IsCounted}
use libopenwch_tools.Usb.Wire.{usb_transport}
use libopenwch_tools.Usb.Wire.Handles.{IsHolding}
use libopenwch_tools.Programmer.{Opened, linke_open, linked, linke_close, linke_close_keep_target}
use libopenwch_tools.Programmer.Handles.{Holds, linke_open-Holds}
use libopenwch_tools.Programmer.Closing.{
  Points, usb-IsKeeping, linke_close-handles, keep_target-handles,
}
use libopenwch_tools.Linke.Control.{halt, attach_transport}
use libopenwch_tools.Linke.Part.{set_interface}
use libopenwch_tools.Linke.Preserves.{
  halt-Preserves, set_interface-Preserves, identify_chip-Preserves,
}
use libopenwch_tools.Cli.{Options}
use libopenwch_tools.Cli.Tool.{
  Out, Open, Tool, Printed, put, quietly, or_usage, closed, with_link, during, keeping, in_world,
  after_halt, halted_link, open_halted, debugging, unless_known, chip_or_detected, named_chip,
  require_chip,
}

-- The same of a state with what has been printed.
abbrev pub Under : {S : Type 0} → (S → Type 0) → Out S → Type 0
Under P t = P t.0

pub put-Preserves :
    {S : Type 0} (P : S → Type 0) (p : Printed) → Preserves (Under P) (put {S = S} p)
put-Preserves P p = record { run = λ t h. h }

module _ {S : Type 0} {P : S → Type 0} where
  pub quietly-Preserves :
      {A : Type 0} {m : Action S A} → Preserves P m → Preserves (Under P) (quietly m)
  quietly-Preserves h = record { run = λ t p. h.run t.0 p }

  pub or_usage-Preserves : {A : Type 0} (o : Option A) → Preserves P (or_usage {S = S} o)
  unfolding or_usage
  or_usage-Preserves none = search (preserves)
  or_usage-Preserves (some a) = search (preserves)

  pub named_chip-Preserves : (o : Option (List ℕ)) → Preserves P (named_chip {S = S} o)
  unfolding named_chip
  named_chip-Preserves none = search (preserves)
  named_chip-Preserves (some name) = search (preserves, or_usage-Preserves)

module _ {W D H : Type 0} {U : Libusb W D H} {handles : W → ℕ} (counted : IsCounted U handles) where
  -- A call on an open programmer that leaves the device open, and no other.
  abbrev pub Stays : {A : Type 0} → Action (Out (Open U)) A → Type 0
  Stays m = (link : UsbLink H) (n : ℕ) → Preserves (Under (IsHolding counted link n)) m

  -- A call of the tool that leaves as many devices open as there were.
  abbrev pub Balances : {A : Type 0} → (Tool U → A × Tool U) → Type 0
  Balances m = (n : ℕ) → Preserves (λ (t : Tool U). handles t.0.world ≡ n) m

  closed-held :
      {A : Type 0} (close : Open U → W) (h : Host W) (p : Result A × Out (Open U))
      → handles (closed U close h p).1.0.world ≡ handles (close p.1.0)
  unfolding closed
  closed-held close h (r, (l, out)) = refl

  -- What a close of an open programmer leaves.
  Closes : (Open U → W) → Type 0
  Closes close =
      (link : UsbLink H) (n : ℕ) (l : Open U)
      → IsHolding counted link n l
      → handles (close l) ≡ n - 1

  with_link-held :
      {A : Type 0} (close : Open U → W) (body : Action (Out (Open U)) A) (out : List Printed)
      (p : Result (Opened U) × Host W) (n : ℕ)
      → Closes close
      → Stays body
      → Holds counted p n
      → handles (with_link U close body out p).1.0.world ≡ n
  unfolding with_link attach_transport Closes
  with_link-held close body out (err e, h) n closes stays held = held
  with_link-held close body out (ok (info, link), h) n closes stays held =
      let m = handles h.world in
      closed-held close h (body (linked U link h.world, out))
      ∙ closes link m _ ((stays link m).run (linked U link h.world, out) (refl, refl))
      ∙ omega (arith, held)

  pub during-Balances :
      {A : Type 0} (serial : Option (List ℕ)) (body : Action (Out (Open U)) A)
      → Stays body
      → Balances (during U serial body)
  unfolding during Closes
  during-Balances serial body stays n = record {
    run = λ t e.
        with_link-held (linke_close U) body t.1 (linke_open U serial t.0) n
          (linke_close-handles counted) stays
          (subst (λ k. Holds counted (linke_open U serial t.0) k) e
            (linke_open-Holds counted serial t.0));
  }

  pub keeping-Balances :
      {A : Type 0} (serial : Option (List ℕ)) (body : Action (Out (Open U)) A)
      → Stays body
      → Balances (keeping U serial body)
  unfolding keeping Closes
  keeping-Balances serial body stays n = record {
    run = λ t e.
        with_link-held (linke_close_keep_target U) body t.1 (linke_open U serial t.0) n
          (keep_target-handles counted) stays
          (subst (λ k. Holds counted (linke_open U serial t.0) k) e
            (linke_open-Holds counted serial t.0));
  }

  after_halt-held :
      {A : Type 0} (body : Action (Out (Open U)) A) (out : List Printed) (h : Host W)
      (p : Result ⊤ × Open U) (link : UsbLink H) (n : ℕ)
      → Stays body
      → IsHolding counted link n p.1
      → handles (after_halt U body out h p).1.0.world ≡ n - 1
  unfolding after_halt
  after_halt-held body out h (err e, l) link n stays s = linke_close-handles counted link n l s
  after_halt-held body out h (ok x, l) link n stays s =
      closed-held (linke_close_keep_target U) h (body (l, out))
      ∙ keep_target-handles counted link n _ ((stays link n).run (l, out) s)

  halted-Preserves :
      (c : Chip) (link : UsbLink H) (n : ℕ)
      → Preserves
          (IsHolding counted link n)
          (do set_interface (usb_transport U) c; halt (usb_transport U))
  halted-Preserves c link n =
      let kept = usb-IsKeeping counted link n in
      then-Preserves (set_interface-Preserves kept c) (halt-Preserves kept)

  halted_link-held :
      {A : Type 0} (c : Chip) (body : Action (Out (Open U)) A) (out : List Printed)
      (p : Result (Opened U) × Host W) (n : ℕ)
      → Stays body
      → Holds counted p n
      → handles (halted_link U c body out p).1.0.world ≡ n
  unfolding halted_link attach_transport
  halted_link-held c body out (err e, h) n stays held = held
  halted_link-held c body out (ok (info, link), h) n stays held =
      let m = handles h.world in
      after_halt-held body out h _ link m stays
        ((halted-Preserves c link m).run (linked U link h.world) (refl, refl))
      ∙ omega (arith, held)

  open_halted-Balances :
      {A : Type 0} (serial : Option (List ℕ)) (body : Chip → Action (Out (Open U)) A) (c : Chip)
      → ((c : Chip) → Stays (body c))
      → Balances (open_halted U serial body c)
  unfolding open_halted
  open_halted-Balances serial body c stays n = record {
    run = λ t e. halted_link-held c (body c) t.1 (linke_open U serial t.0) n (stays c) (
        subst (λ k. Holds counted (linke_open U serial t.0) k) e
          (linke_open-Holds counted serial t.0));
  }

  pub debugging-Balances :
      {A : Type 0} (opts : Options) (body : Chip → Action (Out (Open U)) A)
      → ((c : Chip) → Stays (body c))
      → Balances (debugging U opts body)
  unfolding debugging
  debugging-Balances opts body stays n =
      let rest : (c : Chip)
          → Preserves (λ (t : Tool U). handles t.0.world ≡ n) (open_halted U opts.serial body c) =
        λ c. open_halted-Balances opts.serial body c stays n in
      search (preserves, or_usage-Preserves, rest)

  pub in_world-Balances :
      {A : Type 0} (m : Action W A)
      → ((w : W) → handles (m w).1 ≡ handles w)
      → Balances (in_world U m)
  unfolding in_world
  in_world-Balances m k n = record { run = λ t e. k t.0.world ∙ e }

  pub chip_or_detected-Stays : (o : Option Chip) → Stays (chip_or_detected U o)
  unfolding chip_or_detected unless_known
  chip_or_detected-Stays none link n =
      quietly-Preserves (identify_chip-Preserves (usb-IsKeeping counted link n))
  chip_or_detected-Stays (some c) link n = search (preserves, quietly-Preserves)
