-- ===== src/Cli/Handles/Debug.antt =====
-- The subcommands of `target` and of `programmer` leave as many devices open as there were
-- (src/main.c).
use libopenwch_tools.Prelude.{
  ℕ, ◌+◌, ◌-◌, ◌≡◌, refl, ap, ◌∙◌, Option, none, some, List, [], ◌∷◌, arith, codes,
}
use libopenwch_tools.Status.{no_device}
use libopenwch_tools.Status.Preserves.{
  Preserves, preserves, bind-Preserves, then-Preserves, pure-Preserves, fail-Preserves,
}
use libopenwch_tools.Usb.{Info}
use libopenwch_tools.Usb.Bus.{
  Code, done, failed, Libusb, Host, UsbLink, scan, open_link, close_link,
}
use libopenwch_tools.Usb.Bus.Handles.{
  Gains, IsCounted, scan-handles, open_link-Gains, close_link-handles,
}
use libopenwch_tools.Usb.Wire.{usb_transport}
use libopenwch_tools.Usb.Wire.Handles.{IsHolding}
use libopenwch_tools.Programmer.{linked}
use libopenwch_tools.Programmer.Closing.{Points, usb-IsKeeping}
use libopenwch_tools.Programmer.Handles.{
  programmer_find-held, programmer_switch_rv-held, programmer_eject_iap-held,
}
use libopenwch_tools.Linke.Control.{get_version, attach_transport}
use libopenwch_tools.Linke.Program.{dmi}
use libopenwch_tools.Linke.Preserves.{
  halt-Preserves, resume-Preserves, reset-Preserves, get_version-Preserves, dmi-IsKept,
}
use libopenwch_tools.Dm.Preserves.{IsKept, pc_read-Preserves, read32-Preserves, write32-Preserves}
use libopenwch_tools.Cli.{Options, Strtoul}
use libopenwch_tools.Cli.Tool.{Tool, Printed, programmer}
use libopenwch_tools.Cli.Debug.{
  first_number, second_number, target_halt, target_resume, target_reset, target_pc, target_regs,
  target_read32, target_write32, subcommand, target,
}
use libopenwch_tools.Cli.Programmers.{
  max_programmers, print_list, print_found, print_version_over, print_version_of, print_version,
  programmer_info, list_scanned, programmer_list, programmer_rv, programmer_iap, programmer_sub,
  programmer_command,
}
use libopenwch_tools.Cli.Handles.{
  Under, put-Preserves, quietly-Preserves, or_usage-Preserves, Balances, during-Balances,
  keeping-Balances, debugging-Balances,
}
use libopenwch_tools.Cli.Handles.Bodies.{print_regs-Preserves}

module _ {W D H : Type 0} {U : Libusb W D H} {handles : W → ℕ} (counted : IsCounted U handles) where
  -- So many devices are open.
  abbrev Are : ℕ → Host W → Type 0
  Are n h = handles h.world ≡ n

  abbrev registers :
      (link : UsbLink H) (n : ℕ) → IsKept (IsHolding counted link n) (dmi (usb_transport U))
  registers link n = dmi-IsKept (usb-IsKeeping counted link n)

  module _ (strtoul : List ℕ → Strtoul) where
    target_halt-Balances : (opts : Options) → Balances counted (target_halt U strtoul opts)
    unfolding target_halt
    target_halt-Balances opts =
        keeping-Balances counted opts.serial _
          (λ link n. quietly-Preserves (halt-Preserves (usb-IsKeeping counted link n)))

    target_resume-Balances : (opts : Options) → Balances counted (target_resume U strtoul opts)
    unfolding target_resume
    target_resume-Balances opts =
        during-Balances counted opts.serial _
          (λ link n. quietly-Preserves (resume-Preserves (usb-IsKeeping counted link n)))

    target_reset-Balances : (opts : Options) → Balances counted (target_reset U strtoul opts)
    unfolding target_reset
    target_reset-Balances opts =
        during-Balances counted opts.serial _
          (λ link n. quietly-Preserves (reset-Preserves (usb-IsKeeping counted link n)))

    target_pc-Balances : (opts : Options) → Balances counted (target_pc U strtoul opts)
    unfolding target_pc
    target_pc-Balances opts n =
        bind-Preserves
          (debugging-Balances counted opts _
            (λ c link n. quietly-Preserves (pc_read-Preserves (registers link n))) n)
          (λ pc. put-Preserves (Are n) _)

    target_regs-Balances : (opts : Options) → Balances counted (target_regs U strtoul opts)
    unfolding target_regs
    target_regs-Balances opts =
        debugging-Balances counted opts _ (λ c link n. print_regs-Preserves (registers link n) c)

    target_read32-Balances : (opts : Options) → Balances counted (target_read32 U strtoul opts)
    unfolding target_read32
    target_read32-Balances opts n =
        bind-Preserves (or_usage-Preserves (first_number strtoul opts.extra)) (λ address.
          bind-Preserves
            (debugging-Balances counted opts _
              (λ c link n. quietly-Preserves (read32-Preserves (registers link n) address)) n)
            (λ value. put-Preserves (Are n) _))

    target_write32-Balances : (opts : Options) → Balances counted (target_write32 U strtoul opts)
    unfolding target_write32
    target_write32-Balances opts n =
        bind-Preserves (or_usage-Preserves (first_number strtoul opts.extra)) (λ address.
          bind-Preserves (or_usage-Preserves (second_number strtoul opts.extra)) (λ value.
            then-Preserves
              (debugging-Balances counted opts _
                (λ c link n. quietly-Preserves (write32-Preserves (registers link n) address value))
                n)
              (put-Preserves (Are n) _)))

    subcommand-Balances :
        (sub : List ℕ) (opts : Options) → Balances counted (subcommand U strtoul sub opts)
    unfolding subcommand
    subcommand-Balances sub opts n =
        search
          (
            preserves, target_halt-Balances, target_resume-Balances, target_reset-Balances,
            target_pc-Balances, target_regs-Balances, target_read32-Balances,
            target_write32-Balances,
          )
          depth 12

    pub target-Balances : (opts : Options) → Balances counted (target U strtoul opts)
    unfolding target
    target-Balances opts n =
        bind-Preserves (or_usage-Preserves opts.file) (λ sub. subcommand-Balances sub opts n)

  print_list-Preserves :
      (n i : ℕ) (infos : List Info) → Preserves (Under (Are n)) (print_list i infos)
  unfolding print_list
  print_list-Preserves n i [] = pure-Preserves tt
  print_list-Preserves n i (info ∷ infos) =
      then-Preserves (put-Preserves (Are n) _)
        (then-Preserves (put-Preserves (Are n) _) (print_list-Preserves n (i + 1) infos))

  print_found-Preserves :
      (n : ℕ) (infos : List Info) → Preserves (Under (Are n)) (print_found infos)
  unfolding print_found
  print_found-Preserves n [] = fail-Preserves no_device
  print_found-Preserves n (info ∷ infos) =
      then-Preserves (put-Preserves (Are n) _) (print_list-Preserves n 1 (info ∷ infos))

  list_scanned-held :
      (p : Code (List Info) × Host W) (out : List Printed)
      → handles (list_scanned U p out).1.0.world ≡ handles p.1.world
  unfolding list_scanned
  list_scanned-held (failed e, h) out = refl
  list_scanned-held (done infos, h) out =
      (print_found-Preserves (handles h.world) infos).run (h, out) refl

  programmer_list-Balances : Balances counted (programmer_list U)
  unfolding programmer_list
  programmer_list-Balances n = record {
    run = λ t e.
        list_scanned-held (scan U max_programmers t.0) t.1
        ∙ scan-handles counted max_programmers t.0
        ∙ e;
  }

  print_version_over-held :
      (h : Host W) (link : UsbLink H) (t : Tool U)
      → handles (print_version_over U h (linked U link h.world) t).1.0.world ≡ handles h.world - 1
  unfolding print_version_over attach_transport
  print_version_over-held h link (h₁, out) =
      let kept = usb-IsKeeping counted link (handles h.world) in
      let l = (get_version (usb_transport U) 64 (linked U link h.world)).1 in
      let s : Points counted link (handles h.world) l.world =
        (get_version-Preserves kept 64).run (linked U link h.world) (refl, refl) in
      ap (λ o. handles (close_link U o l.world.1)) s.0
      ∙ close_link-handles counted link l.world.1
      ∙ ap (λ (m : ℕ). m - 1) s.1

  print_version_of-held :
      (p : Code (UsbLink H) × Host W) (t : Tool U) (n : ℕ)
      → Gains (λ (h : Host W). handles h.world) p n
      → handles (print_version_of U p t).1.0.world ≡ n
  unfolding print_version_of
  print_version_of-held (failed e, h) (h₀, out) n g = g
  print_version_of-held (done link, h) t n g = print_version_over-held h link t ∙ omega (arith, g)

  print_version-Balances : (info : Info) → Balances counted (print_version U info)
  unfolding print_version
  print_version-Balances info n = record {
    run = λ t e.
        print_version_of-held (open_link U info t.0) (t.0, t.1) (handles t.0.world)
          (open_link-Gains counted info t.0)
        ∙ e;
  }

  -- A call on the host that leaves as many devices open as there were.
  host-Preserves :
      {A : Type 0} (m : Host W → A × Host W)
      → ((h : Host W) → handles (m h).1.world ≡ handles h.world)
      → (n : ℕ) → Preserves (Are n) m
  host-Preserves m k n = record { run = λ h e. k h ∙ e }

  programmer_info-Balances : (opts : Options) → Balances counted (programmer_info U opts)
  unfolding programmer_info
  programmer_info-Balances opts n =
      bind-Preserves
        (quietly-Preserves (host-Preserves _ (programmer_find-held counted opts.serial) n))
        (λ info.
          then-Preserves (put-Preserves (Are n) (programmer info)) (print_version-Balances info n))

  programmer_rv-Balances : (opts : Options) → Balances counted (programmer_rv U opts)
  unfolding programmer_rv
  programmer_rv-Balances opts n =
      bind-Preserves
        (quietly-Preserves (host-Preserves _ (programmer_switch_rv-held counted opts.serial) n))
        (λ info. put-Preserves (Are n) (programmer info))

  programmer_iap-Balances : (opts : Options) → Balances counted (programmer_iap U opts)
  unfolding programmer_iap
  programmer_iap-Balances opts n =
      bind-Preserves
        (quietly-Preserves (host-Preserves _ (programmer_eject_iap-held counted opts.serial) n))
        (λ info. put-Preserves (Are n) (programmer info))

  programmer_sub-Balances :
      (sub : List ℕ) (opts : Options) → Balances counted (programmer_sub U sub opts)
  unfolding programmer_sub
  programmer_sub-Balances sub opts n =
      search
        (
          preserves, programmer_info-Balances, programmer_list-Balances, programmer_rv-Balances,
          programmer_iap-Balances,
        )
        depth 9

  pub programmer_command-Balances :
      (o : Option (List ℕ)) (opts : Options) → Balances counted (programmer_command U o opts)
  unfolding programmer_command
  programmer_command-Balances none opts = programmer_sub-Balances (codes "info") opts
  programmer_command-Balances (some sub) opts = programmer_sub-Balances sub opts
