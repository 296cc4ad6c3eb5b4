-- ===== src/Linke/Preserves.antt =====
-- The calls of src/linke.c keep what each request keeps of the world behind the transport.
use libopenwch_tools.Prelude.{
  ℕ, Bool, true, false, Option, none, some, List, ◌==◌, ◌&&◌, Bool-cases, inl, inr, if◌then◌else◌,
}
use libopenwch_tools.Status.{Action, Result, ok, err, ⊤, ◌>>◌}
use libopenwch_tools.Status.Preserves.{Preserves, preserves}
use libopenwch_tools.Target.{Chip}
use libopenwch_tools.Dm.Preserves.{IsKept, read_block-Preserves}
use libopenwch_tools.Flash.Preserves.{
  of_dmi-IsKeeping, flash_write-Preserves, flash_verify-Preserves,
}
use libopenwch_tools.Linke.Request.{Transport, Link, received, command, send_control}
use libopenwch_tools.Linke.Control.{halt, resume, reset, unbrick, get_version, detach}
use libopenwch_tools.Linke.Part.{
  set_interface_raw, unconfigure, known, detected, attach_and_detect, identify_chip_once,
  let_run_and_retry, or_retry, identify_chip, configure, set_interface,
}
use libopenwch_tools.Linke.Register.{answered, reg_access, dmi_read, dmi_write}
use libopenwch_tools.Linke.Program.{dmi, attach, read_memory, resume_after, write_flash}

module _ {W : Type 0} (T : Transport W) (P : W → Type 0) where
  -- A request keeps `P`.
  pub record IsKeeping : Type 0 where
    pub commands : (w : W) (request : List ℕ) (room : ℕ) → P w → P (T.command w request room).1

  -- `P` behind a programmer's record.
  abbrev pub Behind : Link W → Type 0
  Behind l = P l.world

module _ {W : Type 0} {T : Transport W} {P : W → Type 0} (kept : IsKeeping T P) where
  received-kept : (l : Link W) (p : Option (List ℕ) × W) → P p.1 → P (received T l p l).1.world
  unfolding received
  received-kept l (none, w) h = h
  received-kept l (some reply, w) h = h

  command-Preserves :
      (request : List ℕ) (room : ℕ) → Preserves (Behind T P) (command T request room)
  unfolding command
  command-Preserves request room = record {
    run = λ l p. elim (Bool-cases (l.open_ && l.attached)) [
      | inr e ↦ rw e p
      | inl e ↦ rw e (received-kept l _ (kept.commands l.world request _ p))
    ];
  }

  send_control-Preserves :
      (code argument room : ℕ) → Preserves (Behind T P) (send_control T code argument room)
  unfolding send_control
  send_control-Preserves code argument room = search (command-Preserves)

  pub halt-Preserves : Preserves (Behind T P) (halt T)
  unfolding halt
  halt-Preserves = search (preserves, send_control-Preserves)

  pub resume-Preserves : Preserves (Behind T P) (resume T)
  unfolding resume
  resume-Preserves = search (preserves, send_control-Preserves)

  pub reset-Preserves : Preserves (Behind T P) (reset T)
  unfolding reset
  reset-Preserves = search (preserves, send_control-Preserves, halt-Preserves, resume-Preserves)

  pub unbrick-Preserves : Preserves (Behind T P) (unbrick T)
  unfolding unbrick
  unbrick-Preserves = reset-Preserves

  pub get_version-Preserves : (out_len : ℕ) → Preserves (Behind T P) (get_version T out_len)
  unfolding get_version
  get_version-Preserves out_len = search (preserves, send_control-Preserves)

  either-kept : (b : Bool) (l m : Link W) → P l.world → P m.world → P (if b then l else m).world
  either-kept true l m h k = h
  either-kept false l m h k = k

  pub detach-kept : (l : Link W) → P l.world → P (detach T l).world
  unfolding detach
  detach-kept l p =
      either-kept l.open_ _ l
        (either-kept l.attached _ l ((send_control-Preserves _ _ _).run l p) p) p

  set_interface_raw-Preserves :
      (family speed : ℕ) → Preserves (Behind T P) (set_interface_raw T family speed)
  unfolding set_interface_raw
  set_interface_raw-Preserves family speed = search (preserves, command-Preserves)

  known-Preserves : (o : Option Chip) → Preserves (Behind T P) (known T o)
  unfolding known
  known-Preserves none = search (preserves)
  known-Preserves (some c) = search (preserves)

  detected-Preserves : (reply : List ℕ) → Preserves (Behind T P) (detected T reply)
  unfolding detected
  detected-Preserves reply = search (preserves, known-Preserves)

  attach_and_detect-Preserves : Preserves (Behind T P) (attach_and_detect T)
  unfolding attach_and_detect
  attach_and_detect-Preserves = search (preserves, send_control-Preserves, detected-Preserves)

  unconfigure-Preserves : Preserves (Behind T P) (unconfigure T)
  unfolding unconfigure
  unconfigure-Preserves = record { run = λ l p. p }

  identify_chip_once-Preserves : Preserves (Behind T P) (identify_chip_once T)
  unfolding identify_chip_once
  identify_chip_once-Preserves =
      search
        (preserves, set_interface_raw-Preserves, unconfigure-Preserves, attach_and_detect-Preserves)

  let_run_and_retry-Preserves : Preserves (Behind T P) (let_run_and_retry T)
  unfolding let_run_and_retry
  let_run_and_retry-Preserves =
      search (preserves, send_control-Preserves, identify_chip_once-Preserves)

  or_retry-kept : (p : Result Chip × Link W) → P p.1.world → P (or_retry T p).1.world
  unfolding or_retry
  or_retry-kept (ok c, l) h = h
  or_retry-kept (err e, l) h = let_run_and_retry-Preserves.run l h

  pub identify_chip-Preserves : Preserves (Behind T P) (identify_chip T)
  unfolding identify_chip
  identify_chip-Preserves = record {
    run = λ l p. or_retry-kept (identify_chip_once T l) (identify_chip_once-Preserves.run l p);
  }

  configure-Preserves : (c : Chip) → Preserves (Behind T P) (configure T c)
  unfolding configure
  configure-Preserves c = record { run = λ l p. p }

  selected-Preserves :
      (c : Chip)
      → Preserves (Behind T P) (do set_interface_raw T c.linke_id c.interface_speed; configure T c)
  selected-Preserves c = search (preserves, set_interface_raw-Preserves, configure-Preserves)

  pub set_interface-Preserves : (c : Chip) → Preserves (Behind T P) (set_interface T c)
  unfolding set_interface
  set_interface-Preserves c = record {
    run = λ l p. elim (Bool-cases (l.configured && (l.chip_id == c.linke_id))) [
      | inl e ↦ rw e p
      | inr e ↦ rw e ((selected-Preserves c).run l p)
    ];
  }

  answered-Preserves : (reply : List ℕ) → Preserves (Behind T P) (answered T reply)
  unfolding answered
  answered-Preserves reply = search (preserves)

  reg_access-Preserves :
      (reg value operation : ℕ) → Preserves (Behind T P) (reg_access T reg value operation)
  unfolding reg_access
  reg_access-Preserves reg value operation =
      search (preserves, command-Preserves, answered-Preserves)

  -- Each register access behind the programmer.
  pub dmi-IsKept : IsKept (Behind T P) (dmi T)
  unfolding dmi_read dmi_write
  dmi-IsKept = record {
    reads = λ r. search (reg_access-Preserves);
    writes = λ r v. search (preserves, reg_access-Preserves);
  }

  attach-Preserves : (o : Option Chip) → Preserves (Behind T P) (attach T o)
  unfolding attach
  attach-Preserves none = search (preserves)
  attach-Preserves (some c) = search (preserves, set_interface-Preserves, halt-Preserves)

  pub read_memory-Preserves :
      (o : Option Chip) (address n : ℕ) → Preserves (Behind T P) (read_memory T o address n)
  unfolding read_memory
  read_memory-Preserves o address n =
      search (preserves, attach-Preserves, read_block-Preserves dmi-IsKept)

  resume_after-Preserves :
      (m : Action (Link W) ⊤) → Preserves (Behind T P) m → Preserves (Behind T P) (resume_after T m)
  unfolding resume_after
  resume_after-Preserves m h = record { run = λ l p. resume-Preserves.run (m l).1 (h.run l p) }

  pub write_flash-Preserves :
      (c : Chip) (address : ℕ) (image : List ℕ) (verify : Bool)
      → Preserves (Behind T P) (write_flash T c address image verify)
  unfolding write_flash
  write_flash-Preserves c address image verify =
      search
        (
          preserves,
          set_interface-Preserves,
          halt-Preserves,
          resume_after-Preserves,
          flash_write-Preserves (of_dmi-IsKeeping dmi-IsKept),
          flash_verify-Preserves (read_memory-Preserves (some c)),
        )
        depth 9
