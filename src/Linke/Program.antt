-- ===== src/Linke/Program.antt =====
-- Reading memory and writing flash with a programmer (src/linke.c): where the layers meet.
use libopenwch_tools.Prelude.{ℕ, Bool, Option, none, some, List, if◌then◌else◌}
use libopenwch_tools.Status.{Action, ⊤, pure, ◌>>◌}
use libopenwch_tools.Target.{Chip}
use libopenwch_tools.Linke.Request.{Transport, Link}
use libopenwch_tools.Linke.Control.{halt, resume}
use libopenwch_tools.Linke.Part.{set_interface}
use libopenwch_tools.Linke.Register.{dmi_read, dmi_write}
use libopenwch_tools.Dm.Command.{Dmi}
use libopenwch_tools.Dm.Memory.{read_block}
use libopenwch_tools.Flash.Access.{of_dmi}
use libopenwch_tools.Flash.Image.{flash_write, flash_verify}

module _ {W : Type 0} (T : Transport W) where
  -- The debug-module registers behind a programmer.
  abbrev pub dmi : Dmi (Link W)
  dmi = record { read = dmi_read T; write = dmi_write T }

  unfoldable pub attach : Option Chip → Action (Link W) ⊤
  attach none = pure tt
  attach (some c) = do set_interface T c; halt T

  -- `wl_linke_read_memory`
  unfoldable pub read_memory : Option Chip → ℕ → ℕ → Action (Link W) (List ℕ)
  unfolding attach
  read_memory c address length = do attach c; read_block dmi address length

  -- The status that `wl_linke_write_flash` returns, and then the target runs.
  unfoldable pub resume_after : Action (Link W) ⊤ → Action (Link W) ⊤
  resume_after m l = let (r, l') = m l in (r, (resume T l').1)

  -- `wl_linke_write_flash`
  unfoldable pub write_flash : Chip → ℕ → List ℕ → Bool → Action (Link W) ⊤
  unfolding resume_after
  write_flash c address image verify = do
    set_interface T c
    halt T
    flash_write (of_dmi dmi) c address image
    resume_after (if verify then flash_verify (read_memory (some c)) c address image else pure tt)
