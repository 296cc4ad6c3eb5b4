-- ===== src/Cli/Handles/Bodies.antt =====
-- What the commands do on an open programmer keeps what each register access keeps (src/main.c).
use libopenwch_tools.Prelude.{ℕ, zero, suc, ◌+◌, Option, none, some, List}
use libopenwch_tools.Status.{Action, ⊤}
use libopenwch_tools.Status.Preserves.{
  Preserves, preserves, bind-Preserves, then-Preserves, pure-Preserves,
}
use libopenwch_tools.Target.{Chip}
use libopenwch_tools.Dm.Command.{Dmi}
use libopenwch_tools.Dm.Preserves.{IsKept, gpr_read-Preserves, pc_read-Preserves}
use libopenwch_tools.Cli.{Options}
use libopenwch_tools.Cli.Tool.{Out}
use libopenwch_tools.Cli.Debug.{print_gprs, print_regs, gpr_count}
use libopenwch_tools.Cli.Terminal.{
  Announced, nothing, acknowledgement, text, Shown, skipped, shown, take_packet, read_packet, print,
  terminal_loop,
}
use libopenwch_tools.Cli.Command.{check_part, check_image, for_named}
use libopenwch_tools.Cli.Handles.{Under, put-Preserves, quietly-Preserves}

module _ {S : Type 0} {P : S → Type 0} {D : Dmi S} (kept : IsKept P D) where
  print_gprs-Preserves : (n reg : ℕ) → Preserves (Under P) (print_gprs D n reg)
  unfolding print_gprs
  print_gprs-Preserves zero reg = pure-Preserves tt
  print_gprs-Preserves (suc n) reg =
      bind-Preserves (quietly-Preserves (gpr_read-Preserves kept reg))
        (λ value. then-Preserves (put-Preserves P _) (print_gprs-Preserves n (reg + 1)))

  pub print_regs-Preserves : (c : Chip) → Preserves (Under P) (print_regs D c)
  unfolding print_regs
  print_regs-Preserves c =
      bind-Preserves (quietly-Preserves (pc_read-Preserves kept))
        (λ pc. then-Preserves (put-Preserves P _) (print_gprs-Preserves (gpr_count c) 0))

  take_packet-Preserves : (word0 : ℕ) (a : Announced) → Preserves P (take_packet D word0 a)
  unfolding take_packet
  take_packet-Preserves word0 nothing = search (preserves)
  take_packet-Preserves word0 acknowledgement = search (preserves, kept.writes)
  take_packet-Preserves word0 (text n) = search (preserves, kept.reads, kept.writes) depth 9

  read_packet-Preserves : Preserves P (read_packet D)
  unfolding read_packet
  read_packet-Preserves = search (preserves, kept.reads, take_packet-Preserves)

  print-Preserves :
      (writes : ℕ) (next : ℕ → Action (Out S) ⊤) (s : Shown)
      → ((n : ℕ) → Preserves (Under P) (next n))
      → Preserves (Under P) (print D writes next s)
  unfolding print
  print-Preserves writes next skipped k = k writes
  print-Preserves zero next (shown bytes) k = pure-Preserves tt
  print-Preserves (suc writes) next (shown bytes) k = then-Preserves (put-Preserves P _) (k writes)

  pub terminal_loop-Preserves :
      (rounds writes : ℕ) → Preserves (Under P) (terminal_loop D rounds writes)
  unfolding terminal_loop
  terminal_loop-Preserves zero writes = put-Preserves P _
  terminal_loop-Preserves (suc rounds) writes =
      bind-Preserves (quietly-Preserves read_packet-Preserves) (λ packet.
        print-Preserves writes (terminal_loop D rounds) packet (terminal_loop-Preserves rounds))

pub check_part-Preserves :
    {S : Type 0} {P : S → Type 0} (c : Chip) → Preserves P (check_part {S = S} c)
unfolding check_part
check_part-Preserves c = search (preserves)

pub check_image-Preserves :
    {S : Type 0} {P : S → Type 0} (opts : Options) (image : List ℕ) (c : Chip)
    → Preserves P (check_image {S = S} opts image c)
unfolding check_image
check_image-Preserves opts image c = search (preserves)

pub for_named-Preserves :
    {S : Type 0} {P : S → Type 0} (check : Chip → Action S ⊤) (o : Option Chip)
    → ((c : Chip) → Preserves P (check c))
    → Preserves P (for_named check o)
unfolding for_named
for_named-Preserves check none k = pure-Preserves tt
for_named-Preserves check (some c) k = k c
