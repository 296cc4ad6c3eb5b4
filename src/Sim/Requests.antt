-- ===== src/Sim/Requests.antt =====
-- The requests of src/linke.c to the simulated programmer, and what they leave of the flash of its
-- target (tests/sim_programmer.c).
use libopenwch_tools.Prelude.{
  ℕ, ◌≡◌, refl, sym, ap, ◌∙◌, true, false, Option, some, List, [], ◌∷◌, ◌==◌, if◌then◌else◌, arith,
}
use mathlib.Core.Path.{subst}
use libopenwch_tools.Status.{Action, ok, ⊤, pure, go_on, ◌>>◌}
use libopenwch_tools.Status.Simulates.{
  Follows, Simulates, Any, Through, compose-Simulates, pure-Follows, weaken-Simulates,
}
use libopenwch_tools.Dm.Related.{read32-Alike, write32-Alike, read_sized-Alike}
use libopenwch_tools.Dm.Memory.{read_sized, read_block}
use libopenwch_tools.Dm.Memory.Alike.{read_block_by-Alike}
use libopenwch_tools.Linke.Request.{Link, IsUp, command, command_up, reply_max, send_control}
use libopenwch_tools.Linke.Control.{halt, resume}
use libopenwch_tools.Linke.Program.{dmi}
use libopenwch_tools.Flash.Access.{of_dmi}
use libopenwch_tools.Flash.Ch32v0.Alike.{IsAlike}
use libopenwch_tools.Sim.{Sim, access}
use libopenwch_tools.Sim.Core.{core_dmi}
use libopenwch_tools.Sim.Core.Access.{Shows, core-IsAlike, Clear-lt}
use libopenwch_tools.Sim.Packets.{Programmer, sim_transport, control}
use libopenwch_tools.Sim.Packets as Packets
use libopenwch_tools.Sim.Registers.{Reaches, packets-Related}

-- The flash and its controller as they stand behind an open programmer with its part selected.
abbrev pub Behind : Link Programmer → Sim → Type 0
Behind = Through Reaches Shows

pub link-IsAlike : IsAlike Behind (of_dmi (dmi sim_transport)) access
unfolding read_block
link-IsAlike = record {
  reads = λ a clear.
      compose-Simulates Reaches Shows
        (weaken-Simulates Reaches (read32-Alike packets-Related a (Clear-lt a clear)))
        (core-IsAlike.reads a clear);
  writes = λ a v clear small.
      compose-Simulates Reaches Shows (write32-Alike packets-Related a v (Clear-lt a clear) small)
        (core-IsAlike.writes a v clear small);
  blocks = λ a n h.
      compose-Simulates Reaches Shows
        (read_block_by-Alike Reaches (read_sized (dmi sim_transport)) (read_sized core_dmi)
          0x1000_0000 (omega arith)
          (λ size b s l.
            weaken-Simulates Reaches (read_sized-Alike packets-Related size b s (omega arith)))
          n a h)
        (core-IsAlike.blocks a n h);
}

-- An open programmer in front of a core whose flash and controller are the given ones; the tool's
-- record and the programmer agree on whether the part is selected.
pub record Ready (l : Link Programmer) (s : Sim) : Type 0 where
  pub shows : Shows l.world.core s
  pub up : IsUp l
  pub agrees : l.configured ≡ true → l.world.configured ≡ true

pub Behind-Ready : (l : Link Programmer) (s : Sim) → Behind l s → Ready l s
Behind-Ready l s b = record {
  shows = subst (λ c. Shows c s) (sym (b.1.core)) b.2;
  up = b.1.up;
  agrees = λ e. b.1.configured;
}

-- A control request is answered, and changes neither the core nor the selection.
control-keeps :
    (sub : ℕ) (p : Programmer)
    → ((control sub p).1.core ≡ p.core) × ((control sub p).1.configured ≡ p.configured)
unfolding control
control-keeps sub p = ground arith

-- The request goes out and is answered.
pub request_lem :
    (l : Link Programmer) (request : List ℕ) (room : ℕ) (reply : List ℕ) (p : Programmer)
    → IsUp l
    → Packets.command l.world request (if room == 0 then reply_max else room) ≡ (some reply, p)
    → command sim_transport request room l ≡ (ok reply, record l { world = p })
request_lem l request room reply p up e =
    command_up sim_transport request room l reply up
      (ap (λ (q : Option (List ℕ) × Programmer). q.0) e)
    ∙ ap (λ (q : Option (List ℕ) × Programmer). (ok reply, record l { world = q.1 })) e

-- A call that succeeds and leaves the flash and its controller as they were.
abbrev Keeps : {A : Type 0} → Action (Link Programmer) A → Type 0
Keeps {A} m =
    (l : Link Programmer) (s : Sim)
    → Behind l s
    → (a : A) × (l' : Link Programmer) × (m l ≡ (ok a, l')) × Behind l' s

then-Keeps :
    {A B : Type 0} (m : Action (Link Programmer) A) (n : Action (Link Programmer) B)
    → Keeps m
    → Keeps n
    → Keeps (m >> n)
then-Keeps m n h k l s b =
    let x = h l s b in let y = k x.1 s x.3 in (y.0, y.1, ap (go_on (λ _. n)) x.2 ∙ y.2, y.3)

control-Keeps : (sub room : ℕ) → Keeps (send_control sim_transport 0x0d sub room)
unfolding send_control Packets.command Packets.answered Packets.some_reply
control-Keeps sub room l s b =
    let p = l.world in
    let k = control-keeps sub p in
    (
      (control sub p).0,
      record l { world = (control sub p).1 },
      request_lem l (0x81 ∷ 0x0d ∷ 0x01 ∷ sub ∷ []) room (control sub p).0 (control sub p).1 b.1.up
          refl,
      (b.0, record { core = k.0 ∙ b.1.core; configured = k.1 ∙ b.1.configured; up = b.1.up }, b.2),
    )

run-Keeps : (sub room : ℕ) → Keeps (send_control sim_transport 0x0b sub room)
unfolding send_control Packets.command Packets.answered Packets.some_reply
run-Keeps sub room l s b = (
  0x82 ∷ 0x0b ∷ 0x01 ∷ [],
  record l { world = record (l.world) { attached = false } },
  request_lem l (0x81 ∷ 0x0b ∷ 0x01 ∷ sub ∷ []) room _ _ b.1.up refl,
  (b.0, record { core = b.1.core; configured = b.1.configured; up = b.1.up }, b.2),
)

done-Keeps : Keeps (pure tt)
done-Keeps l s b = (tt, l, refl, b)

Keeps-Simulates :
    (m : Action (Link Programmer) ⊤) → Keeps m → Simulates Behind (Any Behind) m (pure tt)
Keeps-Simulates m k = record {
  run = λ l s b.
      let x = k l s b in
      subst (λ q. Follows Behind (Any Behind) q (ok tt, s)) (sym x.2)
        (pure-Follows Behind tt x.1 s tt x.3);
}

pub halt-Simulates : Simulates Behind (Any Behind) (halt sim_transport) (pure tt)
unfolding halt
halt-Simulates = Keeps-Simulates _ (then-Keeps _ _ (control-Keeps 0x02 0) done-Keeps)

pub resume-Simulates : Simulates Behind (Any Behind) (resume sim_transport) (pure tt)
unfolding resume
resume-Simulates = Keeps-Simulates _ (
    then-Keeps _ _ (run-Keeps 0x01 reply_max) (
      then-Keeps _ _ (control-Keeps 0x02 reply_max)
        (then-Keeps _ _ (control-Keeps 0xff reply_max) done-Keeps)))
