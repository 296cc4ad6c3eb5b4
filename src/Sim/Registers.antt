-- ===== src/Sim/Registers.antt =====
-- Register access through the programmer's packets (src/linke.c) is register access of the simulated
-- debug module (tests/sim_programmer.c).
use libopenwch_tools.Prelude.{ℕ, ◌^◌, ◌<◌, ◌≡◌, refl, sym, ap, ◌∙◌, true, Option, some, arith, List}
use mathlib.Core.Path.{subst}
use libopenwch_tools.Status.{ok, go_on, pure}
use libopenwch_tools.Status.Simulates.{Follows, Any, pure-Follows}
use libopenwch_tools.Dm.Related.{Related, Word}
use libopenwch_tools.Linke.Request.{Link, IsUp, reply_max, command_up}
use libopenwch_tools.Linke.Register.{
  reg_request, reg_value, reg_access, dmi_read, dmi_write, reg_op_read, reg_op_write, answered,
}
use libopenwch_tools.Linke.Register.File.{reg_value-reg_request, reg_reply, answered_lem}
use libopenwch_tools.Linke.Program.{dmi}
use libopenwch_tools.Sim.Core.{Core, core_dmi}
use libopenwch_tools.Sim.Core as Core
use libopenwch_tools.Sim.Packets.{
  Programmer, sim_transport, command, register, register_reply, request_value, some_reply,
}

-- The programmer can be asked, has its part selected, and has this core behind it.
pub record Reaches (l : Link Programmer) (c : Core) : Type 0 where
  pub core : l.world.core ≡ c
  pub configured : l.world.configured ≡ true
  pub up : IsUp l

dmi_read-Word : (reg : ℕ) (c : Core) → Core.dmi_read reg c < 2 ^ 32
unfolding Core.dmi_read
dmi_read-Word reg c = ground arith

selected : (p : Programmer) → p.configured ≡ true → p ≡ record p { configured = true }
selected p e = λ i. record p { configured = e i }

read_command :
    (p : Programmer) (reg : ℕ)
    → command (record p { configured = true }) (reg_request reg 0 reg_op_read) reply_max
      ≡ (some (reg_reply reg (Core.dmi_read reg p.core)), record p { configured = true })
unfolding command reg_request register register_reply
read_command p reg = refl

write_command :
    (p : Programmer) (reg value : ℕ)
    → value < 2 ^ 32
    → command (record p { configured = true }) (reg_request reg value reg_op_write) reply_max ≡ (
      some (reg_reply reg (Core.dmi_read reg (Core.dmi_write reg value p.core))),
      record p { configured = true; core = Core.dmi_write reg value p.core },
    )
unfolding command reg_request register register_reply request_value reg_value
write_command p reg value fits =
    let v = reg_value-reg_request reg value reg_op_write fits in
    ap
      (λ (n : ℕ).
        some_reply (register reply_max reg n reg_op_write (record p { configured = true })))
      v

module _ (l : Link Programmer) (reg : ℕ) (h : IsUp l) (configured : l.world.configured ≡ true) where
  abbrev after : Programmer → Link Programmer
  after p = record l { world = p }

  -- A request for the register that the programmer answers with the register's value.
  access_lem :
      (value sent operation : ℕ) (p : Programmer)
      → value < 2 ^ 32
      → command l.world (reg_request reg sent operation) reply_max ≡ (some (reg_reply reg value), p)
      → reg_access sim_transport reg sent operation l ≡ (ok value, after p)
  unfolding reg_access
  access_lem value sent operation p fits e =
      ap (go_on (answered sim_transport)) (
        command_up sim_transport (reg_request reg sent operation) reply_max l (reg_reply reg value)
          h (ap (λ (q : Option (List ℕ) × Programmer). q.0) e)
        ∙ ap (λ (q : Option (List ℕ) × Programmer). (ok (reg_reply reg value), after q.1)) e)
      ∙ answered_lem sim_transport (after p) reg value fits

  read_lem :
      dmi_read sim_transport reg l
      ≡ (ok (Core.dmi_read reg l.world.core), after (record (l.world) { configured = true }))
  unfolding dmi_read
  read_lem =
      access_lem (Core.dmi_read reg l.world.core) 0 reg_op_read _ (dmi_read-Word reg l.world.core) (
        ap (λ p. command p (reg_request reg 0 reg_op_read) reply_max) (selected l.world configured)
        ∙ read_command l.world reg)

  write_lem :
      (value : ℕ)
      → value < 2 ^ 32
      → dmi_write sim_transport reg value l ≡ (
        ok tt,
        after
            (record (l.world) { configured = true; core = Core.dmi_write reg value l.world.core }),
      )
  unfolding dmi_write
  write_lem value fits = ap (go_on {A = ℕ} (λ _. pure tt)) (
      access_lem (Core.dmi_read reg (Core.dmi_write reg value l.world.core)) value reg_op_write _
        (dmi_read-Word reg (Core.dmi_write reg value l.world.core))
        (ap (λ p. command p (reg_request reg value reg_op_write) reply_max)
            (selected l.world configured)
          ∙ write_command l.world reg value fits))

-- Over an open link to a programmer whose part is selected, a write of a register is one write of it
-- in the debug module, with all 32 bits of the value, and a read gives the debug module's value and
-- changes nothing, whatever the register, also where it does not read back what was written.
pub dmi_write-dmi_read :
    (l : Link Programmer) (reg value : ℕ)
    → IsUp l
    → l.world.configured ≡ true
    → value < 2 ^ 32
    → (dmi_write sim_transport reg value l ≡ (
      ok tt,
      record l { world = record (l.world) { core = Core.dmi_write reg value l.world.core } },
    ))
      × (dmi_read sim_transport reg l ≡ (ok (Core.dmi_read reg l.world.core), l))
dmi_write-dmi_read l reg value up configured fits = (
  write_lem l reg up configured value fits
      ∙ ap
          (λ (p : Programmer). (
            ok tt,
            after l reg up configured (record p { core = Core.dmi_write reg value l.world.core }),
          ))
          (sym (selected l.world configured)),
  read_lem l reg up configured
      ∙ ap (λ p. (ok (Core.dmi_read reg l.world.core), after l reg up configured p))
          (sym (selected l.world configured)),
)

-- Every register access over the packets is one access of the debug module, whatever the register
-- and the value of 32 bits.
pub packets-Related : Related Reaches (dmi sim_transport) core_dmi
packets-Related = record {
  reads = λ reg. record {
    run = λ l c h.
        let e = read_lem l reg h.up h.configured ∙ (λ i. (
          ok (Core.dmi_read reg (h.core i)),
          after l reg h.up h.configured (record (l.world) { configured = true }),
        )) in
        subst (λ q. Follows Reaches Word q (ok (Core.dmi_read reg c), c)) (sym e)
          (pure-Follows Reaches (Core.dmi_read reg c) _ c (dmi_read-Word reg c)
            (record { core = h.core; configured = refl; up = h.up }));
  };
  writes = λ reg value fits. record {
    run = λ l c h.
        subst (λ q. Follows Reaches (Any Reaches) q (ok tt, Core.dmi_write reg value c))
          (sym (write_lem l reg h.up h.configured value fits))
          (pure-Follows Reaches tt _ (Core.dmi_write reg value c) tt
            (record { core = ap (Core.dmi_write reg value) h.core; configured = refl; up = h.up }));
  };
}
