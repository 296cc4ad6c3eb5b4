-- ===== src/Sim/Programming.antt =====
-- `wl_linke_write_flash` (src/linke.c), down to the flash of the simulated target behind the
-- simulated programmer (tests/sim_programmer.c).
use libopenwch_tools.Prelude.{
  ℕ, ◌+◌, ◌^◌, ◌%◌, ◌<◌, ◌≤◌, ◌≡◌, refl, sym, ap, ◌∙◌, ◌&&◌, Bool, true, false, inl, inr, some,
  List, [], ◌∷◌, ◌==◌, length, if◌then◌else◌, All, arith, Bool-cases,
}
use mathlib.Core.Path.{subst}
use libopenwch_tools.Status.{Action, Result, ok, ⊤, pure, fail, target, go_on, ◌>>◌}
use libopenwch_tools.Status.Simulates.{
  Follows, Simulates, Any, pure-Simulates, pure-Follows, go_on-Follows, then-Simulates,
  weaken-Simulates,
}
use libopenwch_tools.Target.{Chip, ch32v0}
use libopenwch_tools.Dm.Memory.{read_block}
use libopenwch_tools.Dm.Memory.Alike.{Bytes}
use libopenwch_tools.Linke.Request.{Link, IsUp, reply_max, reply_ok}
use libopenwch_tools.Linke.Part.{set_interface, set_interface_raw, configure}
use libopenwch_tools.Linke.Program.{dmi, attach, read_memory, write_flash, resume_after}
use libopenwch_tools.Flash.Range.{normalise, range_ok}
use libopenwch_tools.Flash.Image.{flash_write, flash_verify}
use libopenwch_tools.Flash.Image.Alike.{flash_write-Alike, flash_verify-Alike}
use libopenwch_tools.Flash.Image.Program.{IsPlaced, read_sim, flash_write-image, range_lem}
use libopenwch_tools.Sim.{Sim, access}
use libopenwch_tools.Sim.Core.{Core}
use libopenwch_tools.Sim.Packets.{Programmer, sim_transport, control}
use libopenwch_tools.Sim.Packets as Packets
use libopenwch_tools.Sim.Requests.{
  Behind, Ready, link-IsAlike, Behind-Ready, request_lem, halt-Simulates, resume-Simulates,
}

-- The part is selected where it was not.
raw_lem :
    (family speed : ℕ) (l : Link Programmer)
    → IsUp l
    → set_interface_raw sim_transport family speed l ≡ (
      ok tt,
      record l {
        world = record (l.world) { chip_id = family; interface_speed = speed; configured = true };
      },
    )
unfolding set_interface_raw Packets.command Packets.answered Packets.some_reply reply_ok
raw_lem family speed l up = ap (go_on (λ reply. if reply_ok reply then pure tt else fail target)) (
    request_lem l (0x81 ∷ 0x0c ∷ 0x02 ∷ family ∷ speed ∷ []) reply_max
      (0x82 ∷ 0x0c ∷ 0x02 ∷ family ∷ []) _ up refl)

set_interface-Follows :
    (c : Chip) (l : Link Programmer) (s : Sim)
    → Ready l s
    → Follows Behind (Any Behind) (set_interface sim_transport c l) (ok tt, s)
unfolding set_interface configure
set_interface-Follows c l s r = elim (Bool-cases (l.configured && (l.chip_id == c.linke_id))) [
  | inl e ↦ rw e (
      pure-Follows Behind tt l s tt (
        l.world.core,
        record { core = refl; configured = r.agrees (ground arith); up = r.up },
        r.shows,
      ))
  | inr e ↦ rw e (
      subst (λ q. Follows Behind (Any Behind) q (ok tt, s))
        (sym (
          ap (go_on (λ _. configure sim_transport c))
            (raw_lem c.linke_id c.interface_speed l r.up)))
        (pure-Follows Behind tt _ s tt
          (l.world.core, record { core = refl; configured = refl; up = r.up }, r.shows)))
]

set_interface-Simulates :
    (c : Chip) → Simulates Behind (Any Behind) (set_interface sim_transport c) (pure tt)
set_interface-Simulates c = record {
  run = λ l s b. set_interface-Follows c l s (Behind-Ready l s b);
}

read_memory-Simulates :
    (c : Chip) (a n : ℕ)
    → a + n ≤ 0x1000_0000
    → Simulates Behind (Any Behind) (read_memory sim_transport (some c) a n) (read_sim a n)
unfolding read_memory attach
read_memory-Simulates c a n h =
    then-Simulates Behind {f = read_block (dmi sim_transport) a n} {g = read_sim a n}
      (then-Simulates Behind (set_interface-Simulates c) halt-Simulates)
      (weaken-Simulates Behind (link-IsAlike.blocks a n h))

-- The write and the verification on the target's flash alone.
abbrev pub on_flash : Chip → ℕ → List ℕ → Bool → Action Sim ⊤
on_flash c address image verify =
    flash_write access c address image
    >> (if verify then flash_verify read_sim c address image else pure tt)

module _ (c : Chip) (address : ℕ) (image : List ℕ) (all : Bytes image)
    (low : normalise c address + length image ≤ 0x0fff_0000) where
  verified-Simulates :
      (verify : Bool)
      → Simulates Behind
          (Any Behind)
          (if verify
            then flash_verify (read_memory sim_transport (some c)) c address image
            else pure tt)
          (if verify then flash_verify read_sim c address image else pure tt)
  verified-Simulates true =
      flash_verify-Alike (read_memory sim_transport (some c)) read_sim (read_memory-Simulates c) c
        address image (omega arith)
  verified-Simulates false = pure-Simulates Behind tt tt

  resume_after-Simulates :
      (m : Action (Link Programmer) ⊤) (n : Action Sim ⊤)
      → Simulates Behind (Any Behind) m n
      → Simulates Behind (Any Behind) (resume_after sim_transport m) n
  unfolding resume_after
  resume_after-Simulates m n h = record {
    run = λ l s b.
        let f = h.run l s b in
        record {
          same = f.same;
          related = (resume-Simulates.run (m l).1 (n s).1 f.related).related;
          value = f.value;
        };
  }

  -- The whole call answers as the write and the verification do on the target's flash alone.
  write_flash-Follows :
      (verify : Bool) (l : Link Programmer) (s : Sim)
      → Ready l s
      → Follows Behind
          (Any Behind)
          (write_flash sim_transport c address image verify l)
          (on_flash c address image verify s)
  unfolding write_flash
  write_flash-Follows verify l s r =
      go_on-Follows Behind _ (λ _. on_flash c address image verify)
        (set_interface sim_transport c l) (ok tt, s) (set_interface-Follows c l s r)
        (λ _ _. then-Simulates Behind {g = on_flash c address image verify} halt-Simulates (
          then-Simulates Behind (flash_write-Alike link-IsAlike c address image all (omega arith))
            (resume_after-Simulates _ _ (verified-Simulates verify))))

-- A flash of whole pages within the window of addresses, with a controller that is idle and has seen
-- no error.
pub record IsIdle (s : Sim) : Type 0 where
  pub ctlr_zero : s.ctlr ≡ 0
  pub not_busy : s.busy_reads ≡ 0
  pub no_errors : s.program_errors ≡ 0
  pub bytes : (x : ℕ) → s.flash x < 256
  pub window : s.flash_size ≤ 2 ^ 24
  pub pages : s.flash_size % 64 ≡ 0

-- `wl_linke_write_flash` over the packets, the debug module and the program buffer of the simulated
-- programmer, over an open link to it, at rest with an idle controller and a flash of whole pages,
-- with or without the verification: on a part with the algorithm of the CH32V00x, whose
-- flash is at 0x08000000 and has pages of 64 bytes, an image that is not empty, shorter than 2^63
-- bytes, and that the range check accepts at an address of 32 bits is written with `ok`. Whatever the flash held, it then holds the image from its
-- start on, at the flash's own address or at the alias, and what it held everywhere else; the
-- controller has seen no error.
pub write_flash-image :
    (c : Chip) (l : Link Programmer) (address : ℕ) (image : List ℕ) (verify : Bool)
    → c.algo ≡ ch32v0
    → c.erase_size ≡ 64
    → c.flash_base ≡ 0x0800_0000
    → c.flash_size ≡ l.world.core.sim.flash_size
    → Ready l (l.world.core.sim)
    → IsIdle (l.world.core.sim)
    → All (λ b. b < 256) image
    → 0 < length image
    → address < 2 ^ 32
    → length image < 2 ^ 63
    → range_ok c address (length image) ≡ true
    → (l' : Link Programmer) × (write_flash sim_transport c address image verify l ≡ (ok tt, l'))
      × IsPlaced (l.world.core.sim.flash) (normalise c address) image (l'.world.core.sim.flash)
      × (l'.world.core.sim.program_errors ≡ 0)
write_flash-image c l address image verify algo erase base size ready idle all some_bytes word
      object accepted =
    let s : Sim = l.world.core.sim in
    let range =
      range_lem c s address image algo erase base size idle.ctlr_zero idle.not_busy idle.no_errors
        idle.bytes idle.window idle.pages all some_bytes word object accepted in
    let w =
      flash_write-image c s address image algo erase base size idle.ctlr_zero idle.not_busy
        idle.no_errors idle.bytes idle.window idle.pages all some_bytes word object accepted in
    let wide = idle.window in
    let f =
      write_flash-Follows c address image all (omega (arith, range.1, wide)) verify l s ready in
    let e : on_flash c address image verify s ≡ (ok tt, w.0) =
      ap (go_on (λ _. if verify then flash_verify read_sim c address image else pure tt)) w.1
      ∙ verified verify w.0 w.2 in
    let r = f.related in
    let t : (write_flash sim_transport c address image verify l).1.world.core.sim ≡ w.0 =
      ap (λ (k : Core). k.sim) r.1.core ∙ r.2.flash ∙ ap (λ (q : Result ⊤ × Sim). q.1) e in
    (
      (write_flash sim_transport c address image verify l).1,
      ap (λ (x : Result ⊤). (x, (write_flash sim_transport c address image verify l).1))
          (f.same ∙ ap (λ (q : Result ⊤ × Sim). q.0) e),
      subst (λ (u : Sim). IsPlaced s.flash (normalise c address) image u.flash) (sym t) w.3,
      ap (λ (u : Sim). u.program_errors) t ∙ w.4,
    )
  where
    verified :
        (v : Bool) (t : Sim)
        → flash_verify read_sim c address image t ≡ (ok tt, t)
        → (if v then flash_verify read_sim c address image else pure tt) t ≡ (ok tt, t)
    verified true t e = e
    verified false t e = refl
