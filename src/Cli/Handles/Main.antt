-- ===== src/Cli/Handles/Main.antt =====
-- A run of the tool leaves as many devices open as there were (src/main.c).
use libopenwch_tools.Prelude.{
  ℕ, ◌≡◌, refl, ◌∙◌, Option, none, some, List, [], ◌∷◌, Bool, true, false, Bool-cases, inl, inr,
  if◌then◌else◌,
}
use mathlib.Core.Path.{subst}
use libopenwch_tools.Status.{Result, ⊤, err, usage}
use libopenwch_tools.Status.Preserves.{Preserves, then-Preserves, pure-Preserves}
use libopenwch_tools.Target.{Chip}
use libopenwch_tools.Target.Table.{chips}
use libopenwch_tools.Usb.Bus.{
  Code, done, failed, Libusb, Host, initialised as started, global_init, global_exit,
}
use libopenwch_tools.Usb.Bus.Handles.{IsCounted}
use libopenwch_tools.Gdb.Handles.{LeavesHost, gdb_server_run-Leaves}
use libopenwch_tools.Cli.{Options, Strtoul, Parsed, help, version, bad, go, start, arguments}
use libopenwch_tools.Cli.Tool.{Tool, Files, Printed, put, require_chip, chip_line}
use libopenwch_tools.Cli.Command.{show_chips, print_all, flash, read}
use libopenwch_tools.Cli.Main.{
  Outside, Run, with_output, gdbserver, dispatch, finished, initialised, commanded, parsed, main,
}
use libopenwch_tools.Cli.Handles.{Under, put-Preserves, Balances}
use libopenwch_tools.Cli.Handles.Files.{IsApart}
use libopenwch_tools.Cli.Handles.Commands.{
  info_of-Balances, flash-Balances, read-Balances, with_file-Balances, reset_target-Balances,
  unbrick_target-Balances, terminal-Balances,
}
use libopenwch_tools.Cli.Handles.Debug.{target-Balances, programmer_command-Balances}

-- libusb_init and libusb_exit open and close no device.
pub record IsNeutral {W D H : Type 0} (U : Libusb W D H) (handles : W → ℕ) : Type 0 where
  pub inits : (w : W) → handles (U.init w).1 ≡ handles w
  pub exits : (w : W) → handles (U.exit w) ≡ handles w

print_all-Preserves :
    {S A : Type 0} (P : S → Type 0) (f : A → Printed) (xs : List A)
    → Preserves (Under P) (print_all {S = S} (λ x. put (f x)) xs)
unfolding print_all
print_all-Preserves P f [] = pure-Preserves tt
print_all-Preserves P f (x ∷ xs) =
    then-Preserves (put-Preserves P (f x)) (print_all-Preserves P f xs)

show_chips-Preserves : {S : Type 0} (P : S → Type 0) → Preserves (Under P) (show_chips {S = S})
unfolding show_chips
show_chips-Preserves P = then-Preserves (put-Preserves P _) (print_all-Preserves P chip_line chips)

module _ {W D H F : Type 0} {U : Libusb W D H} {X : Files W F} {handles : W → ℕ}
    (counted : IsCounted U handles) (neutral : IsNeutral U handles) (apart : IsApart X handles)
    (strtoul : List ℕ → Strtoul) where
  -- So many devices are open where the command has ended.
  unfoldable Leaves : {A : Type 0} → Option (A × Tool U) → ℕ → Type 0
  Leaves none n = Unit {0}
  Leaves (some (a, t)) n = handles t.0.world ≡ n

  with_output-Leaves :
      (out : List Printed) (o : Option (Result ⊤ × Host W)) (n : ℕ)
      → LeavesHost counted o n
      → Leaves (with_output U X strtoul out o) n
  unfolding with_output Leaves
  with_output-Leaves out none n k = tt
  with_output-Leaves out (some (r, h)) n k = k

  gdbserver-Leaves :
      (o : Outside) (opts : Options) (c : Option Chip) (t : Tool U)
      → Leaves (gdbserver U X strtoul o opts c t) (handles t.0.world)
  unfolding gdbserver Leaves
  gdbserver-Leaves o opts none t = refl
  gdbserver-Leaves o opts (some c) (h, out) =
      with_output-Leaves out _ (handles h.world)
        (gdb_server_run-Leaves counted opts.serial (some c) o.peer h)

  if-Leaves :
      {A : Type 0} (b : Bool) (o p : Option (A × Tool U)) (n : ℕ)
      → Leaves o n
      → Leaves p n
      → Leaves (if b then o else p) n
  if-Leaves true o p n j k = j
  if-Leaves false o p n j k = k

  -- A command that always comes to its end.
  ended-Leaves :
      {A : Type 0} (m : Tool U → A × Tool U) (t : Tool U)
      → Balances counted m
      → Leaves (some (m t)) (handles t.0.world)
  unfolding Leaves
  ended-Leaves m t b = (b (handles t.0.world)).run t refl

  here-Leaves : {A : Type 0} (a : A) (t : Tool U) → Leaves (some (a, t)) (handles t.0.world)
  unfolding Leaves
  here-Leaves a t = refl

  dispatch-Leaves :
      (o : Outside) (command : List ℕ) (opts : Options) (t : Tool U)
      → Leaves (dispatch U X strtoul o command opts t) (handles t.0.world)
  unfolding dispatch
  dispatch-Leaves o command opts t =
      let ends = if-Leaves {A = Result ⊤} in
      let n = handles t.0.world in
      ends _ _ _ n
        (ended-Leaves show_chips t (λ m. show_chips-Preserves (λ h. handles h.world ≡ m)))
        (ends _ _ _ n (ended-Leaves _ t (info_of-Balances counted apart opts.chip opts)) (
          ends _ _ _ n
            (ended-Leaves _ t (
              with_file-Balances counted apart (flash U X) opts
                (λ path. flash-Balances counted apart path opts)))
            (ends _ _ _ n
              (ended-Leaves _ t (
                with_file-Balances counted apart (read U X) opts
                  (λ path. read-Balances counted apart path opts)))
              (ends _ _ _ n (ended-Leaves _ t (programmer_command-Balances counted opts.file opts))
                (ends _ _ _ n (ended-Leaves _ t (target-Balances counted strtoul opts)) (
                  ends _ _ _ n (ended-Leaves _ t (reset_target-Balances counted apart opts)) (
                    ends _ _ _ n (ended-Leaves _ t (unbrick_target-Balances counted apart opts)) (
                      ends _ _ _ n (gdbserver-Leaves o opts (require_chip opts.chip) t) (
                        ends _ _ _ n
                          (ended-Leaves _ t
                            (terminal-Balances counted apart o.rounds o.writes opts))
                          (here-Leaves (err usage) t))))))))))

  global_exit-handles : (h : Host W) → handles (global_exit U h).world ≡ handles h.world
  unfolding global_exit
  global_exit-handles h = elim (Bool-cases h.context) [
    | inl e ↦ rw e (neutral.exits h.world)
    | inr e ↦ rw e refl
  ]

  finished-Leaves : (r : Run U X strtoul) (n : ℕ) → Leaves r n → Leaves (finished U X strtoul r) n
  unfolding finished Leaves
  finished-Leaves none n k = tt
  finished-Leaves (some (r, (h, out))) n k = global_exit-handles h ∙ k

  started-handles : (p : Code ⊤ × W) → handles (started U p).1.world ≡ handles p.1
  unfolding started
  started-handles (done x, w) = refl
  started-handles (failed e, w) = refl

  global_init-handles : (h : Host W) → handles (global_init U h).1.world ≡ handles h.world
  unfolding global_init
  global_init-handles h = elim (Bool-cases h.context) [
    | inl e ↦ rw e refl
    | inr e ↦ rw e (started-handles (U.init h.world) ∙ neutral.inits h.world)
  ]

  initialised-Leaves :
      (o : Outside) (command : List ℕ) (opts : Options) (out : List Printed) (p : Code ⊤ × Host W)
      → Leaves (initialised U X strtoul o command opts out p) (handles p.1.world)
  unfolding initialised Leaves
  initialised-Leaves o command opts out (failed e, h) = refl
  initialised-Leaves o command opts out (done x, h) =
      finished-Leaves (dispatch U X strtoul o command opts (h, out)) (handles h.world)
        (dispatch-Leaves o command opts (h, out))

  commanded-Leaves :
      (o : Outside) (opts : Options) (command : Option (List ℕ)) (h : Host W)
      → Leaves (commanded U X strtoul o opts command h) (handles h.world)
  unfolding commanded Leaves
  commanded-Leaves o opts none h = refl
  commanded-Leaves o opts (some command) h =
      subst (Leaves (initialised U X strtoul o command opts [] (global_init U h)))
        (global_init-handles h) (initialised-Leaves o command opts [] (global_init U h))

  parsed-Leaves :
      (o : Outside) (p : Parsed) (h : Host W) → Leaves (parsed U X strtoul o p h) (handles h.world)
  unfolding parsed Leaves
  parsed-Leaves o help h = refl
  parsed-Leaves o version h = refl
  parsed-Leaves o bad h = refl
  parsed-Leaves o (go s) h = commanded-Leaves o s.options s.command h

  -- A run of the tool that comes to its end leaves as many devices open as there were, whatever the
  -- command line, what libusb and the files answer, and what a debugger sends: each command closes
  -- the programmer that it opens, with the errors in between. It is asked of libusb that only its
  -- open and close calls change how many are open, and of the files that no call does.
  pub main-handles :
      (o : Outside) (args : List (List ℕ)) (h : Host W) (status : ℕ) (t : Tool U)
      → main U X strtoul o args h ≡ some (status, t)
      → handles t.0.world ≡ handles h.world
  unfolding main Leaves
  main-handles o args h status t e =
      subst (λ r. Leaves r (handles h.world)) e (parsed-Leaves o (arguments strtoul args start) h)
