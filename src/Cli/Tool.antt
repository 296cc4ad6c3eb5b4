-- ===== src/Cli/Tool.antt =====
-- What the commands share: what they print, the files, and a programmer that is open (src/main.c).
use libopenwch_tools.Prelude.{
  ℕ, Bool, true, false, not, Option, none, some, List, [], ◌∷◌, ◌++◌, ◌==◌, if◌then◌else◌, length,
}
use libopenwch_tools.Status.{Action, Result, ok, err, usage, ⊤, pure, fail, ◌>>=◌, ◌>>◌}
use libopenwch_tools.Target.{Chip}
use libopenwch_tools.Target.Name.{by_name}
use libopenwch_tools.Usb.{Info}
use libopenwch_tools.Usb.Bus.{Libusb, Host, UsbLink}
use libopenwch_tools.Usb.Wire.{usb_transport}
use libopenwch_tools.Programmer.{Opened, linke_open, linked, linke_close, linke_close_keep_target}
use libopenwch_tools.Linke.Request.{Link}
use libopenwch_tools.Linke.Control.{halt}
use libopenwch_tools.Linke.Part.{set_interface, identify_chip}
use libopenwch_tools.Cli.{Options}

-- What is printed on stdout, without its layout.
pub data Printed : Type 0 where
  count : ℕ → Printed
  chip_line target : Chip → Printed
  entry : ℕ → Bool → Printed
  programmer : Info → Printed
  version : Result (List ℕ) → Printed
  cannot_open newline : Printed
  pc_line : ℕ → Printed
  gpr_line word_read word_written : ℕ → ℕ → Printed
  chars : List ℕ → Printed

-- A state with what has been printed.
abbrev pub Out : Type 0 → Type 0
Out S = S × List Printed

module _ {S : Type 0} where
  abbrev pub put : Printed → Action (Out S) ⊤
  put p (s, out) = (ok tt, (s, out ++ p ∷ []))

  abbrev pub quietly : {A : Type 0} → Action S A → Action (Out S) A
  quietly m (s, out) = let (r, s') = m s in (r, (s', out))

-- The calls on files; `F` is the type of the streams.
pub record Files (W F : Type 0) : Type 0 where
  -- Whether the path is a regular file, and its size.
  pub stat : List ℕ → W → Option (Bool × ℕ) × W
  pub open_read : List ℕ → W → Option F × W
  pub open_write : List ℕ → W → Option F × W
  pub fread : F → ℕ → W → List ℕ × W
  -- How many bytes are written.
  pub fwrite : F → List ℕ → W → ℕ × W
  -- Whether it succeeds.
  pub fclose : F → W → Bool × W

module _ {W F : Type 0} (X : Files W F) where
  unfoldable pub whole : ℕ → List ℕ → Action W (List ℕ)
  whole size got = if not (length got == size) then fail usage else pure got

  unfoldable pub read_stream : ℕ → Option F × W → Result (List ℕ) × W
  unfolding whole
  read_stream size (none, w) = (err usage, w)
  read_stream size (some f, w) =
      let (got, w₁) = X.fread f size w in whole size got (X.fclose f w₁).1

  unfoldable pub read_sized : List ℕ → Option (Bool × ℕ) × W → Result (List ℕ) × W
  unfolding read_stream
  read_sized path (none, w) = (err usage, w)
  read_sized path (some (false, size), w) = (err usage, w)
  read_sized path (some (true, size), w) =
      if size == 0 then (err usage, w) else read_stream size (X.open_read path w)

  -- `read_file`
  unfoldable pub read_file : List ℕ → Action W (List ℕ)
  unfolding read_sized
  read_file path w = read_sized path (X.stat path w)

  unfoldable pub write_stream : List ℕ → Option F × W → Result ⊤ × W
  write_stream bytes (none, w) = (err usage, w)
  write_stream bytes (some f, w) =
      let (written, w₁) = X.fwrite f bytes w in
      let (closed, w₂) = X.fclose f w₁ in
      (if not (written == length bytes) then err usage else if closed then ok tt else err usage, w₂)

  -- `write_file`
  unfoldable pub write_file : List ℕ → List ℕ → Action W ⊤
  unfolding write_stream
  write_file path bytes w = write_stream bytes (X.open_write path w)

-- `require_chip`
unfoldable pub require_chip : Option (List ℕ) → Option Chip
require_chip none = none
require_chip (some name) = by_name (some name)

-- A value, or the status for a wrong command line.
unfoldable pub or_usage : {S A : Type 0} → Option A → Action S A
or_usage none = fail usage
or_usage (some a) = pure a

module _ {W D H : Type 0} (U : Libusb W D H) where
  -- The programmer while it is open.
  abbrev pub Open : Type 0
  Open = Link (Option (UsbLink H) × W)

  -- The host and what is printed.
  abbrev pub Tool : Type 0
  Tool = Out (Host W)

  -- Between an open and the close that follows.
  unfoldable pub closed : {A : Type 0} → (Open → W) → Host W → Result A × Out Open → Result A × Tool
  closed close h (r, (l, out)) = (r, (record h { world = close l }, out))

  unfoldable pub with_link :
      {A : Type 0}
      → (Open → W)
      → Action (Out Open) A
      → List Printed
      → Result (Opened U) × Host W
      → Result A × Tool
  unfolding closed
  with_link close body out (err e, h) = (err e, (h, out))
  with_link close body out (ok (info, link), h) = closed close h (body (linked U link h.world, out))

  -- From an open to its close, which is made whatever the status of what stands between them.
  unfoldable pub during : {A : Type 0} → Option (List ℕ) → Action (Out Open) A → Action Tool A
  unfolding with_link
  during serial body (h, out) = with_link (linke_close U) body out (linke_open U serial h)

  -- The same where the target is left as it is.
  unfoldable pub keeping : {A : Type 0} → Option (List ℕ) → Action (Out Open) A → Action Tool A
  unfolding with_link
  keeping serial body (h, out) =
      with_link (linke_close_keep_target U) body out (linke_open U serial h)

  -- A call on the world.
  unfoldable pub in_world : {A : Type 0} → Action W A → Action Tool A
  in_world m (h, out) = let (r, w) = m h.world in (r, (record h { world = w }, out))

  unfoldable pub after_halt :
      {A : Type 0} → Action (Out Open) A → List Printed → Host W → Result ⊤ × Open → Result A × Tool
  unfolding closed
  after_halt body out h (err e, l) = (err e, (record h { world = linke_close U l }, out))
  after_halt body out h (ok _, l) = closed (linke_close_keep_target U) h (body (l, out))

  unfoldable pub halted_link :
      {A : Type 0}
      → Chip
      → Action (Out Open) A
      → List Printed
      → Result (Opened U) × Host W
      → Result A × Tool
  unfolding after_halt
  halted_link c body out (err e, h) = (err e, (h, out))
  halted_link c body out (ok (info, link), h) =
      after_halt body out h
        ((do set_interface (usb_transport U) c; halt (usb_transport U)) (linked U link h.world))

  unfoldable pub open_halted :
      {A : Type 0} → Option (List ℕ) → (Chip → Action (Out Open) A) → Chip → Action Tool A
  unfolding halted_link
  open_halted serial body c (h, out) = halted_link c (body c) out (linke_open U serial h)

  -- `open_target_debug`, what a command does with the halted core, and its close.
  unfoldable pub debugging : {A : Type 0} → Options → (Chip → Action (Out Open) A) → Action Tool A
  unfolding open_halted
  debugging opts body = do c ← or_usage (require_chip opts.chip); open_halted opts.serial body c

  unfoldable pub unless_known : Option Chip → Action Open Chip
  unless_known none = identify_chip (usb_transport U)
  unless_known (some c) = pure c

  -- The part by its name, or by what the programmer reports.
  unfoldable pub chip_or_detected : Option Chip → Action (Out Open) Chip
  unfolding unless_known
  chip_or_detected c = quietly (unless_known c)

-- The part that `--chip` names, or none without the option.
unfoldable pub named_chip : {S : Type 0} → Option (List ℕ) → Action S (Option Chip)
named_chip none = pure none
named_chip (some name) = do c ← or_usage (by_name (some name)); pure (some c)
