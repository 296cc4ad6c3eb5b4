-- ===== src/Cli/Handles/Files.antt =====
-- The files of a command open and close no device (src/main.c).
use libopenwch_tools.Prelude.{
  ℕ, ◌≡◌, Option, none, some, List, Bool, true, false, not, ◌==◌, length, refl, ◌∙◌, Bool-cases,
  inl, inr,
}
use libopenwch_tools.Status.{usage}
use libopenwch_tools.Status.Preserves.{if-Preserves, pure-Preserves, fail-Preserves}
use libopenwch_tools.Cli.Tool.{
  Files, read_file, write_file, whole, read_stream, read_sized, write_stream,
}

-- The calls on files do not open or close a device.
pub record IsApart {W F : Type 0} (X : Files W F) (handles : W → ℕ) : Type 0 where
  pub stats : (path : List ℕ) (w : W) → handles (X.stat path w).1 ≡ handles w
  pub opens_read : (path : List ℕ) (w : W) → handles (X.open_read path w).1 ≡ handles w
  pub opens_write : (path : List ℕ) (w : W) → handles (X.open_write path w).1 ≡ handles w
  pub freads : (f : F) (n : ℕ) (w : W) → handles (X.fread f n w).1 ≡ handles w
  pub fwrites : (f : F) (bytes : List ℕ) (w : W) → handles (X.fwrite f bytes w).1 ≡ handles w
  pub fcloses : (f : F) (w : W) → handles (X.fclose f w).1 ≡ handles w

module _ {W F : Type 0} {X : Files W F} {handles : W → ℕ} (apart : IsApart X handles) where
  whole-handles : (size : ℕ) (got : List ℕ) (w : W) → handles (whole X size got w).1 ≡ handles w
  unfolding whole
  whole-handles size got w =
      (if-Preserves {P = λ v. handles v ≡ handles w} (not (length got == size))
          (fail-Preserves usage) (pure-Preserves got)).run
        w refl

  read_stream-handles :
      (size : ℕ) (p : Option F × W) → handles (read_stream X size p).1 ≡ handles p.1
  unfolding read_stream
  read_stream-handles size (none, w) = refl
  read_stream-handles size (some f, w) =
      whole-handles size _ _ ∙ apart.fcloses f _ ∙ apart.freads f size w

  read_sized-handles :
      (path : List ℕ) (p : Option (Bool × ℕ) × W) → handles (read_sized X path p).1 ≡ handles p.1
  unfolding read_sized
  read_sized-handles path (none, w) = refl
  read_sized-handles path (some (false, size), w) = refl
  read_sized-handles path (some (true, size), w) = elim (Bool-cases (size == 0)) [
    | inl e ↦ rw e refl
    | inr e ↦ rw e (read_stream-handles size (X.open_read path w) ∙ apart.opens_read path w)
  ]

  pub read_file-handles : (path : List ℕ) (w : W) → handles (read_file X path w).1 ≡ handles w
  unfolding read_file
  read_file-handles path w = read_sized-handles path (X.stat path w) ∙ apart.stats path w

  write_stream-handles :
      (bytes : List ℕ) (p : Option F × W) → handles (write_stream X bytes p).1 ≡ handles p.1
  unfolding write_stream
  write_stream-handles bytes (none, w) = refl
  write_stream-handles bytes (some f, w) = apart.fcloses f _ ∙ apart.fwrites f bytes w

  pub write_file-handles :
      (path bytes : List ℕ) (w : W) → handles (write_file X path bytes w).1 ≡ handles w
  unfolding write_file
  write_file-handles path bytes w =
      write_stream-handles bytes (X.open_write path w) ∙ apart.opens_write path w
