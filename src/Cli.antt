-- ===== src/Cli.antt =====
-- The options of the command line and the loop over the arguments (src/main.c).
pub mod Handles
pub mod Arguments
pub mod Tool
pub mod Debug
pub mod Terminal
pub mod Command
pub mod Programmers
pub mod Main
mod Tests
use libopenwch_tools.Prelude.{
  ℕ, ◌+◌, ◌^◌, Bool, true, false, ◌&&◌, ◌||◌, not, Option, none, some, List, [], ◌∷◌, ◌++◌, ◌==◌,
  ltb, leb, if◌then◌else◌, get_or, length, codes, list_eq,
}
use Prim.Native.String.{String}

abbrev pub target_extra_max : ℕ
target_extra_max = 4

-- `enum wl_level`, as src/log.c keeps it for the messages.
pub data Level : Type 0 where
  level_quiet level_info level_debug : Level

-- `struct options`; `extra_count` is the length of `extra`.
pub record Options : Type 0 where
  pub serial : Option (List ℕ)
  pub chip : Option (List ℕ)
  pub file : Option (List ℕ)
  pub extra : List (List ℕ)
  pub address : ℕ
  pub size : ℕ
  pub address_given : Bool
  pub size_given : Bool
  pub verify : Bool
  pub port : ℕ

-- What `strtoul` with base 0 gives: the value, the text behind it and whether it sets errno.
pub record Strtoul : Type 0 where
  pub value : ℕ
  pub end_ : List ℕ
  pub errno : Bool

-- The state of the loop over the arguments.
pub record Line : Type 0 where
  pub options : Options
  pub command : Option (List ℕ)
  pub level : Level

-- What the loop ends with: the help or the version and a success, an error, or a command to carry out.
pub data Parsed : Type 0 where
  help version bad : Parsed
  go : Line → Parsed

abbrev pub start : Line
start = record {
  options = record {
    serial = none;
    chip = none;
    file = none;
    extra = [];
    address = 0;
    size = 0;
    address_given = false;
    size_given = false;
    verify = true;
    port = 3333;
  };
  command = none;
  level = level_info;
}

-- `strcmp` with either name of an option.
abbrev pub is_option : List ℕ → String → String → Bool
is_option arg short long = list_eq arg (codes short) || list_eq arg (codes long)

module _ (strtoul : List ℕ → Strtoul) where
  -- `parse_u32`
  unfoldable pub parse_u32 : List ℕ → Option ℕ
  parse_u32 [] = none
  parse_u32 (c ∷ text) =
      let p = strtoul (c ∷ text) in
      if p.errno || not (length p.end_ == 0)
      then none
      else if ltb 0xffff_ffff p.value
      then none
      else some p.value

  -- The argument of an option, and the number in it.
  text_of : Option (List ℕ) → (List ℕ → Parsed) → Parsed
  text_of none use_text = bad
  text_of (some text) use_text = use_text text

  number_of : Option ℕ → (ℕ → Parsed) → Parsed
  number_of none use_number = bad
  number_of (some n) use_number = use_number n

  port_of : ℕ → (ℕ → Parsed) → Parsed
  port_of n use_port = if (n == 0) || ltb 65535 n then bad else use_port n

  abbrev with_options : Line → (Options → Options) → Line
  with_options s f = record s { options = f s.options }

  add_extra : List ℕ → (Line → Parsed) → Line → Parsed
  add_extra arg next s =
      if ltb (length s.options.extra) target_extra_max
      then next (with_options s (λ o. record o { extra = o.extra ++ arg ∷ [] }))
      else bad

  -- An argument that is no option, by the command and the file so far.
  positional : List ℕ → (Line → Parsed) → Option (List ℕ) → Option (List ℕ) → Line → Parsed
  unfolding add_extra
  positional arg next none file s = next (record s { command = some arg })
  positional arg next (some command) none s =
      next (with_options s (λ o. record o { file = some arg }))
  positional arg next (some command) (some file) s =
      if list_eq command (codes "target") then add_extra arg next s else bad

  -- The options with an argument; `skip` goes on behind that.
  valued : List ℕ → Option (List ℕ) → (Line → Parsed) → (Line → Parsed) → Line → Parsed
  unfolding text_of number_of port_of parse_u32 positional
  valued arg value next skip s =
      if is_option arg "-s" "--serial"
      then text_of value (λ t. skip (with_options s (λ o. record o { serial = some t })))
      else if is_option arg "-c" "--chip"
      then text_of value (λ t. skip (with_options s (λ o. record o { chip = some t })))
      else if is_option arg "-a" "--address"
      then text_of value (λ t.
        number_of (parse_u32 t)
          (λ n. skip (with_options s (λ o. record o { address = n; address_given = true }))))
      else if is_option arg "-n" "--size"
      then text_of value (λ t.
        number_of (parse_u32 t)
          (λ n. skip (with_options s (λ o. record o { size = n; size_given = true }))))
      else if is_option arg "-p" "--port"
      then text_of value (λ t.
        number_of (parse_u32 t)
          (λ n. port_of n (λ p. skip (with_options s (λ o. record o { port = p })))))
      else if (get_or arg 0 0 == b'-') && ltb 1 (length arg)
      then bad
      else positional arg next s.command s.options.file s

  -- One round of the loop: the argument, the one behind it if there is one, and the loop behind
  -- either.
  step : List ℕ → Option (List ℕ) → (Line → Parsed) → (Line → Parsed) → Line → Parsed
  unfolding valued
  step arg value next skip s =
      if is_option arg "-h" "--help"
      then help
      else if list_eq arg (codes "--version")
      then version
      else if is_option arg "-v" "--verbose"
      then next (record s { level = level_debug })
      else if is_option arg "-q" "--quiet"
      then next (record s { level = level_quiet })
      else if list_eq arg (codes "--verify")
      then next (with_options s (λ o. record o { verify = true }))
      else if list_eq arg (codes "--no-verify")
      then next (with_options s (λ o. record o { verify = false }))
      else valued arg value next skip s

  -- The loop over `argv`, without the program's name.
  unfoldable pub arguments : List (List ℕ) → Line → Parsed
  unfolding step
  arguments [] s = go s
  arguments (arg ∷ []) s = step arg none go go s
  arguments (arg ∷ value ∷ rest) s =
      step arg (some value) (λ t. arguments (value ∷ rest) t) (λ t. arguments rest t) s
