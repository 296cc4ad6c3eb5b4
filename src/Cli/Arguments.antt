-- ===== src/Cli/Arguments.antt =====
-- What the options are after the loop over the arguments.
use libopenwch_tools.Prelude.{
  ℕ, ◌^◌, ◌≤◌, ◌<◌, ◌≡◌, refl, Bool, true, false, ◌&&◌, ◌||◌, not, Option, none, some, List, [],
  ◌∷◌, ◌==◌, ltb, if◌then◌else◌, length, length-append, arith, Bool-cases, inl, inr, list_eq, codes,
  get_or,
}
use mathlib.Core.Path.{subst}
use libopenwch_tools.Cli.{
  is_option, Line, Parsed, help, version, bad, go, Strtoul, start, parse_u32, text_of, number_of,
  port_of, with_options, add_extra, positional, valued, step, arguments, target_extra_max,
}

-- The room for the extra arguments, and the widths of the numbers.
pub record InRange (s : Line) : Type 0 where
  pub extra_le : length s.options.extra ≤ 4
  pub address_lt : s.options.address < 2 ^ 32
  pub size_lt : s.options.size < 2 ^ 32
  pub port_pos : 0 < s.options.port
  pub port_lt : s.options.port < 2 ^ 16

module _ (strtoul : List ℕ → Strtoul) where
  Fits : Parsed → Type 0
  Fits help = Unit
  Fits version = Unit
  Fits bad = Unit
  Fits (go s) = InRange s

  bad-Fits : Fits bad
  unfolding Fits
  bad-Fits = tt

  help-Fits : Fits help
  unfolding Fits
  help-Fits = tt

  version-Fits : Fits version
  unfolding Fits
  version-Fits = tt

  if-Fits : (t : Bool) (p q : Parsed) → Fits p → Fits q → Fits (if t then p else q)
  if-Fits true p q j k = j
  if-Fits false p q j k = k

  -- What goes on with a line in range ends so.
  Keeps : (Line → Parsed) → Type 0
  Keeps f = (s : Line) → InRange s → Fits (f s)

  text_of-Fits :
      (o : Option (List ℕ)) (f : List ℕ → Parsed)
      → ((t : List ℕ) → Fits (f t))
      → Fits (text_of strtoul o f)
  unfolding text_of
  text_of-Fits none f k = bad-Fits
  text_of-Fits (some t) f k = k t

  Word : Option ℕ → Type 0
  Word none = Unit
  Word (some n) = n < 2 ^ 32

  parse_u32-Word : (text : List ℕ) → Word (parse_u32 strtoul text)
  unfolding parse_u32 Word
  parse_u32-Word [] = tt
  parse_u32-Word (c ∷ text) =
      elim (Bool-cases
        ((strtoul (c ∷ text)).errno || not (length (strtoul (c ∷ text)).end_ == 0))) [
          | inl e ↦ rw e tt
          | inr e ↦ elim (Bool-cases (ltb 0xffff_ffff (strtoul (c ∷ text)).value)) [
            | inl f ↦ rw (e, f) tt
            | inr f ↦ rw (e, f) (ground arith)
          ]
        ]

  number_of-Fits :
      (o : Option ℕ) (f : ℕ → Parsed)
      → Word o
      → ((n : ℕ) → n < 2 ^ 32 → Fits (f n))
      → Fits (number_of strtoul o f)
  unfolding number_of Word
  number_of-Fits none f w k = bad-Fits
  number_of-Fits (some n) f w k = k n w

  port_of-Fits :
      (n : ℕ) (f : ℕ → Parsed)
      → ((p : ℕ) → 0 < p → p < 2 ^ 16 → Fits (f p))
      → Fits (port_of strtoul n f)
  unfolding port_of
  port_of-Fits n f k = elim (Bool-cases ((n == 0) || ltb 65535 n)) [
    | inl e ↦ rw e bad-Fits
    | inr e ↦ rw e (k n (ground arith) (ground arith))
  ]

  -- The fields that are in range are those of another line.
  same :
      {s t : Line}
      → InRange s
      → length t.options.extra ≡ length s.options.extra
      → t.options.address ≡ s.options.address
      → t.options.size ≡ s.options.size
      → t.options.port ≡ s.options.port
      → InRange t
  same r e a z p = record {
    extra_le = omega (arith, r.extra_le, e);
    address_lt = omega (arith, r.address_lt, a);
    size_lt = omega (arith, r.size_lt, z);
    port_pos = omega (arith, r.port_pos, p);
    port_lt = omega (arith, r.port_lt, p);
  }

  add_extra-Fits :
      (arg : List ℕ) (next : Line → Parsed) → Keeps next → Keeps (add_extra strtoul arg next)
  unfolding add_extra Keeps
  add_extra-Fits arg next k s r =
      elim (Bool-cases (ltb (length s.options.extra) target_extra_max)) [
        | inr e ↦ rw e bad-Fits
        | inl e ↦ rw e (
            k _ (record {
              extra_le = ground (arith, length-append s.options.extra (arg ∷ []));
              address_lt = r.address_lt;
              size_lt = r.size_lt;
              port_pos = r.port_pos;
              port_lt = r.port_lt;
            }))
      ]

  positional-Fits :
      (arg : List ℕ) (next : Line → Parsed) (command file : Option (List ℕ))
      → Keeps next
      → Keeps (positional strtoul arg next command file)
  unfolding positional Keeps
  positional-Fits arg next none file k s r = k _ (same r refl refl refl refl)
  positional-Fits arg next (some command) none k s r = k _ (same r refl refl refl refl)
  positional-Fits arg next (some command) (some file) k s r =
      if-Fits (list_eq command (codes "target")) _ _ (add_extra-Fits arg next k s r) bad-Fits

  valued-Fits :
      (arg : List ℕ) (value : Option (List ℕ)) (next skip : Line → Parsed)
      → Keeps next
      → Keeps skip
      → Keeps (valued strtoul arg value next skip)
  unfolding valued Keeps
  valued-Fits arg value next skip j k s r =
      if-Fits (is_option arg "-s" "--serial") _ _
        (text_of-Fits value _ (λ t. k _ (same r refl refl refl refl)))
        (if-Fits (is_option arg "-c" "--chip") _ _
          (text_of-Fits value _ (λ t. k _ (same r refl refl refl refl)))
          (if-Fits (is_option arg "-a" "--address") _ _
            (text_of-Fits value _ (λ t.
              number_of-Fits (parse_u32 strtoul t) _ (parse_u32-Word t) (λ n l. k _ (record {
                extra_le = r.extra_le;
                address_lt = l;
                size_lt = r.size_lt;
                port_pos = r.port_pos;
                port_lt = r.port_lt;
              }))))
            (if-Fits (is_option arg "-n" "--size") _ _
              (text_of-Fits value _ (λ t.
                number_of-Fits (parse_u32 strtoul t) _ (parse_u32-Word t) (λ n l. k _ (record {
                  extra_le = r.extra_le;
                  address_lt = r.address_lt;
                  size_lt = l;
                  port_pos = r.port_pos;
                  port_lt = r.port_lt;
                }))))
              (if-Fits (is_option arg "-p" "--port") _ _
                (text_of-Fits value _ (λ t.
                  number_of-Fits (parse_u32 strtoul t) _ (parse_u32-Word t) (λ n l.
                    port_of-Fits n (λ p. skip (with_options strtoul s (λ o. record o { port = p })))
                      (λ p pos small. k _ (record {
                        extra_le = r.extra_le;
                        address_lt = r.address_lt;
                        size_lt = r.size_lt;
                        port_pos = pos;
                        port_lt = small;
                      })))))
                (if-Fits ((get_or arg 0 0 == b'-') && ltb 1 (length arg)) _ _ bad-Fits
                  (positional-Fits arg next s.command s.options.file j s r))))))

  step-Fits :
      (arg : List ℕ) (value : Option (List ℕ)) (next skip : Line → Parsed)
      → Keeps next
      → Keeps skip
      → Keeps (step strtoul arg value next skip)
  unfolding step Keeps
  step-Fits arg value next skip j k s r = if-Fits (is_option arg "-h" "--help") help _ help-Fits (
      if-Fits (list_eq arg (codes "--version")) version _ version-Fits (
        if-Fits (is_option arg "-v" "--verbose") _ _ (j _ (same r refl refl refl refl)) (
          if-Fits (is_option arg "-q" "--quiet") _ _ (j _ (same r refl refl refl refl)) (
            if-Fits (list_eq arg (codes "--verify")) _ _ (j _ (same r refl refl refl refl)) (
              if-Fits (list_eq arg (codes "--no-verify")) _ _ (j _ (same r refl refl refl refl))
                (valued-Fits arg value next skip j k s r))))))

  go-Fits : Keeps go
  unfolding Keeps Fits
  go-Fits s r = r

  arguments-Fits : (args : List (List ℕ)) → Keeps (arguments strtoul args)
  unfolding arguments
  arguments-Fits [] = go-Fits
  arguments-Fits (arg ∷ []) = step-Fits arg none go go go-Fits go-Fits
  arguments-Fits (arg ∷ value ∷ rest) =
      step-Fits arg (some value) (λ t. arguments strtoul (value ∷ rest) t)
        (λ t. arguments strtoul rest t) (arguments-Fits (value ∷ rest)) (arguments-Fits rest)

  start-InRange : InRange start
  start-InRange = record {
    extra_le = omega arith;
    address_lt = omega arith;
    size_lt = omega arith;
    port_pos = omega arith;
    port_lt = omega arith;
  }

  -- Whatever the arguments and whatever `strtoul` makes of them, options that are accepted are in
  -- range: at most four extra arguments, as many as the array holds, an address and a size of 32
  -- bits, and a port from 1 to 65535.
  pub arguments-InRange :
      (args : List (List ℕ)) (s : Line) → arguments strtoul args start ≡ go s → InRange s
  unfolding Fits Keeps
  arguments-InRange args s e = subst Fits e (arguments-Fits args start start-InRange)
