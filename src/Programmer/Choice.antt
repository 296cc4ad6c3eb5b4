-- ===== src/Programmer/Choice.antt =====
-- Which programmer a search takes, and how long it waits for one.
use libopenwch_tools.Prelude.{
  ℕ, suc, ◌+◌, ◌≡◌, refl, sym, ap, ◌∙◌, ◌⊎◌, inl, inr, Bool, true, false, Option, none, some, List,
  [], ◌∷◌, ◌==◌, if◌then◌else◌, arith, Bool-cases, list_eq→eq,
}
use mathlib.Core.Path.{subst}
use mathlib.Core.Option.{some-injective}
use libopenwch_tools.Usb.{Mode, rv, arm, iap, unknown, Info, mode_eq}
use libopenwch_tools.Programmer.{
  serial_matches, is_candidate, is_ready, first, Candidates, or_first, note, survey, candidates,
}

-- How many elements pass a test.
abbrev pub count : (Info → Bool) → List Info → ℕ
count test [] = 0
count test (info ∷ infos) = if test info then suc (count test infos) else count test infos

abbrev or_else : Option Info → Option Info → Option Info
or_else none later = later
or_else (some info) later = some info

or_else-first :
    (test : Info → Bool) (o : Option Info) (info : Info) (infos : List Info)
    → or_else o (first test (info ∷ infos))
      ≡ or_else (if test info then or_first o info else o) (first test infos)
unfolding first
or_else-first test none info infos = elim (Bool-cases (test info)) [
  | inl e ↦ rw e refl
  | inr e ↦ rw e refl
]
or_else-first test (some x) info infos = elim (Bool-cases (test info)) [
  | inl e ↦ rw e refl
  | inr e ↦ rw e refl
]

-- What a mode's candidates are after the rest of the list, from those before it.
abbrev surveyed : Option (List ℕ) → List Info → Candidates → Candidates
surveyed filter infos c = record {
  info = if c.usable == 0 then or_else (first (is_ready filter rv) infos) c.info else c.info;
  usable = c.usable + count (is_ready filter rv) infos;
  arm_candidate = or_else c.arm_candidate (first (is_ready filter arm) infos);
  iap_candidate = or_else c.iap_candidate (first (is_ready filter iap) infos);
}

same_fields :
    (a b : Candidates)
    → a.info ≡ b.info
    → a.usable ≡ b.usable
    → a.arm_candidate ≡ b.arm_candidate
    → a.iap_candidate ≡ b.iap_candidate
    → a ≡ b
same_fields a b p q r s =
    λ i. record { info = p i; usable = q i; arm_candidate = r i; iap_candidate = s i }

not_taken :
    (filter : Option (List ℕ)) (info : Info) (infos : List Info) (c : Candidates)
    → is_candidate filter info ≡ false
    → surveyed filter infos c ≡ surveyed filter (info ∷ infos) c
unfolding is_ready first
not_taken filter info infos c e = rw e refl

or_else-or_first :
    (o : Option Info) (info : Info) (later : Option Info)
    → or_else (or_first o info) later ≡ or_else o (some info)
or_else-or_first none info later = refl
or_else-or_first (some x) info later = refl

taken :
    (filter : Option (List ℕ)) (info : Info) (infos : List Info) (c : Candidates) (m : Mode)
    → is_candidate filter info ≡ true
    → info.mode ≡ m
    → surveyed filter infos (note m info c) ≡ surveyed filter (info ∷ infos) c
unfolding is_ready first note mode_eq
taken filter info infos c rv e m =
    same_fields (surveyed filter infos (note rv info c)) (surveyed filter (info ∷ infos) c)
      (rw (e, m) (ground arith)) (rw (e, m) (omega arith)) (rw (e, m) refl) (rw (e, m) refl)
taken filter info infos c arm e m =
    same_fields (surveyed filter infos (note arm info c)) (surveyed filter (info ∷ infos) c)
      (rw (e, m) refl) (rw (e, m) refl) (rw (e, m) (or_else-or_first c.arm_candidate _ _))
      (rw (e, m) refl)
taken filter info infos c iap e m =
    same_fields (surveyed filter infos (note iap info c)) (surveyed filter (info ∷ infos) c)
      (rw (e, m) refl) (rw (e, m) refl) (rw (e, m) refl)
      (rw (e, m) (or_else-or_first c.iap_candidate _ _))
taken filter info infos c unknown e m = rw (e, m) refl

or_else-none : (o : Option Info) → or_else o none ≡ o
or_else-none none = refl
or_else-none (some info) = refl

survey_lem :
    (filter : Option (List ℕ)) (infos : List Info) (c : Candidates)
    → survey filter infos c ≡ surveyed filter infos c
unfolding survey first
survey_lem filter [] c =
    same_fields c (surveyed filter [] c)
      (elim (Bool-cases (c.usable == 0)) [ inl e ↦ rw e refl | inr e ↦ rw e refl ]) (omega arith)
      (sym (or_else-none c.arm_candidate)) (sym (or_else-none c.iap_candidate))
survey_lem filter (info ∷ infos) c = elim (Bool-cases (is_candidate filter info)) [
  | inl e ↦
      rw e (
        survey_lem filter infos (note info.mode info c)
        ∙ taken filter info infos c info.mode e refl)
  | inr e ↦ rw e (survey_lem filter infos c ∙ not_taken filter info infos c e)
]

-- The loop of `wl_linke_open` keeps, for each mode, the first accessible programmer in that mode
-- whose serial number matches, and counts those in RISC-V mode.
pub candidates-first :
    (filter : Option (List ℕ)) (infos : List Info)
    → candidates filter infos ≡ record {
      info = first (is_ready filter rv) infos;
      usable = count (is_ready filter rv) infos;
      arm_candidate = first (is_ready filter arm) infos;
      iap_candidate = first (is_ready filter iap) infos;
    }
unfolding candidates
candidates-first filter infos =
    survey_lem filter infos
      record { info = none; usable = 0; arm_candidate = none; iap_candidate = none }
    ∙ same_fields _ _ (or_else-none (first (is_ready filter rv) infos)) (omega arith) refl refl

-- A programmer in the mode, which can be opened, and of the given serial number if there is one.
pub record IsReady (filter : Option (List ℕ)) (mode : Mode) (info : Info) : Type 0 where
  pub in_mode : info.mode ≡ mode
  pub is_accessible : info.accessible ≡ true
  pub matches : (filter ≡ none) ⊎ ((filter ≡ some []) ⊎ (filter ≡ some info.serial))

mode_eq→eq : (a b : Mode) → mode_eq a b ≡ true → a ≡ b
unfolding mode_eq
mode_eq→eq rv rv h = refl
mode_eq→eq rv arm h = cc
mode_eq→eq rv iap h = cc
mode_eq→eq rv unknown h = cc
mode_eq→eq arm rv h = cc
mode_eq→eq arm arm h = refl
mode_eq→eq arm iap h = cc
mode_eq→eq arm unknown h = cc
mode_eq→eq iap rv h = cc
mode_eq→eq iap arm h = cc
mode_eq→eq iap iap h = refl
mode_eq→eq iap unknown h = cc
mode_eq→eq unknown rv h = cc
mode_eq→eq unknown arm h = cc
mode_eq→eq unknown iap h = cc
mode_eq→eq unknown unknown h = refl

serial_matches-cases :
    (filter : Option (List ℕ)) (info : Info)
    → serial_matches info filter ≡ true
    → (filter ≡ none) ⊎ ((filter ≡ some []) ⊎ (filter ≡ some info.serial))
unfolding serial_matches
serial_matches-cases none info h = inl refl
serial_matches-cases (some []) info h = inr (inl refl)
serial_matches-cases (some (c ∷ serial)) info h =
    inr (inr (ap some (sym (list_eq→eq info.serial (c ∷ serial) h))))

is_ready→IsReady :
    (filter : Option (List ℕ)) (mode : Mode) (info : Info)
    → is_ready filter mode info ≡ true
    → IsReady filter mode info
unfolding is_ready is_candidate
is_ready→IsReady filter mode info h = record {
  in_mode = mode_eq→eq info.mode mode (ground arith);
  is_accessible = ground arith;
  matches = serial_matches-cases filter info (ground arith);
}

first-passes :
    (test : Info → Bool) (infos : List Info) (info : Info)
    → first test infos ≡ some info
    → test info ≡ true
unfolding first
first-passes test [] info h = cc
first-passes test (x ∷ infos) info h = elim (Bool-cases (test x)) [
  | inl e ↦ subst (λ y. test y ≡ true) (some-injective x info (rw e at h)) e
  | inr e ↦ first-passes test infos info (rw e at h)
]

pub first-IsReady :
    (filter : Option (List ℕ)) (mode : Mode) (infos : List Info) (info : Info)
    → first (is_ready filter mode) infos ≡ some info
    → IsReady filter mode info
first-IsReady filter mode infos info h =
    is_ready→IsReady filter mode info (first-passes (is_ready filter mode) infos info h)
