-- ===== src/Target/Name/Same.antt =====
-- Two names for one part, letters of either case, and the width of the name column.
use libopenwch_tools.Prelude.{
  ℕ, ◌≤◌, ◌≡◌, refl, sym, ap, ◌∙◌, inl, inr, ◌↔◌, true, Option, none, some, List, [], ◌∷◌, map,
  arith, ltb, if◌then◌else◌, length, All, All_at, get_elem?, list_eq, list_eq→eq, list_eq_refl,
}
use mathlib.Core.Option.{some-injective}
use libopenwch_tools.Target.Table.{Chip, chips}
use libopenwch_tools.Target.Detect.{IsEntry, by_detect_id}
use libopenwch_tools.Target.Name.{
  tolower, name_matches, is_better, find_name, by_name, by_name_longest, same_entry, same,
  name_max_from, name_max, Outcome,
}

find_exact : List Chip → List ℕ → Option Chip
find_exact [] name = none
find_exact (c ∷ cs) name = if list_eq c.name name then some c else find_exact cs name

abbrev FindsName : Chip → Type 0
FindsName c = find_exact chips c.name ≡ some c

names_unique : All FindsName chips
unfolding find_exact list_eq chips
names_unique = ground arith

from_Outcome :
    (query : List ℕ) (r : Option Chip) (c : Chip)
    → Outcome chips query r
    → r ≡ some c
    → (i : ℕ) × IsEntry chips i c
from_Outcome query r c (inl (d, e, b)) h = (b.0.0, cc)
from_Outcome query r c (inr (e, t)) h = cc

by_name-IsEntry :
    (q : Option (List ℕ)) (c : Chip) → by_name q ≡ some c → (i : ℕ) × IsEntry chips i c
by_name-IsEntry none c h = unfold by_name in cc
by_name-IsEntry (some []) c h = unfold by_name in cc
by_name-IsEntry (some (a ∷ name)) c h =
    from_Outcome (a ∷ name) (by_name (some (a ∷ name))) c (by_name_longest a name) h

entry_by_name :
    (i j : ℕ) (c d : Chip)
    → IsEntry chips i c
    → IsEntry chips j d
    → list_eq c.name d.name ≡ true
    → c ≡ d
entry_by_name i j c d at at' h = some-injective c d (
    sym (All_at FindsName chips i c names_unique at)
    ∙ ap (find_exact chips) (list_eq→eq c.name d.name h)
    ∙ All_at FindsName chips j d names_unique at')

same_entry_iff :
    (a b : Option Chip)
    → ((c : Chip) → a ≡ some c → (i : ℕ) × IsEntry chips i c)
    → ((c : Chip) → b ≡ some c → (i : ℕ) × IsEntry chips i c)
    → (same_entry a b ≡ true) ↔ ((c : Chip) × (a ≡ some c) × (b ≡ some c))
unfolding same_entry
same_entry_iff none b ha hb = (λ h. cc, λ h. cc (h.1))
same_entry_iff (some a) none ha hb = (λ h. cc, λ h. cc (h.2))
same_entry_iff (some a) (some b) ha hb = (
  λ h. (
    a,
    refl,
    ap some (sym (entry_by_name (ha a refl).0 (hb b refl).0 a b (ha a refl).1 (hb b refl).1 h)),
  ),
  λ h. let e : a ≡ b = some-injective a b (h.1 ∙ sym h.2) in rw e (list_eq_refl b.name),
)

-- Two names are the same part exactly when both resolve, and to one entry of the table.
pub same_iff :
    (a b : Option (List ℕ))
    → (same a b ≡ true) ↔ ((c : Chip) × (by_name a ≡ some c) × (by_name b ≡ some c))
unfolding same
same_iff a b = same_entry_iff (by_name a) (by_name b) (by_name-IsEntry a) (by_name-IsEntry b)

tolower_twice : (c : ℕ) → tolower (tolower c) ≡ tolower c
unfolding tolower
tolower_twice c = ground arith

name_matches-tolower :
    (xs query : List ℕ) → name_matches xs (map tolower query) ≡ name_matches xs query
unfolding name_matches
name_matches-tolower [] query = refl
name_matches-tolower (x ∷ xs) [] = refl
name_matches-tolower (x ∷ xs) (y ∷ query) = rw (tolower_twice y, name_matches-tolower xs query)

find_name-tolower :
    (cs : List Chip) (query : List ℕ) (best : Option Chip) (n : ℕ)
    → find_name cs (map tolower query) best n ≡ find_name cs query best n
unfolding find_name is_better
find_name-tolower [] query best n = refl
find_name-tolower (c ∷ cs) query best n =
    rw (name_matches-tolower c.name query) (find_name-tolower cs query _ _)

-- The case of the letters of a name makes no difference to the part that it names.
pub by_name-tolower : (name : List ℕ) → by_name (some (map tolower name)) ≡ by_name (some name)
by_name-tolower [] = refl
by_name-tolower (a ∷ name) = unfold by_name in find_name-tolower chips (a ∷ name) none 0

name_max_from-bound :
    (cs : List Chip) (most : ℕ)
    → (most ≤ name_max_from cs most) × All (λ c. length c.name ≤ name_max_from cs most) cs
unfolding name_max_from
name_max_from-bound [] most = (omega arith, tt)
name_max_from-bound (c ∷ cs) most =
    let rest = name_max_from-bound cs (if ltb most (length c.name) then length c.name else most) in
    (ground (arith, rest.0), (ground (arith, rest.0), rest.1))

-- The column is wide enough for the name of every part.
pub name_max-bound : All (λ c. length c.name ≤ name_max) chips
unfolding name_max
name_max-bound = (name_max_from-bound chips 0).1

abbrev IsFound : Chip → Type 0
IsFound c = (by_name (some c.name) ≡ some c) × (by_detect_id c.linke_id c.model_id ≡ some c)

chips-All : All IsFound chips
unfolding by_name by_detect_id chips find_name is_better name_matches tolower
chips-All = ground arith

-- Every part of the table is found under its own name, and under the identifiers that a programmer
-- reports for it.
pub chips-IsFound :
    (i : ℕ) (c : Chip)
    → get_elem? chips i ≡ some c
    → (by_name (some c.name) ≡ some c) × (by_detect_id c.linke_id c.model_id ≡ some c)
chips-IsFound i c entry = All_at IsFound chips i c chips-All entry
