-- ===== src/Target/Name.antt =====
-- `wl_chip_by_name`, `wl_chip_name_max` and `wl_chip_same` (src/target.c).
pub mod Longest
pub mod Same
use libopenwch_tools.Prelude.{
  ℕ, zero, suc, ◌+◌, ◌≤◌, ◌<◌, ◌≡◌, refl, ap, ap₂, ◌∙◌, ◌⊎◌, inl, inr, Bool, true, false, ◌&&◌,
  ◌||◌, Option, none, some, List, [], ◌∷◌, map, arith, ◌==◌, ltb, leb, if◌then◌else◌, get_elem?,
  length, list_eq, Bool-cases, Option-cases,
}
use libopenwch_tools.Target.Table.{Chip, chips}
use mathlib.Core.Path.{subst}
use mathlib.Core.Option.{some-injective}
use libopenwch_tools.Target.Detect.{IsEntry}

-- `tolower` of the C locale.
pub tolower : ℕ → ℕ
tolower c = if leb b'A' c && leb c b'Z' then c + 32 else c

-- The candidate is a prefix of the query, whatever the case of the letters.
unfoldable pub name_matches : List ℕ → List ℕ → Bool
unfolding tolower
name_matches [] query = true
name_matches (a ∷ candidate) [] = false
name_matches (a ∷ candidate) (b ∷ query) = (tolower a == tolower b) && name_matches candidate query

-- Whether the loop replaces its best match by this entry.
is_better : Chip → List ℕ → Option Chip → ℕ → Bool
is_better c query best best_len =
    name_matches c.name query && elim best [ none ↦ true | some _ ↦ ltb best_len (length c.name) ]

find_name : List Chip → List ℕ → Option Chip → ℕ → Option Chip
unfolding is_better
find_name [] query best best_len = best
find_name (c ∷ cs) query best best_len =
    let better = is_better c query best best_len in
    find_name cs query (if better then some c else best)
      (if better then length c.name else best_len)

-- A null pointer and an empty name find nothing.
unfoldable pub by_name : Option (List ℕ) → Option Chip
unfolding find_name name_matches chips
by_name none = none
by_name (some []) = none
by_name (some (c ∷ name)) = find_name chips (c ∷ name) none 0

name_max_from : List Chip → ℕ → ℕ
name_max_from [] most = most
name_max_from (c ∷ cs) most =
    name_max_from cs (if ltb most (length c.name) then length c.name else most)

pub name_max : ℕ
unfolding name_max_from
name_max = name_max_from chips 0

-- Two entries of the table are at the same address if they have the same name.
same_entry : Option Chip → Option Chip → Bool
unfolding list_eq
same_entry none cb = false
same_entry (some a) none = false
same_entry (some a) (some b) = list_eq a.name b.name

pub same : Option (List ℕ) → Option (List ℕ) → Bool
unfolding same_entry
same a b = same_entry (by_name a) (by_name b)

-- What the loop has found so far: no match at all, or a longest one.
abbrev pub NoLonger : List Chip → List ℕ → ℕ → Type 0
NoLonger cs query n =
    (i : ℕ) (d : Chip) → IsEntry cs i d → name_matches d.name query ≡ true → length d.name ≤ n

abbrev pub IsBest : List Chip → List ℕ → Chip → Type 0
IsBest cs query c =
    ((i : ℕ) × IsEntry cs i c)
    × (name_matches c.name query ≡ true)
    × NoLonger cs query (length c.name)

abbrev pub NoMatch : List Chip → List ℕ → Type 0
NoMatch cs query = (i : ℕ) (d : Chip) → IsEntry cs i d → name_matches d.name query ≡ false

-- What the loop makes of the rest of the table when it holds a match already.
abbrev Found : List Chip → List ℕ → Chip → Chip → Type 0
Found cs query best c =
    ((c ≡ best) ⊎ (((i : ℕ) × IsEntry cs i c) × (name_matches c.name query ≡ true)))
    × NoLonger cs query (length c.name)
    × (length best.name ≤ length c.name)

NoLonger-cons :
    (d : Chip) (cs : List Chip) (query : List ℕ) (n : ℕ)
    → (name_matches d.name query ≡ true → length d.name ≤ n)
    → NoLonger cs query n
    → NoLonger (d ∷ cs) query n
NoLonger-cons d cs query n h t zero e at m =
    subst (λ (x : Chip). name_matches x.name query ≡ true → length x.name ≤ n)
      (some-injective d e at) h m
NoLonger-cons d cs query n h t (suc i) e at m = t i e at m

better_lem :
    (d : Chip) (query : List ℕ) (best : Chip) (n : ℕ)
    → is_better d query (some best) n ≡ true
    → (name_matches d.name query ≡ true) × (n < length d.name)
unfolding is_better
better_lem d query best n h = ground arith

worse_lem :
    (d : Chip) (query : List ℕ) (best : Chip) (n : ℕ)
    → is_better d query (some best) n ≡ false
    → name_matches d.name query ≡ true
    → length d.name ≤ n
unfolding is_better
worse_lem d query best n h m = ground arith

from_rest :
    (d : Chip) (cs : List Chip) (query : List ℕ) (c : Chip)
    → name_matches d.name query ≡ true
    → (c ≡ d) ⊎ (((i : ℕ) × IsEntry cs i c) × (name_matches c.name query ≡ true))
    → ((i : ℕ) × IsEntry (d ∷ cs) i c) × (name_matches c.name query ≡ true)
from_rest d cs query c m (inl e) = ((0, cc), rw e m)
from_rest d cs query c m (inr h) = ((suc h.0.0, h.0.1), h.1)

later :
    (best d : Chip) (cs : List Chip) (query : List ℕ) (c : Chip)
    → (c ≡ best) ⊎ (((i : ℕ) × IsEntry cs i c) × (name_matches c.name query ≡ true))
    → (c ≡ best) ⊎ (((i : ℕ) × IsEntry (d ∷ cs) i c) × (name_matches c.name query ≡ true))
later best d cs query c (inl e) = inl e
later best d cs query c (inr h) = inr ((suc h.0.0, h.0.1), h.1)

find_name-some :
    (cs : List Chip) (query : List ℕ) (best : Chip)
    → (c : Chip) × (find_name cs query (some best) (length best.name) ≡ some c)
      × Found cs query best c
unfolding find_name
find_name-some [] query best = (best, refl, (inl refl, λ i d e. cc, omega arith))
find_name-some (d ∷ cs) query best =
    elim (Bool-cases (is_better d query (some best) (length best.name))) [
      | inl yes_ ↦
          let r = find_name-some cs query d in
          let b = better_lem d query best (length best.name) yes_ in
          rw yes_ (
            r.0,
            r.1,
            (
              inr (from_rest d cs query r.0 b.0 r.2.0),
              NoLonger-cons d cs query (length r.0.name) (λ _. r.2.2) r.2.1,
              omega (arith, r.2.2, b.1),
            ),
          )
      | inr no_ ↦
          let r = find_name-some cs query best in
          rw no_ (
            r.0,
            r.1,
            (
              later best d cs query r.0 r.2.0,
              NoLonger-cons d cs query (length r.0.name)
                  (λ m. omega (arith, r.2.2, worse_lem d query best (length best.name) no_ m))
                  r.2.1,
              r.2.2,
            ),
          )
    ]

first_match :
    (d : Chip) (query : List ℕ) (n : ℕ) → is_better d query none n ≡ name_matches d.name query
unfolding is_better
first_match d query n = ground arith

abbrev Outcome : List Chip → List ℕ → Option Chip → Type 0
Outcome cs query r =
    ((c : Chip) × (r ≡ some c) × IsBest cs query c) ⊎ ((r ≡ none) × NoMatch cs query)

NoMatch-cons :
    (d : Chip) (cs : List Chip) (query : List ℕ)
    → name_matches d.name query ≡ false
    → NoMatch cs query
    → NoMatch (d ∷ cs) query
NoMatch-cons d cs query h t zero e at =
    subst (λ (x : Chip). name_matches x.name query ≡ false) (some-injective d e at) h
NoMatch-cons d cs query h t (suc i) e at = t i e at

Outcome-skip :
    (d : Chip) (cs : List Chip) (query : List ℕ) (r : Option Chip)
    → name_matches d.name query ≡ false
    → Outcome cs query r
    → Outcome (d ∷ cs) query r
Outcome-skip d cs query r miss (inl (c, e, b)) =
    inl (c, e, ((suc b.0.0, b.0.1), b.1, NoLonger-cons d cs query (length c.name) (λ m. cc) b.2))
Outcome-skip d cs query r miss (inr (e, t)) = inr (e, NoMatch-cons d cs query miss t)

-- Before any match: a longest matching entry is found, or no entry matches.
find_name-Outcome : (cs : List Chip) (query : List ℕ) → Outcome cs query (find_name cs query none 0)
unfolding find_name
find_name-Outcome [] query = inr (refl, λ i d e. cc)
find_name-Outcome (d ∷ cs) query = elim (Bool-cases (name_matches d.name query)) [
  | inl hit ↦
      let r = find_name-some cs query d in
      let from = from_rest d cs query r.0 hit r.2.0 in
      rw (first_match d query 0, hit)
        (inl (
          r.0,
          r.1,
          (from.0, from.1, NoLonger-cons d cs query (length r.0.name) (λ _. r.2.2) r.2.1),
        ))
  | inr miss ↦
      rw (first_match d query 0, miss)
        (Outcome-skip d cs query (find_name cs query none 0) miss (find_name-Outcome cs query))
]

-- The result is the longest entry that `name_matches` accepts, if there is one.
pub by_name_longest :
    (a : ℕ) (name : List ℕ)
    → ((c : Chip) × (by_name (some (a ∷ name)) ≡ some c) × IsBest chips (a ∷ name) c)
      ⊎ ((by_name (some (a ∷ name)) ≡ none) × NoMatch chips (a ∷ name))
by_name_longest a name = rw (by_name_lem a name) (find_name-Outcome chips (a ∷ name))
  where
    by_name_lem : (x : ℕ) (y : List ℕ) → by_name (some (x ∷ y)) ≡ find_name chips (x ∷ y) none 0
    by_name_lem x y = unfold by_name in refl
