-- ===== src/Target/Name/Longest.antt =====
-- The prefix test of `wl_chip_by_name` (src/target.c), in terms of the letters.
use libopenwch_tools.Prelude.{
  ℕ, zero, suc, ◌-◌, ◌≤◌, ◌<◌, ◌≡◌, ◌⊎◌, inl, inr, refl, true, ◌&&◌, ◌==◌, none, some, List, [],
  ◌∷◌, arith, leb, if◌then◌else◌, length, get_or, ==→eq, eq→==,
}
use libopenwch_tools.Target.Table.{Chip, chips}
use libopenwch_tools.Target.Detect.{IsEntry}
use libopenwch_tools.Target.Name.{tolower, name_matches, by_name, by_name_longest}

-- The capital of an ASCII letter, and every other byte as it is.
abbrev pub upper : ℕ → ℕ
upper c = if leb b'a' c && leb c b'z' then c - 32 else c

-- The query is at least as long as the name and agrees with it byte for byte, whatever the case.
abbrev pub IsPrefix : List ℕ → List ℕ → Type 0
IsPrefix name query =
    (length name ≤ length query)
    × ((i : ℕ) → i < length name → upper (get_or name i 0) ≡ upper (get_or query i 0))

tolower-upper : (a b : ℕ) → tolower a ≡ tolower b → upper a ≡ upper b
unfolding tolower
tolower-upper a b h = ground arith

upper-tolower : (a b : ℕ) → upper a ≡ upper b → tolower a ≡ tolower b
unfolding tolower
upper-tolower a b h = ground arith

name_matches-IsPrefix : (name query : List ℕ) → name_matches name query ≡ true → IsPrefix name query
unfolding name_matches
name_matches-IsPrefix [] query h = (omega arith, λ i l. absurd (omega arith))
name_matches-IsPrefix (a ∷ name) [] h = absurd cc
name_matches-IsPrefix (a ∷ name) (b ∷ query) h =
    let same : (tolower a == tolower b) ≡ true = ground arith in
    let rest = name_matches-IsPrefix name query (ground arith) in
    let first : upper a ≡ upper b = tolower-upper a b (==→eq _ _ same) in
    (omega (arith, rest.0), λ i l. by_place i l first rest.1)
  where
    by_place :
        (i : ℕ)
        → i < length (a ∷ name)
        → upper a ≡ upper b
        → ((j : ℕ) → j < length name → upper (get_or name j 0) ≡ upper (get_or query j 0))
        → upper (get_or (a ∷ name) i 0) ≡ upper (get_or (b ∷ query) i 0)
    by_place zero l first rest = first
    by_place (suc i) l first rest = rest i (omega arith)

IsPrefix-name_matches : (name query : List ℕ) → IsPrefix name query → name_matches name query ≡ true
unfolding name_matches
IsPrefix-name_matches [] query p = refl
IsPrefix-name_matches (a ∷ name) [] p = absurd (omega (arith, p.0))
IsPrefix-name_matches (a ∷ name) (b ∷ query) p =
    let first : tolower a ≡ tolower b = upper-tolower a b (p.1 0 (omega arith)) in
    let rest =
      IsPrefix-name_matches name query (omega (arith, p.0), λ i l. p.1 (suc i) (omega arith)) in
    rw (eq→== (tolower a) (tolower b) first) rest

-- An entry of the table that is a prefix of the query, and as long as any other such entry.
abbrev pub IsLongest : List Chip → List ℕ → Chip → Type 0
IsLongest cs query c =
    ((i : ℕ) × IsEntry cs i c)
    × IsPrefix c.name query
    × ((i : ℕ) (d : Chip) → IsEntry cs i d → IsPrefix d.name query → length d.name ≤ length c.name)

abbrev pub NoPrefix : List Chip → List ℕ → Type 0
NoPrefix cs query = (i : ℕ) (d : Chip) → IsEntry cs i d → ¬ IsPrefix d.name query

-- A name that is not empty resolves to an entry of the table that is a prefix of it, whatever the
-- case of the letters, and to one of the longest such entries; or no entry of the table is a
-- prefix of it and the result is null.
pub by_name-IsLongest :
    (a : ℕ) (name : List ℕ)
    → ((c : Chip) × (by_name (some (a ∷ name)) ≡ some c) × IsLongest chips (a ∷ name) c)
      ⊎ ((by_name (some (a ∷ name)) ≡ none) × NoPrefix chips (a ∷ name))
by_name-IsLongest a name = elim (by_name_longest a name) [
  | inl (c, e, b) ↦ inl (
    c,
    e,
    (
      b.0,
      name_matches-IsPrefix c.name (a ∷ name) b.1,
      λ i d at p. b.2 i d at (IsPrefix-name_matches d.name (a ∷ name) p),
    ),
  )
  | inr (e, t) ↦
      inr
        (e, λ i d at p. let m = IsPrefix-name_matches d.name (a ∷ name) p in let n = t i d at in cc)
]
