-- ===== src/Gdb/Breakpoint/Restore.antt =====
-- A breakpoint that is set and then removed.
use libopenwch_tools.Prelude.{
  ℕ, zero, suc, ◌+◌, ◌-◌, ◌%◌, ◌<◌, ◌≡◌, refl, sym, ap, ◌∙◌, ◌⊎◌, inl, inr, Bool, true, false, ◌&&◌,
  ◌||◌, List, [], ◌∷◌, ◌==◌, leb, ltb, if◌then◌else◌, map, length, get_or, All, arith, Bool-cases,
  eq→==,
}
use mathlib.Core.Path.{subst}
use libopenwch_tools.Status.{ok}
use libopenwch_tools.Dm.Memory.Block.{bytes_from, length-bytes_from, get_or-bytes_from}
use libopenwch_tools.Gdb.Breakpoint.{
  Breakpoint, Memory, Outcome, after_slot, replacement, taken, saved, insert_into, insert, released,
  remove,
}

-- `contents` is what the memory holds in a state that satisfies `Inv`: over a range that `Fits`, a
-- read gives it and a patch changes just the bytes of the range.
pub record IsMemory {S : Type 0} (M : Memory S) (Inv : S → Type 0) (Fits : ℕ → ℕ → Type 0)
    (contents : S → ℕ → ℕ) : Type 0 where
  pub byte_lt : (s : S) → Inv s → (x : ℕ) → contents s x < 256
  pub reads :
      (a n : ℕ) (s : S)
      → Inv s
      → Fits a n
      → (s' : S) × (M.read a n s ≡ (ok (bytes_from (contents s) a n), s'))
        × ((x : ℕ) → contents s' x ≡ contents s x)
        × Inv s'
  pub patches :
      (a : ℕ) (bytes : List ℕ) (s : S)
      → Inv s
      → Fits a (length bytes)
      → All (λ b. b < 256) bytes
      → (s' : S) × (M.patch a bytes s ≡ (ok tt, s'))
        × ((x : ℕ)
            → contents s' x ≡ (
                if leb a x && ltb x (a + length bytes)
                then get_or bytes (x - a) 0
                else contents s x))
        × Inv s'

-- A slot is not a breakpoint of this kind at this address.
abbrev pub IsOther : ℕ → ℕ → Breakpoint → Type 0
IsOther address kind bp = bp.used && ((bp.address == address) && (bp.kind == kind)) ≡ false

abbrev pub uses : List Breakpoint → List Bool
uses table = map (λ (bp : Breakpoint). bp.used) table

abbrev pub is_full : List Breakpoint → Bool
is_full [] = true
is_full (bp ∷ table) = bp.used && is_full table

module _ {S : Type 0} {M : Memory S} {Inv : S → Type 0} {Fits : ℕ → ℕ → Type 0}
    {contents : S → ℕ → ℕ} (lawful : IsMemory M Inv Fits contents) where
  -- What the theorem says, of any way to insert.
  abbrev Restores : ℕ → ℕ → List Breakpoint → S → Outcome S → Type 0
  Restores address kind table s o =
      (o.answer ≡ true)
      × ((x : ℕ)
          → contents o.state x ≡ (
              if leb address x && ltb x (address + kind)
              then get_or (replacement kind) (x - address) 0
              else contents s x))
      × ((remove M address kind o.table o.state).answer ≡ true)
      × ((x : ℕ) → contents (remove M address kind o.table o.state).state x ≡ contents s x)
      × (uses (remove M address kind o.table o.state).table ≡ uses table)

  later_lem :
      (address kind : ℕ) (bp : Breakpoint) (table : List Breakpoint) (s : S) (o : Outcome S)
      → IsOther address kind bp
      → Restores address kind table s o
      → Restores address kind (bp ∷ table) s (after_slot bp o)
  unfolding remove
  later_lem address kind bp table s o other r =
      rw other (r.0, r.1, r.2, r.3, ap (λ flags. bp.used ∷ flags) r.4)

  length-replacement : (kind : ℕ) → (kind ≡ 2) ⊎ (kind ≡ 4) → length (replacement kind) ≡ kind
  unfolding replacement
  length-replacement kind (inl e) = rw e refl
  length-replacement kind (inr e) = rw e refl

  replacement-Bytes : (kind : ℕ) → All (λ b. b < 256) (replacement kind)
  unfolding replacement
  replacement-Bytes kind = elim (Bool-cases (kind == 4)) [
    | inl e ↦ rw e (omega arith, (omega arith, (omega arith, (omega arith, tt))))
    | inr e ↦ rw e (omega arith, (omega arith, tt))
  ]

  held-Bytes : (s : S) (a n : ℕ) → Inv s → All (λ b. b < 256) (bytes_from (contents s) a n)
  held-Bytes s a zero inv = tt
  held-Bytes s a (suc n) inv = (lawful.byte_lt s inv a, held-Bytes s (a + 1) n inv)

  first_lem :
      (address kind : ℕ) (bp : Breakpoint) (table : List Breakpoint) (s : S)
      → Inv s
      → Fits address kind
      → (kind ≡ 2) ⊎ (kind ≡ 4)
      → bp.used ≡ false
      → Restores address kind (bp ∷ table) s (saved M address kind bp table (M.read address kind s))
  unfolding saved taken remove released
  first_lem address kind bp table s inv fits size free =
      let r = lawful.reads address kind s inv fits in
      let len = length-replacement kind size in
      let p =
        lawful.patches address (replacement kind) r.0 r.3 (subst (Fits address) (sym len) fits)
          (replacement-Bytes kind) in
      let orig : List ℕ = bytes_from (contents s) address kind in
      let olen : length orig ≡ kind = length-bytes_from (contents s) address kind in
      let q =
        lawful.patches address orig p.0 p.3 (subst (Fits address) (sym olen) fits)
          (held-Bytes s address kind inv) in
      let set_bp : Breakpoint = record {
        used = true;
        address = address;
        kind = kind;
        original = orig;
      } in
      let e1 : saved M address kind bp table (M.read address kind s)
          ≡ record { answer = true; state = p.0; table = set_bp ∷ table } =
        ap (saved M address kind bp table) r.1
        ∙ ap (taken M address kind (record bp { original = orig }) table) p.1 in
      let e2 : remove M address kind (set_bp ∷ table) p.0
          ≡ record { answer = true; state = q.0; table = record set_bp { used = false } ∷ table } =
        rw (eq→== address address refl, eq→== kind kind refl) (ap (released M set_bp table) q.1) in
      let back : (x : ℕ) → contents q.0 x ≡ contents s x = λ x.
        (let held =
            restored (contents q.0 x) (contents p.0 x) (contents r.0 x) x orig refl olen (q.2 x)
              (p.2 x) len (r.2 x) in
          held) in
      subst (Restores address kind (bp ∷ table) s) (sym e1) (
        refl,
        λ x. let v = p.2 x in rw (len, r.2 x) at v,
        ap (λ (o : Outcome S). o.answer) e2,
        λ x. ap (λ (o : Outcome S). contents o.state x) e2 ∙ back x,
        ap (λ (o : Outcome S). uses o.table) e2 ∙ ap (λ b. b ∷ uses table) (sym free),
      )
    where
      restored :
          (u v w x : ℕ) (orig : List ℕ)
          → orig ≡ bytes_from (contents s) address kind
          → length orig ≡ kind
          → u ≡ (
              if leb address x && ltb x (address + length orig)
              then get_or orig (x - address) 0
              else v)
          → v ≡ (
              if leb address x && ltb x (address + length (replacement kind))
              then get_or (replacement kind) (x - address) 0
              else w)
          → length (replacement kind) ≡ kind
          → w ≡ contents s x
          → u ≡ contents s x
      restored u v w x orig eq olen hu hv len hw =
          elim (Bool-cases (leb address x && ltb x (address + kind))) [
            | inl b ↦
                let i : x - address < kind = ground arith in
                let back : address + (x - address) ≡ x = ground arith in
                let g : get_or orig (x - address) 0 ≡ contents s x =
                  ap (λ bytes. get_or bytes (x - address) 0) eq
                  ∙ get_or-bytes_from (contents s) address kind (x - address) i
                  ∙ ap (contents s) back in
                let hu' : u ≡ get_or orig (x - address) 0 = rw b at (rw olen at hu) in hu' ∙ g
            | inr b ↦
                let hu' : u ≡ v = rw b at (rw olen at hu) in
                let hv' : v ≡ w = rw b at (rw len at hv) in hu' ∙ hv' ∙ hw
          ]

  insert_into-Restores :
      (address kind : ℕ) (table : List Breakpoint) (s : S)
      → Inv s
      → Fits address kind
      → (kind ≡ 2) ⊎ (kind ≡ 4)
      → is_full table ≡ false
      → All (IsOther address kind) table
      → Restores address kind table s (insert_into M address kind table s)
  unfolding insert_into
  insert_into-Restores address kind [] s inv fits size room others = cc
  insert_into-Restores address kind (bp ∷ table) s inv fits size room others =
      elim (Bool-cases bp.used) [
        | inl used ↦
            let rest : Outcome S = insert_into M address kind table s in
            let first : Outcome S = saved M address kind bp table (M.read address kind s) in
            let e : (if bp.used then after_slot bp rest else first) ≡ after_slot bp rest =
              ap (λ b. if b then after_slot bp rest else first) used in
            let room' : is_full table ≡ false = rw used at room in
            subst (Restores address kind (bp ∷ table) s) (sym e) (
              later_lem address kind bp table s rest others.0
                (insert_into-Restores address kind table s inv fits size room' others.1))
        | inr free ↦
            let rest : Outcome S = insert_into M address kind table s in
            let first : Outcome S = saved M address kind bp table (M.read address kind s) in
            let e : (if bp.used then after_slot bp rest else first) ≡ first =
              ap (λ b. if b then after_slot bp rest else first) free in
            subst (Restores address kind (bp ∷ table) s) (sym e)
              (first_lem address kind bp table s inv fits size free)
      ]

  -- Over a memory that can be read and patched, as above.
  pub insert-remove :
      (address kind : ℕ) (table : List Breakpoint) (s : S)
      → Inv s
      → Fits address kind
      → (kind ≡ 2) ⊎ (kind ≡ 4)
      → address % kind ≡ 0
      → is_full table ≡ false
      → All (IsOther address kind) table
      → Restores address kind table s (insert M address kind table s)
  unfolding insert
  insert-remove address kind table s inv fits size aligned room others =
      let refused : Outcome S = record { answer = false; state = s; table = table } in
      let valid : ((kind == 2) || (kind == 4)) && (address % kind == 0) ≡ true =
        ap (λ b. b && (address % kind == 0)) (valid_kind size) ∙ eq→== (address % kind) 0 aligned in
      let e : (if ((kind == 2) || (kind == 4)) && (address % kind == 0)
            then insert_into M address kind table s
            else refused)
          ≡ insert_into M address kind table s =
        ap (λ b. if b then insert_into M address kind table s else refused) valid in
      subst (Restores address kind table s) (sym e)
        (insert_into-Restores address kind table s inv fits size room others)
    where
      valid_kind : (kind ≡ 2) ⊎ (kind ≡ 4) → (kind == 2) || (kind == 4) ≡ true
      valid_kind size = ground arith
