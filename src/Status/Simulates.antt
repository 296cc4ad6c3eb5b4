-- ===== src/Status/Simulates.antt =====
-- Calls on two states that answer alike: what relates the states before relates them after.
use libopenwch_tools.Prelude.{◌≡◌, refl, ap, ◌∙◌, Bool, true, false, if◌then◌else◌}
use mathlib.Core.Path.{subst}
use libopenwch_tools.Status.{
  Action, Error, Result, ok, err, pure, fail, ignore, finally, go_on, ◌>>=◌, ◌>>◌,
}

module _ {S T : Type 0} (R : S → T → Type 0) where
  -- The same result, of which `P` holds where it is a success, and related states.
  pub record Follows {A : Type 0} (P : A → Type 0) (p : Result A × S) (q : Result A × T)
      : Type 0 where
    pub same : p.0 ≡ q.0
    pub related : R p.1 q.1
    pub value : (a : A) → p.0 ≡ ok a → P a

  pub record Simulates {A : Type 0} (P : A → Type 0) (m : Action S A) (n : Action T A)
      : Type 0 where
    pub run : (s : S) (t : T) → R s t → Follows P (m s) (n t)

  -- Nothing is said of the value.
  abbrev pub Any : {A : Type 0} → A → Type 0
  Any a = Unit

  from_ok : {A : Type 0} → A → Result A → A
  from_ok d (ok a) = a
  from_ok d (err e) = d

  ok-injective : {A : Type 0} (a b : A) → ok a ≡ ok b → a ≡ b
  unfolding from_ok
  ok-injective a b q = ap (from_ok a) q

  pub pure-Follows :
      {A : Type 0} {P : A → Type 0} (a : A) (s : S) (t : T)
      → P a
      → R s t
      → Follows P (ok a, s) (ok a, t)
  pure-Follows {A} {P} a s t p r = record {
    same = refl;
    related = r;
    value = λ b e. subst P (ok-injective a b e) p;
  }

  pub fail-Follows :
      {A : Type 0} {P : A → Type 0} (e : Error) (s : S) (t : T)
      → R s t
      → Follows P (err e, s) (err e, t)
  fail-Follows e s t r = record { same = refl; related = r; value = λ b q. cc }

  pub pure-Simulates : {A : Type 0} {P : A → Type 0} (a : A) → P a → Simulates P (pure a) (pure a)
  pure-Simulates a p = record { run = λ s t r. pure-Follows a s t p r }

  pub fail-Simulates : {A : Type 0} {P : A → Type 0} (e : Error) → Simulates P (fail e) (fail e)
  fail-Simulates e = record { run = λ s t r. fail-Follows e s t r }

  pub go_on-Follows :
      {A B : Type 0} {P : A → Type 0} {Q : B → Type 0} (f : A → Action S B) (g : A → Action T B)
      (p : Result A × S) (q : Result A × T)
      → Follows P p q
      → ((a : A) → P a → Simulates Q (f a) (g a))
      → Follows Q (go_on f p) (go_on g q)
  go_on-Follows {Q} f g (ok a, s) (ok b, t) h k =
      subst (λ c. Follows Q (f a s) (g c t)) (ok-injective a b h.same)
        ((k a (h.value a refl)).run s t h.related)
  go_on-Follows f g (ok a, s) (err e, t) h k = absurd (cc)
  go_on-Follows f g (err e, s) (ok b, t) h k = absurd (cc)
  go_on-Follows f g (err e, s) (err d, t) h k = record {
    same = cc;
    related = h.related;
    value = λ b q. cc;
  }

  pub bind-Simulates :
      {A B : Type 0} {P : A → Type 0} {Q : B → Type 0} {m : Action S A} {n : Action T A}
      {f : A → Action S B} {g : A → Action T B}
      → Simulates P m n
      → ((a : A) → P a → Simulates Q (f a) (g a))
      → Simulates Q (m >>= f) (n >>= g)
  bind-Simulates {m} {n} {f} {g} h k = record {
    run = λ s t r. go_on-Follows f g (m s) (n t) (h.run s t r) k;
  }

  -- Only the states are carried on.
  pub then-Simulates :
      {A B : Type 0} {P : A → Type 0} {Q : B → Type 0} {m : Action S A} {n : Action T A}
      {f : Action S B} {g : Action T B}
      → Simulates P m n
      → Simulates Q f g
      → Simulates Q (m >> f) (n >> g)
  then-Simulates h k = bind-Simulates h (λ a p. k)

  pub ignore-Simulates :
      {A : Type 0} {P : A → Type 0} {m : Action S A} {n : Action T A}
      → Simulates P m n
      → Simulates Any (ignore m) (ignore n)
  ignore-Simulates {m} {n} h = record {
    run = λ s t r. pure-Follows tt (m s).1 (n t).1 tt (h.run s t r).related;
  }

  pub finally-Simulates :
      {A B : Type 0} {P : A → Type 0} {Q : B → Type 0} {m : Action S A} {n : Action T A}
      {f : Action S B} {g : Action T B}
      → Simulates P m n
      → Simulates Q f g
      → Simulates P (finally m f) (finally n g)
  finally-Simulates {m} {n} h k = record {
    run = λ s t r.
        let p = h.run s t r in
        record {
          same = p.same;
          related = (k.run (m s).1 (n t).1 p.related).related;
          value = p.value;
        };
  }

  pub if-Simulates :
      {A : Type 0} {P : A → Type 0} (b : Bool) {m m' : Action S A} {n n' : Action T A}
      → Simulates P m n
      → Simulates P m' n'
      → Simulates P (if b then m else m') (if b then n else n')
  if-Simulates true h k = h
  if-Simulates false h k = k

  pub weaken-Simulates :
      {A : Type 0} {P : A → Type 0} {m : Action S A} {n : Action T A}
      → Simulates P m n
      → Simulates Any m n
  weaken-Simulates h = record {
    run = λ s t r.
        let f = h.run s t r in record { same = f.same; related = f.related; value = λ a e. tt };
  }

module _ {S T V : Type 0} (Q : S → T → Type 0) (R : T → V → Type 0) where
  -- Related through a state between them.
  abbrev pub Through : S → V → Type 0
  Through s v = (t : T) × Q s t × R t v

  pub compose-Simulates :
      {A : Type 0} {P O : A → Type 0} {m : Action S A} {n : Action T A} {k : Action V A}
      → Simulates Q P m n
      → Simulates R O n k
      → Simulates Through P m k
  compose-Simulates {n} h j = record {
    run = λ s v r.
        let f = h.run s r.0 r.1 in
        let g = j.run r.0 v r.2 in
        record {
          same = f.same ∙ g.same;
          related = ((n r.0).1, f.related, g.related);
          value = f.value;
        };
  }
