-- ===== src/Status/Preserves.antt =====
-- Calls that keep what holds of the state, whatever they return.
use libopenwch_tools.Prelude.{Bool, true, false, if◌then◌else◌}
use libopenwch_tools.Status.{
  Action, Error, Result, ok, err, pure, fail, ignore, finally, go_on, ◌>>=◌, ◌>>◌,
}

-- `P` holds of the state after the call where it holds before.
pub record Preserves {S : Type 0} (P : S → Type 0) {A : Type 0} (m : S → A × S) : Type 0 where
  pub run : (s : S) → P s → P (m s).1

module _ {S : Type 0} {P : S → Type 0} where
  pub pure-Preserves : {A : Type 0} (a : A) → Preserves P (pure {S = S} a)
  pure-Preserves a = record { run = λ s p. p }

  pub fail-Preserves : {A : Type 0} (e : Error) → Preserves P (fail {S = S} {A = A} e)
  fail-Preserves e = record { run = λ s p. p }

  go_on-Preserves :
      {A B : Type 0} (f : A → Action S B) (p : Result A × S)
      → P p.1
      → ((a : A) → Preserves P (f a))
      → P (go_on f p).1
  go_on-Preserves f (ok a, s) h k = (k a).run s h
  go_on-Preserves f (err e, s) h k = h

  pub bind-Preserves :
      {A B : Type 0} {m : Action S A} {f : A → Action S B}
      → Preserves P m
      → ((a : A) → Preserves P (f a))
      → Preserves P (m >>= f)
  bind-Preserves {m} {f} h k = record { run = λ s p. go_on-Preserves f (m s) (h.run s p) k }

  pub then-Preserves :
      {A B : Type 0} {m : Action S A} {n : Action S B}
      → Preserves P m
      → Preserves P n
      → Preserves P (m >> n)
  then-Preserves h k = bind-Preserves h (λ a. k)

  pub ignore-Preserves : {A : Type 0} {m : Action S A} → Preserves P m → Preserves P (ignore m)
  ignore-Preserves h = record { run = λ s p. h.run s p }

  pub finally-Preserves :
      {A B : Type 0} {m : Action S A} {n : Action S B}
      → Preserves P m
      → Preserves P n
      → Preserves P (finally m n)
  finally-Preserves {m} h k = record { run = λ s p. k.run (m s).1 (h.run s p) }

  pub if-Preserves :
      {A : Type 0} (b : Bool) {m n : S → A × S}
      → Preserves P m
      → Preserves P n
      → Preserves P (if b then m else n)
  if-Preserves true h k = h
  if-Preserves false h k = k

pub ruleset preserves = (
  pure-Preserves, fail-Preserves, bind-Preserves, then-Preserves, ignore-Preserves,
  finally-Preserves, if-Preserves,
)
