-- ===== src/Status.antt =====
-- `enum wl_status` (src/linke.h) and the calls that return one.
pub mod Preserves
pub mod Simulates
use libopenwch_tools.Prelude.{◌≡◌, refl}
use Prim.Native.String.{String}

-- The values of the enum other than WL_OK.
pub data Error : Type 0 where
  usage no_device access usb io target verify not_implemented : Error

-- A call that returns a status and fills its out-parameter where the status is WL_OK (`ok`).
pub data Result {ℓ} (A : Type ℓ) : Type ℓ where
  ok : A → Result A
  err : Error → Result A

-- A call on a state that it changes also where it fails.
abbrev pub Action {ℓ κ} : Type ℓ → Type κ → Type (ℓ ⊔ κ)
Action S A = S → Result A × S

abbrev pub ⊤ : Type 0
⊤ = Unit

module _ {ℓ} {S A : Type ℓ} where
  abbrev pub pure : A → Action S A
  pure a s = (ok a, s)

  abbrev pub fail : Error → Action S A
  fail e s = (err e, s)

  -- `(void)call(...)`: the status is dropped, and what the call changed stays.
  abbrev pub ignore : Action S A → Action S (Unit {0})
  ignore m s = (ok tt, (m s).1)

-- `if (status != WL_OK) return status;` between two calls.
infixl 5 ◌>>=◌ ◌>>◌
abbrev pub ◌>>=◌ {ℓ κ} : {S A : Type ℓ} {B : Type κ} → Action S A → (A → Action S B) → Action S B
◌>>=◌ m f s = let (r, s') = m s in elim r [ ok a ↦ f a s' | err e ↦ (err e, s') ]

abbrev pub ◌>>◌ {ℓ κ} : {S A : Type ℓ} {B : Type κ} → Action S A → Action S B → Action S B
m >> k = m >>= λ _. k

-- `wl_status_str`
pub status_str : Result ⊤ → String
status_str (ok _) = "ok"
status_str (err usage) = "bad command line"
status_str (err no_device) = "no programmer found"
status_str (err access) = "programmer not accessible"
status_str (err usb) = "USB error"
status_str (err io) = "programmer error"
status_str (err target) = "target error"
status_str (err verify) = "verification failed"
status_str (err not_implemented) = "not implemented yet"

-- A clean-up that is made whatever the status, which is the one that is returned.
abbrev pub finally {ℓ} : {S A B : Type ℓ} → Action S A → Action S B → Action S A
finally m cleanup s = let (r, s') = m s in (r, (cleanup s').1)

-- What follows a call, from its result: `(m >>= f) s` is `go_on f (m s)`.
abbrev pub go_on : {S A B : Type 0} → (A → Action S B) → Result A × S → Result B × S
go_on f p = elim p.0 [ ok a ↦ f a p.1 | err e ↦ (err e, p.1) ]

-- What holds of the value and the state where a call succeeds.
abbrev pub Post : {S A : Type 0} → (A → S → Type 0) → Result A × S → Type 0
Post {A} Q p = (a : A) → p.0 ≡ ok a → Q a p.1

pub Post-go_on :
    {S A B : Type 0} (Q : A → S → Type 0) (R : B → S → Type 0) (f : A → Action S B)
    (p : Result A × S)
    → Post Q p
    → ((a : A) (s : S) → Q a s → Post R (f a s))
    → Post R (go_on f p)
Post-go_on Q R f (ok a, s) h k = k a s (h a refl)
Post-go_on Q R f (err e, s) h k = λ b q. cc
