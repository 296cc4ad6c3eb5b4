-- ===== src/Dm/Command/Wait.antt =====
-- The wait for an abstract command, against a debug module that answers every poll.
use libopenwch_tools.Prelude.{
  ℕ, zero, suc, ◌<◌, ◌≡◌, ◌≢◌, refl, ap, ◌∙◌, arith, ◌==◌, if◌then◌else◌, bit_and,
}
use libopenwch_tools.Status.{Action, ok, err, target, go_on}
use libopenwch_tools.Dm.Command.{
  Dmi, abstractcs, busy_mask, cmderr_mask, poll, unless_idle, finish_wait, wait_for,
}

module _ {S : Type 0} (D : Dmi S) where
  -- Poll number `i` is made in `state i` and finds `answer i` in abstractcs.
  abbrev pub Polls : (ℕ → S) → (ℕ → ℕ) → Type 0
  Polls state answer = (i : ℕ) → D.read abstractcs (state i) ≡ (ok (answer i), state (suc i))

  poll-suc :
      (n last cs : ℕ) (s s' : S)
      → D.read abstractcs s ≡ (ok cs, s')
      → poll D (suc n) last s ≡ unless_idle D (poll D n) cs s'
  unfolding poll
  poll-suc n last cs s s' e = ap (go_on (unless_idle D (poll D n))) e

  idle_lem :
      (next : ℕ → Action S ℕ) (cs : ℕ) (s : S)
      → bit_and cs busy_mask ≡ 0
      → unless_idle D next cs s ≡ (ok cs, s)
  unfolding unless_idle
  idle_lem next cs s h = ground arith

  busy_lem :
      (next : ℕ → Action S ℕ) (cs : ℕ) (s : S)
      → bit_and cs busy_mask ≢ 0
      → unless_idle D next cs s ≡ next cs s
  unfolding unless_idle
  busy_lem next cs s h = ground arith

  -- The first answer that is not busy ends the loop.
  poll-idle :
      (state : ℕ → S) (answer : ℕ → ℕ) (k n last : ℕ)
      → Polls state answer
      → k < n
      → ((j : ℕ) → j < k → bit_and (answer j) busy_mask ≢ 0)
      → bit_and (answer k) busy_mask ≡ 0
      → poll D n last (state 0) ≡ (ok (answer k), state (suc k))
  poll-idle state answer k zero last polls h busy idle = elim h [ ]
  poll-idle state answer zero (suc n) last polls h busy idle =
      poll-suc n last (answer 0) (state 0) (state 1) (polls 0)
      ∙ idle_lem (poll D n) (answer 0) (state 1) idle
  poll-idle state answer (suc k) (suc n) last polls h busy idle =
      poll-suc n last (answer 0) (state 0) (state 1) (polls 0)
      ∙ busy_lem (poll D n) (answer 0) (state 1) (busy 0 (omega arith))
      ∙ poll-idle (λ i. state (suc i)) (λ i. answer (suc i)) k n (answer 0) (λ i. polls (suc i))
          (omega arith) (λ j l. busy (suc j) (omega arith)) idle

  -- With none in time, the last answer is what the loop leaves.
  poll-busy :
      (state : ℕ → S) (answer : ℕ → ℕ) (n last : ℕ)
      → Polls state answer
      → ((j : ℕ) → j < suc n → bit_and (answer j) busy_mask ≢ 0)
      → poll D (suc n) last (state 0) ≡ (ok (answer n), state (suc n))
  poll-busy state answer zero last polls busy =
      poll-suc zero last (answer 0) (state 0) (state 1) (polls 0)
      ∙ busy_lem (poll D zero) (answer 0) (state 1) (busy 0 (omega arith))
      ∙ unfold poll in refl
  poll-busy state answer (suc n) last polls busy =
      poll-suc (suc n) last (answer 0) (state 0) (state 1) (polls 0)
      ∙ busy_lem (poll D (suc n)) (answer 0) (state 1) (busy 0 (omega arith))
      ∙ poll-busy (λ i. state (suc i)) (λ i. answer (suc i)) n (answer 0) (λ i. polls (suc i))
          (λ j l. busy (suc j) (omega arith))

  -- A wait ends with the first poll that is not busy, if one of the allowed number is: it succeeds
  -- if that poll shows no command error, and else it clears the error and fails.
  pub wait_for-idle :
      (state : ℕ → S) (answer : ℕ → ℕ) (k n : ℕ)
      → Polls state answer
      → k < n
      → ((j : ℕ) → j < k → bit_and (answer j) busy_mask ≢ 0)
      → bit_and (answer k) busy_mask ≡ 0
      → wait_for D n (state 0) ≡ (
          if bit_and (answer k) cmderr_mask == 0
          then (ok tt, state (suc k))
          else (err target, (D.write abstractcs 0x700 (state (suc k))).1))
  unfolding wait_for finish_wait
  wait_for-idle state answer k n polls h busy idle =
      ap (go_on (finish_wait D)) (poll-idle state answer k n 0 polls h busy idle) ∙ ground arith

  -- A debug module that is busy at every poll makes the wait fail after the allowed number, with
  -- nothing written.
  pub wait_for-busy :
      (state : ℕ → S) (answer : ℕ → ℕ) (n : ℕ)
      → Polls state answer
      → ((j : ℕ) → j < suc n → bit_and (answer j) busy_mask ≢ 0)
      → wait_for D (suc n) (state 0) ≡ (err target, state (suc n))
  unfolding wait_for finish_wait
  wait_for-busy state answer n polls busy =
      ap (go_on (finish_wait D)) (poll-busy state answer n 0 polls busy)
      ∙ (let b = busy n (omega arith) in ground arith)
