-- ===== src/Programmer/Waiting.antt =====
-- How long `wait_for_mode` waits (src/usb_link.c).
use libopenwch_tools.Prelude.{
  ℕ, zero, suc, ◌+◌, ◌-◌, ◌<◌, ◌≡◌, ap, ◌∙◌, Option, none, some, List, arith,
}
use libopenwch_tools.Status.{ok, err, no_device, usb}
use libopenwch_tools.Usb.{Mode, Info}
use libopenwch_tools.Usb.Bus.{UsbError, done, failed, Libusb, Host, scan}
use libopenwch_tools.Programmer.{
  max_links, is_ready, first, poll, round, wait_rounds, wait_for_mode,
}

module _ {W D H : Type 0} (U : Libusb W D H) (mode : Mode) (filter : Option (List ℕ)) where
  -- A number of scans in a row, none of which fails or shows a programmer that is ready.
  pub data Misses : ℕ → Host W → Host W → Type 0 where
    here : {h : Host W} → Misses 0 h h
    missed :
        {n : ℕ} {h h₁ h₂ : Host W} (infos : List Info)
        → scan U max_links h ≡ (done infos, h₁)
        → first (is_ready filter mode) infos ≡ none
        → Misses n h₁ h₂
        → Misses (suc n) h h₂

  -- The scans that show nothing use up as many rounds.
  wait_rounds-Misses :
      (m k n : ℕ) (h h₁ : Host W)
      → m ≡ n + k
      → Misses n h h₁
      → wait_rounds U m mode filter h ≡ wait_rounds U k mode filter h₁
  unfolding wait_rounds round poll first
  wait_rounds-Misses m k n h h₁ e here = ap (λ r. wait_rounds U r mode filter h) (omega (arith, e))
  wait_rounds-Misses zero k n h h₁ e (missed infos s f t) = absurd (omega (arith, e))
  wait_rounds-Misses (suc m) k n h h₁ e (missed {n = n₁} {h₁ = h₂} infos s f t) =
      ap (round U mode filter (wait_rounds U m mode filter)) s
      ∙ ap (λ o. poll U o (wait_rounds U m mode filter) h₂) f
      ∙ wait_rounds-Misses m k n₁ h₂ h₁ (omega (arith, e)) t

  -- After fewer than 50 scans that show no programmer in the mode, the first scan that does ends the
  -- wait with the first one that it lists, and no further scan is made.
  pub wait_for_mode-ready :
      (n : ℕ) (h h₁ h₂ : Host W) (infos : List Info) (info : Info)
      → n < 50
      → Misses n h h₁
      → scan U max_links h₁ ≡ (done infos, h₂)
      → first (is_ready filter mode) infos ≡ some info
      → wait_for_mode U mode filter h ≡ (ok info, h₂)
  unfolding wait_for_mode wait_rounds round poll first
  wait_for_mode-ready n h h₁ h₂ infos info l m s f =
      wait_rounds-Misses 50 (suc (49 - n)) n h h₁ (omega (arith, l)) m
      ∙ ap (round U mode filter (wait_rounds U (49 - n) mode filter)) s
      ∙ ap (λ o. poll U o (wait_rounds U (49 - n) mode filter) h₂) f

  -- The wait ends: after 50 scans that show no programmer in the mode the status is
  -- WL_ERR_NO_DEVICE, and no further scan is made.
  pub wait_for_mode-gives_up :
      (h h₁ : Host W) → Misses 50 h h₁ → wait_for_mode U mode filter h ≡ (err no_device, h₁)
  unfolding wait_for_mode wait_rounds
  wait_for_mode-gives_up h h₁ m = wait_rounds-Misses 50 0 50 h h₁ (omega arith) m

  -- A scan that fails ends the wait with WL_ERR_USB.
  pub wait_for_mode-fails :
      (n : ℕ) (h h₁ h₂ : Host W) (e : UsbError)
      → n < 50
      → Misses n h h₁
      → scan U max_links h₁ ≡ (failed e, h₂)
      → wait_for_mode U mode filter h ≡ (err usb, h₂)
  unfolding wait_for_mode wait_rounds round
  wait_for_mode-fails n h h₁ h₂ e l m s =
      wait_rounds-Misses 50 (suc (49 - n)) n h h₁ (omega (arith, l)) m
      ∙ ap (round U mode filter (wait_rounds U (49 - n) mode filter)) s
