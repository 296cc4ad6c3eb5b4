-- ===== src/Programmer/Handles.antt =====
-- No device is left open, whatever way a search or an open ends.
use libopenwch_tools.Prelude.{
  ℕ, zero, suc, ◌≡◌, refl, ap, ◌∙◌, inl, inr, Option, none, some, List, [], ◌∷◌, arith, Bool-cases,
}
use mathlib.Core.Path.{subst}
use libopenwch_tools.Status.{Action, Result, ok, err, go_on, ⊤, ◌>>=◌}
use libopenwch_tools.Linke.Control.{attach_transport, detach}
use libopenwch_tools.Usb.{Mode, rv, arm, iap, Info}
use libopenwch_tools.Usb.Bus.{
  Code, done, failed, Libusb, Host, UsbLink, scan, open_link, close_link,
}
use libopenwch_tools.Usb.Bus.Handles.{
  Gains, IsCounted, scan-handles, open_link-Gains, close_link-handles,
}
use libopenwch_tools.Usb.Wire.{error_is_access, switch_arm_to_rv, eject_iap, usb_transport}
use libopenwch_tools.Usb.Wire.Handles.{
  send_boot_command-handles, IsHolding, sent, sent-IsHolding, detach-IsHolding,
}
use libopenwch_tools.Programmer.{
  max_links, mode_switch_polls, candidates, Candidates, found_any, scanned, poll, round,
  wait_rounds, wait_for_mode, back_in_rv, in_rv_or, switched, ejected, arm_or_iap, chosen, opened,
  linke_open, linked, linke_close, or_access, programmer_find, programmer_switch_rv,
  programmer_eject_iap, first, is_ready, is_candidate,
}

module _ {W D H : Type 0} {U : Libusb W D H} {handles : W → ℕ} (counted : IsCounted U handles) where
  abbrev held : {A : Type 0} → A × Host W → ℕ
  held p = handles p.1.world

  found_any-held : (p : Code (List Info) × Host W) → held (found_any U p) ≡ held p
  unfolding found_any
  found_any-held (failed e, h) = refl
  found_any-held (done [], h) = refl
  found_any-held (done (x ∷ xs), h) = refl

  scanned-held : (h : Host W) → held (scanned U h) ≡ handles h.world
  unfolding scanned
  scanned-held h = found_any-held (scan U max_links h) ∙ scan-handles counted max_links h

  poll-held :
      (o : Option Info) (again : Action (Host W) Info) (h : Host W)
      → held (again h) ≡ handles h.world
      → held (poll U o again h) ≡ handles h.world
  unfolding poll
  poll-held none again h k = k
  poll-held (some x) again h k = refl

  round-held :
      (mode : Mode) (filter : Option (List ℕ)) (again : Action (Host W) Info)
      (p : Code (List Info) × Host W)
      → ((h : Host W) → held (again h) ≡ handles h.world)
      → held (round U mode filter again p) ≡ held p
  unfolding round
  round-held mode filter again (failed e, h) k = refl
  round-held mode filter again (done infos, h) k = poll-held _ again h (k h)

  wait_rounds-held :
      (n : ℕ) (mode : Mode) (filter : Option (List ℕ)) (h : Host W)
      → held (wait_rounds U n mode filter h) ≡ handles h.world
  unfolding wait_rounds
  wait_rounds-held zero mode filter h = refl
  wait_rounds-held (suc n) mode filter h =
      round-held mode filter (wait_rounds U n mode filter) (scan U max_links h)
        (wait_rounds-held n mode filter)
      ∙ scan-handles counted max_links h

  back_in_rv-held :
      (filter : Option (List ℕ)) (p : Code ⊤ × Host W) → held (back_in_rv U filter p) ≡ held p
  unfolding back_in_rv wait_for_mode
  back_in_rv-held filter (failed e, h) = refl
  back_in_rv-held filter (done x, h) = wait_rounds-held mode_switch_polls rv filter h

  switched-held :
      (filter : Option (List ℕ)) (o : Option Info) (h : Host W)
      → held (switched U filter o h) ≡ handles h.world
  unfolding switched switch_arm_to_rv
  switched-held filter none h = refl
  switched-held filter (some info) h =
      back_in_rv-held filter (switch_arm_to_rv U info h)
      ∙ send_boot_command-handles counted info (0x81 ∷ 0xff ∷ 0x01 ∷ 0x52 ∷ []) h

  ejected-held :
      (filter : Option (List ℕ)) (o : Option Info) (h : Host W)
      → held (ejected U filter o h) ≡ handles h.world
  unfolding ejected eject_iap
  ejected-held filter none h = refl
  ejected-held filter (some info) h =
      back_in_rv-held filter (eject_iap U info h)
      ∙ send_boot_command-handles counted info (0x83 ∷ []) h

  arm_or_iap-held :
      (filter : Option (List ℕ)) (o p : Option Info) (h : Host W)
      → held (arm_or_iap U filter o p h) ≡ handles h.world
  unfolding arm_or_iap
  arm_or_iap-held filter (some info) p h = switched-held filter (some info) h
  arm_or_iap-held filter none p h = ejected-held filter p h

  in_rv_or-held :
      (o : Option Info) (other : Action (Host W) Info) (h : Host W)
      → held (other h) ≡ handles h.world
      → held (in_rv_or U o other h) ≡ handles h.world
  unfolding in_rv_or
  in_rv_or-held none other h k = k
  in_rv_or-held (some info) other h k = refl

  chosen-held :
      (filter : Option (List ℕ)) (c : Candidates) (h : Host W)
      → held (chosen U filter c h) ≡ handles h.world
  unfolding chosen
  chosen-held filter c h =
      in_rv_or-held c.info _ h (arm_or_iap-held filter c.arm_candidate c.iap_candidate h)

  go_on-held :
      {A B : Type 0} (f : A → Action (Host W) B) (p : Result A × Host W)
      → ((a : A) (h : Host W) → held (f a h) ≡ handles h.world)
      → held (go_on f p) ≡ held p
  go_on-held f (ok a, h) k = k a h
  go_on-held f (err e, h) k = refl

  or_access-held :
      {A : Type 0} (o : Option A) (h : Host W) → held (or_access U o h) ≡ handles h.world
  unfolding or_access
  or_access-held none h = refl
  or_access-held (some a) h = refl

  -- The searches and the mode switches leave as many devices open as there were.
  pub programmer_find-held :
      (filter : Option (List ℕ)) (h : Host W) → held (programmer_find U filter h) ≡ handles h.world
  unfolding programmer_find
  programmer_find-held filter h =
      go_on-held (λ infos. or_access U (first (is_candidate filter) infos)) (scanned U h)
        (λ infos. or_access-held (first (is_candidate filter) infos))
      ∙ scanned-held h

  pub programmer_switch_rv-held :
      (filter : Option (List ℕ)) (h : Host W)
      → held (programmer_switch_rv U filter h) ≡ handles h.world
  unfolding programmer_switch_rv
  programmer_switch_rv-held filter h =
      go_on-held
        (λ infos.
          in_rv_or U (first (is_ready filter rv) infos)
            (switched U filter (first (is_ready filter arm) infos)))
        (scanned U h)
        (λ infos h₁.
          in_rv_or-held (first (is_ready filter rv) infos)
            (switched U filter (first (is_ready filter arm) infos)) h₁
            (switched-held filter (first (is_ready filter arm) infos) h₁))
      ∙ scanned-held h

  pub programmer_eject_iap-held :
      (filter : Option (List ℕ)) (h : Host W)
      → held (programmer_eject_iap U filter h) ≡ handles h.world
  unfolding programmer_eject_iap
  programmer_eject_iap-held filter h =
      go_on-held
        (λ infos.
          in_rv_or U (first (is_ready filter rv) infos)
            (ejected U filter (first (is_ready filter iap) infos)))
        (scanned U h)
        (λ infos h₁.
          in_rv_or-held (first (is_ready filter rv) infos)
            (ejected U filter (first (is_ready filter iap) infos)) h₁
            (ejected-held filter (first (is_ready filter iap) infos) h₁))
      ∙ scanned-held h

  -- One device is open where a call succeeds, and none more where it fails.
  abbrev pub Holds : {A : Type 0} → Result A × Host W → ℕ → Type 0
  Holds (ok a, h) n = handles h.world ≡ suc n
  Holds (err e, h) n = handles h.world ≡ n

  Holds-go_on :
      {A B : Type 0} (f : A → Action (Host W) B) (p : Result A × Host W) (n : ℕ)
      → held p ≡ n
      → ((a : A) (h : Host W) → Holds (f a h) (handles h.world))
      → Holds (go_on f p) n
  Holds-go_on f (ok a, h) n e k = subst (λ m. Holds (f a h) m) e (k a h)
  Holds-go_on f (err x, h) n e k = e

  opened-Holds :
      (info : Info) (p : Code (UsbLink H) × Host W) (n : ℕ)
      → Gains (λ (h : Host W). handles h.world) p n
      → Holds (opened U info p) n
  unfolding opened
  opened-Holds info (failed e, h) n g = elim (Bool-cases (error_is_access e)) [
    | inl b ↦ rw b g
    | inr b ↦ rw b g
  ]
  opened-Holds info (done link, h) n g = g

  -- `wl_linke_open` holds one device open where it succeeds, and none where it fails, on every path:
  -- the scans, the mode commands and a claim that is refused close what they open.
  pub linke_open-Holds :
      (filter : Option (List ℕ)) (h : Host W) → Holds (linke_open U filter h) (handles h.world)
  unfolding linke_open
  linke_open-Holds filter h =
      Holds-go_on
        (λ infos.
          chosen U filter (candidates filter infos)
          >>= (λ info h. opened U info (open_link U info h)))
        (scanned U h) (handles h.world) (scanned-held h)
        (λ infos h₁.
          Holds-go_on (λ info h. opened U info (open_link U info h))
            (chosen U filter (candidates filter infos) h₁) (handles h₁.world)
            (chosen-held filter (candidates filter infos) h₁)
            (λ info h₂.
              opened-Holds info (open_link U info h₂) (handles h₂.world)
                (open_link-Gains counted info h₂)))

  -- A device that `wl_linke_open` opened is closed again by `wl_linke_close`, whatever requests were
  -- made in between: as many devices are open as before.
  pub linke_open-linke_close :
      (filter : Option (List ℕ)) (h h₁ : Host W) (info : Info) (link : UsbLink H)
      (requests : List (List ℕ))
      → linke_open U filter h ≡ (ok (info, link), h₁)
      → handles (linke_close U (sent U requests (linked U link h₁.world))) ≡ handles h.world
  unfolding linke_close attach_transport
  linke_open-linke_close filter h h₁ info link requests e =
      let l = sent U requests (linked U link h₁.world) in
      let o : handles h₁.world ≡ suc (handles h.world) =
        subst (λ p. Holds p (handles h.world)) e (linke_open-Holds filter h) in
      let s : IsHolding counted link (handles h₁.world) l =
        sent-IsHolding counted link (handles h₁.world) requests (linked U link h₁.world)
          (refl, refl) in
      let d = detach-IsHolding counted link (handles h₁.world) l s in
      let w = (detach (usb_transport U) l).world.1 in
      ap (λ o. handles (close_link U o w)) s.0
      ∙ omega (arith, close_link-handles counted link w, d.1, o)
