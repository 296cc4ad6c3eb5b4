-- ===== src/Programmer/Opening.antt =====
-- What a search gives, and the programmer that is opened.
use libopenwch_tools.Prelude.{
  ℕ, zero, suc, ◌≡◌, ap, ◌∙◌, inl, inr, Option, none, some, List, [], ◌∷◌, Bool-cases,
}
use mathlib.Core.Path.{subst}
use libopenwch_tools.Status.{Action, Result, ok, err, go_on, Post, Post-go_on, ⊤, ◌>>=◌}
use libopenwch_tools.Usb.{rv, arm, iap, Info}
use libopenwch_tools.Usb.Bus.{Code, done, failed, Libusb, Host, UsbLink, scan, open_link}
use libopenwch_tools.Usb.Wire.{error_is_access, switch_arm_to_rv, eject_iap}
use libopenwch_tools.Programmer.{
  max_links, mode_switch_polls, is_ready, first, candidates, found_any, scanned, poll, round,
  wait_rounds, wait_for_mode, back_in_rv, in_rv_or, switched, ejected, arm_or_iap,
  programmer_switch_rv, programmer_eject_iap, chosen, Opened, opened, linke_open, usb_status,
  Candidates,
}
use libopenwch_tools.Programmer.Choice.{IsReady, first-IsReady, candidates-first}

module _ {W D H : Type 0} (U : Libusb W D H) (filter : Option (List ℕ)) where
  -- A search that gives a programmer gives one in RISC-V mode that can be opened.
  abbrev pub GivesReady : Result Info × Host W → Type 0
  GivesReady = Post (λ info h. IsReady filter rv info)

  poll-GivesReady :
      (o : Option Info) (again : Action (Host W) Info) (h : Host W)
      → ((info : Info) → o ≡ some info → IsReady filter rv info)
      → GivesReady (again h)
      → GivesReady (poll U o again h)
  unfolding poll
  poll-GivesReady none again h k r = r
  poll-GivesReady (some info) again h k r = λ a e. k a (cc)

  round-GivesReady :
      (again : Action (Host W) Info) (p : Code (List Info) × Host W)
      → ((h : Host W) → GivesReady (again h))
      → GivesReady (round U rv filter again p)
  unfolding round
  round-GivesReady again (failed e, h) r = λ a q. cc
  round-GivesReady again (done infos, h) r =
      poll-GivesReady (first (is_ready filter rv) infos) again h (first-IsReady filter rv infos)
        (r h)

  wait_rounds-GivesReady : (n : ℕ) (h : Host W) → GivesReady (wait_rounds U n rv filter h)
  unfolding wait_rounds
  wait_rounds-GivesReady zero h = λ a q. cc
  wait_rounds-GivesReady (suc n) h =
      round-GivesReady (wait_rounds U n rv filter) (scan U max_links h) (wait_rounds-GivesReady n)

  usb_status-GivesReady : (e : _) (h : Host W) → GivesReady (usb_status e, h)
  usb_status-GivesReady e h = elim (Bool-cases (error_is_access e)) [
    | inl b ↦ rw b (λ a q. cc)
    | inr b ↦ rw b (λ a q. cc)
  ]

  back_in_rv-GivesReady : (p : Code ⊤ × Host W) → GivesReady (back_in_rv U filter p)
  unfolding back_in_rv wait_for_mode
  back_in_rv-GivesReady (failed e, h) = usb_status-GivesReady e h
  back_in_rv-GivesReady (done x, h) = wait_rounds-GivesReady mode_switch_polls h

  switched-GivesReady : (o : Option Info) (h : Host W) → GivesReady (switched U filter o h)
  unfolding switched
  switched-GivesReady none h = λ a q. cc
  switched-GivesReady (some info) h = back_in_rv-GivesReady (switch_arm_to_rv U info h)

  ejected-GivesReady : (o : Option Info) (h : Host W) → GivesReady (ejected U filter o h)
  unfolding ejected
  ejected-GivesReady none h = λ a q. cc
  ejected-GivesReady (some info) h = back_in_rv-GivesReady (eject_iap U info h)

  in_rv_or-GivesReady :
      (o : Option Info) (other : Action (Host W) Info) (h : Host W)
      → ((info : Info) → o ≡ some info → IsReady filter rv info)
      → GivesReady (other h)
      → GivesReady (in_rv_or U o other h)
  unfolding in_rv_or
  in_rv_or-GivesReady none other h k r = r
  in_rv_or-GivesReady (some info) other h k r = λ a e. k a (cc)

  arm_or_iap-GivesReady : (o p : Option Info) (h : Host W) → GivesReady (arm_or_iap U filter o p h)
  unfolding arm_or_iap
  arm_or_iap-GivesReady (some info) p h = switched-GivesReady (some info) h
  arm_or_iap-GivesReady none p h = ejected-GivesReady p h

  chosen-GivesReady :
      (infos : List Info) (h : Host W) → GivesReady (chosen U filter (candidates filter infos) h)
  unfolding chosen
  chosen-GivesReady infos h = rw (candidates-first filter infos) (
      in_rv_or-GivesReady (first (is_ready filter rv) infos) _ h (first-IsReady filter rv infos) (
        arm_or_iap-GivesReady (first (is_ready filter arm) infos)
          (first (is_ready filter iap) infos) h))

  from_ok : Opened U → Result (Opened U) → Opened U
  from_ok d (ok a) = a
  from_ok d (err e) = d

  ok-injective : (a b : Opened U) → ok a ≡ ok b → a ≡ b
  unfolding from_ok
  ok-injective a b q = ap (from_ok a) q

  opened-info :
      (info : Info) (p : Code (UsbLink H) × Host W)
      → IsReady filter rv info
      → Post (λ (o : Opened U) h. IsReady filter rv o.0) (opened U info p)
  unfolding opened
  opened-info info (failed e, h) r = elim (Bool-cases (error_is_access e)) [
    | inl b ↦ rw b (λ a q. cc)
    | inr b ↦ rw b (λ a q. cc)
  ]
  opened-info info (done link, h) r = λ a q.
      subst (λ x. IsReady filter rv x) (ap (λ (x : Opened U). x.0) (ok-injective (info, link) a q))
        r

  open_chosen : List Info → Action (Host W) (Opened U)
  open_chosen infos =
      chosen U filter (candidates filter infos) >>= (λ info h. opened U info (open_link U info h))

  linke_open-Post :
      (h : Host W) → Post (λ (o : Opened U) h. IsReady filter rv o.0) (linke_open U filter h)
  unfolding linke_open open_chosen
  linke_open-Post h =
      Post-go_on (λ infos h₁. Unit {0}) (λ (o : Opened U) h₁. IsReady filter rv o.0) open_chosen
        (scanned U h) (λ a q. tt)
        (λ infos h₁ t.
          Post-go_on (λ info h₂. IsReady filter rv info)
            (λ (o : Opened U) h₂. IsReady filter rv o.0)
            (λ info h₂. opened U info (open_link U info h₂))
            (chosen U filter (candidates filter infos) h₁) (chosen-GivesReady infos h₁)
            (λ info h₂ r. opened-info info (open_link U info h₂) r))

  -- The programmer that `wl_linke_open` opens, whether it was there or came back after a mode
  -- command, is in RISC-V mode, could be opened when it was found, and has the serial number that was
  -- asked for, if a text that is not empty was.
  pub linke_open-IsReady :
      (h h₁ : Host W) (info : Info) (link : UsbLink H)
      → linke_open U filter h ≡ (ok (info, link), h₁)
      → IsReady filter rv info
  linke_open-IsReady h h₁ info link e =
      linke_open-Post h (info, link) (ap (λ (p : Result (Opened U) × Host W). p.0) e)

  -- With an accessible programmer in RISC-V mode on the bus, of the serial number that was asked for
  -- if one was, `wl_linke_open` opens the first such, `wl_programmer_switch_rv` and
  -- `wl_programmer_eject_iap` give it, and none of the three sends a mode command: the bus is as the
  -- scan left it.
  pub linke_open-first :
      (h h₁ : Host W) (infos : List Info) (info : Info)
      → scan U max_links h ≡ (done infos, h₁)
      → first (is_ready filter rv) infos ≡ some info
      → (linke_open U filter h ≡ opened U info (open_link U info h₁))
        × (programmer_switch_rv U filter h ≡ (ok info, h₁))
        × (programmer_eject_iap U filter h ≡ (ok info, h₁))
  unfolding linke_open programmer_switch_rv programmer_eject_iap chosen in_rv_or scanned found_any
      first open_chosen arm_or_iap
  linke_open-first h h₁ [] info s f = cc
  linke_open-first h h₁ (x ∷ infos) info s f =
      let c : (candidates filter (x ∷ infos)).info ≡ some info =
        ap (λ (c : Candidates). c.info) (candidates-first filter (x ∷ infos)) ∙ f in
      (
        ap (go_on open_chosen) (ap (found_any U) s)
            ∙ ap
                (λ o.
                  go_on (λ info h. opened U info (open_link U info h))
                    (in_rv_or U o
                      (arm_or_iap U filter (candidates filter (x ∷ infos)).arm_candidate
                        (candidates filter (x ∷ infos)).iap_candidate)
                      h₁))
                c,
        ap
              (go_on (λ infos.
                in_rv_or U (first (is_ready filter rv) infos)
                  (switched U filter (first (is_ready filter arm) infos))))
              (ap (found_any U) s)
            ∙ ap
                (λ o. in_rv_or U o (switched U filter (first (is_ready filter arm) (x ∷ infos))) h₁)
                f,
        ap
              (go_on (λ infos.
                in_rv_or U (first (is_ready filter rv) infos)
                  (ejected U filter (first (is_ready filter iap) infos))))
              (ap (found_any U) s)
            ∙ ap (λ o. in_rv_or U o (ejected U filter (first (is_ready filter iap) (x ∷ infos))) h₁)
                f,
      )
