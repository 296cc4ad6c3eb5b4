-- ===== src/Linke/Part/Selected.antt =====
-- Which part the programmer is set to after detection and after the choice of an interface.
use libopenwch_tools.Prelude.{
  ℕ, ◌≡◌, refl, sym, ap, true, false, List, Option, none, some, arith, get_or, bit_or, ◌<<<◌, u16,
  Bool-cases, inl, inr, ◌∙◌,
}
use libopenwch_tools.Status.{Result, ok, err, Post, Post-go_on, ◌>>◌}
use libopenwch_tools.Target.{Chip, chips}
use libopenwch_tools.Target.Detect.{by_detect_id_iff, IsEntry}
use libopenwch_tools.Linke.Request.{Transport, Link, reply_max, command-configured, send_control}
use libopenwch_tools.Linke.Control.{cmd_control, cmd_run, ctl_attach, ctl_release}
use libopenwch_tools.Linke.Part.{
  reply_part, no_chip_id, or_retry, attach_and_detect, set_interface, set_interface_raw, configure,
  identify_chip, identify_chip_once, unconfigure, known, detected,
}

module _ {W : Type 0} (T : Transport W) where
  -- What a chosen interface leaves: the part's own family byte.
  set_interface-chosen :
      (c : Chip) (l : Link W)
      → (set_interface T c l).0 ≡ ok tt
      → ((set_interface T c l).1.configured ≡ true) × ((set_interface T c l).1.chip_id ≡ c.linke_id)
  unfolding set_interface configure
  set_interface-chosen c l h = ground arith

  set_interface-again :
      (c : Chip) (l : Link W)
      → l.configured ≡ true
      → l.chip_id ≡ c.linke_id
      → set_interface T c l ≡ (ok tt, l)
  unfolding set_interface
  set_interface-again c l on same = ground arith

  -- Once a part's interface is chosen, choosing it again succeeds, changes nothing and so sends
  -- nothing to the programmer.
  pub set_interface_twice :
      (c : Chip) (l : Link W)
      → (set_interface T c l).0 ≡ ok tt
      → set_interface T c (set_interface T c l).1 ≡ (ok tt, (set_interface T c l).1)
  set_interface_twice c l h =
      let s = set_interface-chosen c l h in set_interface-again c (set_interface T c l).1 s.0 s.1

  -- What an attempt at detection found: an entry of the table, with the interface unset.
  abbrev Detected : Result Chip × Link W → Type 0
  Detected r = (c : Chip) → r.0 ≡ ok c → ((i : ℕ) × IsEntry chips i c) × (r.1.configured ≡ false)

  abbrev Unset : {A : Type 0} → A → Link W → Type 0
  Unset _ l = l.configured ≡ false

  abbrev Entry : Chip → Link W → Type 0
  Entry c l = ((i : ℕ) × IsEntry chips i c) × (l.configured ≡ false)

  reply_part-IsEntry :
      (reply : List ℕ) (c : Chip) → reply_part reply ≡ some c → (i : ℕ) × IsEntry chips i c
  reply_part-IsEntry reply c h =
      let m = u16 (bit_or (get_or reply 4 0 <<< 8) (get_or reply 5 0)) in
      ((by_detect_id_iff (get_or reply 3 0) m c (omega arith)).0 h).0

  known-Entry :
      (found : Option Chip) (l : Link W)
      → ((c : Chip) → found ≡ some c → (i : ℕ) × IsEntry chips i c)
      → l.configured ≡ false
      → Post Entry (known T found l)
  unfolding known
  known-Entry none l at unset = λ c e. cc
  known-Entry (some found) l at unset = λ c e. (at c (ground arith), unset)

  detected-Entry :
      (reply : List ℕ) (l : Link W) → l.configured ≡ false → Post Entry (detected T reply l)
  unfolding detected
  detected-Entry reply l unset = elim (Bool-cases (no_chip_id reply)) [
    | inl bad ↦ rw bad (λ c e. cc)
    | inr good ↦ rw good (known-Entry (reply_part reply) l (reply_part-IsEntry reply) unset)
  ]

  attach-Entry : (l : Link W) → l.configured ≡ false → Post Entry (attach_and_detect T l)
  unfolding attach_and_detect send_control
  attach-Entry l unset =
      Post-go_on Unset Entry (detected T) (send_control T cmd_control ctl_attach reply_max l)
        (λ reply e. (command-configured T _ reply_max l).0 ∙ unset) detected-Entry

  identify_chip_once-Entry : (l : Link W) → Post Entry (identify_chip_once T l)
  unfolding identify_chip_once unconfigure
  identify_chip_once-Entry l =
      Post-go_on (λ _ _. Unit) Entry (λ _. unconfigure T >> attach_and_detect T)
        (set_interface_raw T 0x01 0x02 l) (λ _ _. tt)
        (λ _ s _. attach-Entry (record s { configured = false }) refl)

  or_retry-Entry : (p : Result Chip × Link W) → Post Entry p → Post Entry (or_retry T p)
  unfolding or_retry
  or_retry-Entry (ok c, l) h = h
  or_retry-Entry (err _, l) h =
      identify_chip_once-Entry
        (send_control T cmd_control ctl_release 0 (send_control T cmd_run 0x01 0 l).1).1

  -- A part that detection reports is an entry of the table, and the programmer then counts as not
  -- set up for any part, so that the part's own clock is chosen before it is used.
  pub identify_chip-IsEntry :
      (l l' : Link W) (c : Chip)
      → identify_chip T l ≡ (ok c, l')
      → ((i : ℕ) × IsEntry chips i c) × (l'.configured ≡ false)
  unfolding identify_chip
  identify_chip-IsEntry l l' c h =
      let e =
        or_retry-Entry (identify_chip_once T l) (identify_chip_once-Entry l) c
          (ap (λ (p : Result Chip × Link W). p.0) h) in
      (e.0, sym (ap (λ (p : Result Chip × Link W). p.1.configured) h) ∙ e.1)
