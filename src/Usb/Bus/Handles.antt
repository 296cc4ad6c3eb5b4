-- ===== src/Usb/Bus/Handles.antt =====
-- How many devices the code of src/usb.c holds open.
use libopenwch_tools.Prelude.{
  ℕ, suc, ◌-◌, ◌≡◌, refl, ap, ◌∙◌, inl, inr, Bool, true, ◌&&◌, Option, none, some, List, [], ◌∷◌,
  ◌==◌, arith, Bool-cases,
}
use libopenwch_tools.Status.{⊤}
use libopenwch_tools.Usb.{Mode, Info}
use libopenwch_tools.Usb.Bus.{
  Code, done, failed, Descriptor, Libusb, Host, UsbLink, read_text, read_string, examine, put_front,
  programmer_of, scan_device, scan_devices, listed, scan, open_at, open_listed, claimed_link, claim,
  open_link, close_link, closed_info,
}

-- A call that opens a device where it succeeds, from the number of those that were open.
abbrev pub Gains : {W A : Type 0} → (W → ℕ) → Code A × W → ℕ → Type 0
Gains handles (done _, w) n = handles w ≡ suc n
Gains handles (failed _, w) n = handles w ≡ n

-- libusb_open and libusb_close are the calls that change how many devices are open.
pub record IsCounted {W D H : Type 0} (U : Libusb W D H) (handles : W → ℕ) : Type 0 where
  pub opens : (d : D) (w : W) → Gains handles (U.open_device d w) (handles w)
  pub closes : (a : H) (w : W) → handles (U.close a w) ≡ handles w - 1
  pub lists : (w : W) → handles (U.get_device_list w).1 ≡ handles w
  pub reads : (a : H) (i n : ℕ) (w : W) → handles (U.get_string_descriptor a i n w).1 ≡ handles w
  pub detaches : (a : H) (w : W) → handles (U.set_auto_detach a w) ≡ handles w
  pub claims : (a : H) (i : ℕ) (w : W) → handles (U.claim_interface a i w).1 ≡ handles w
  pub releases : (a : H) (i : ℕ) (w : W) → handles (U.release_interface a i w) ≡ handles w
  pub sends :
      (a : H) (e : ℕ) (bytes : List ℕ) (t : ℕ) (w : W)
      → handles (U.transfer_out a e bytes t w).1 ≡ handles w
  pub receives : (a : H) (e n t : ℕ) (w : W) → handles (U.transfer_in a e n t w).1 ≡ handles w

module _ {W D H : Type 0} {U : Libusb W D H} {handles : W → ℕ} (counted : IsCounted U handles) where
  read_text-handles : (n : ℕ) (p : Option (List ℕ) × W) → handles (read_text U n p).1 ≡ handles p.1
  unfolding read_text
  read_text-handles n (none, w) = refl
  read_text-handles n (some text, w) = refl

  read_string-handles : (a : H) (i n : ℕ) (w : W) → handles (read_string U a i n w).1 ≡ handles w
  unfolding read_string
  read_string-handles a i n w = elim (Bool-cases (i == 0)) [
    | inl e ↦ rw e refl
    | inr e ↦ rw e (read_text-handles n (U.get_string_descriptor a i n w) ∙ counted.reads a i n w)
  ]

  examine-handles :
      (info : Info) (desc : Descriptor) (p : Code H × W) (n : ℕ)
      → Gains handles p n
      → handles (examine U info desc p).1 ≡ n
  unfolding examine
  examine-handles info desc (failed e, w) n g = g
  examine-handles info desc (done a, w) n g =
      let s = read_string U a desc.i_serial_number 64 w in
      let t = read_string U a desc.i_product 128 s.1 in
      omega (
        arith,
        counted.closes a t.1,
        read_string-handles a desc.i_product 128 s.1,
        read_string-handles a desc.i_serial_number 64 w,
      )

  put_front-handles :
      (info : Info) (p : List Info × W) → handles (put_front U info p).1 ≡ handles p.1
  unfolding put_front
  put_front-handles info (infos, w) = refl

  scan_device-handles :
      (room : ℕ) (rest : ℕ → W → List Info × W) (d : D) (p : Option (Mode × Descriptor)) (w : W)
      → ((n : ℕ) (w₁ : W) → handles (rest n w₁).1 ≡ handles w₁)
      → handles (scan_device U room rest d p w).1 ≡ handles w
  unfolding scan_device
  scan_device-handles room rest d none w k = k room w
  scan_device-handles room rest d (some (mode, desc)) w k = elim (Bool-cases (room == 0)) [
    | inl z ↦ rw z refl
    | inr z ↦
        let x = examine U (closed_info U mode desc d) desc (U.open_device d w) in
        rw z (
          put_front-handles x.0 (rest (room - 1) x.1)
          ∙ k (room - 1) x.1
          ∙ examine-handles (closed_info U mode desc d) desc (U.open_device d w) (handles w)
              (counted.opens d w))
  ]

  scan_devices-handles :
      (room : ℕ) (ds : List D) (w : W) → handles (scan_devices U room ds w).1 ≡ handles w
  unfolding scan_devices
  scan_devices-handles room [] w = refl
  scan_devices-handles room (d ∷ ds) w =
      scan_device-handles room (λ n w₁. scan_devices U n ds w₁) d
        (programmer_of U (U.get_device_descriptor d)) w (λ n w₁. scan_devices-handles n ds w₁)

  listed-handles : (n : ℕ) (p : Code (List D) × W) → handles (listed U n p).1 ≡ handles p.1
  unfolding listed
  listed-handles n (failed e, w) = refl
  listed-handles n (done ds, w) = scan_devices-handles n ds w

  -- A scan closes every device that it opens.
  pub scan-handles : (n : ℕ) (h : Host W) → handles (scan U n h).1.world ≡ handles h.world
  unfolding scan
  scan-handles n h = elim (Bool-cases h.context) [
    | inr e ↦ rw e refl
    | inl e ↦ rw e (listed-handles n (U.get_device_list h.world) ∙ counted.lists h.world)
  ]

  open_at-Gains :
      (info : Info) (ds : List D) (w : W) → Gains handles (open_at U info ds w) (handles w)
  unfolding open_at
  open_at-Gains info [] w = refl
  open_at-Gains info (d ∷ ds) w =
      elim (Bool-cases
        ((U.get_bus_number d == info.bus) && (U.get_device_address d == info.address))) [
          | inl e ↦ rw e (counted.opens d w)
          | inr e ↦ rw e (open_at-Gains info ds w)
        ]

  pub open_listed-Gains :
      (info : Info) (p : Code (List D) × W) (n : ℕ)
      → handles p.1 ≡ n
      → Gains handles (open_listed U info p) n
  unfolding open_listed
  open_listed-Gains info (failed e, w) n h = h
  open_listed-Gains info (done ds, w) n h = rw (← h) (open_at-Gains info ds w)

  claimed_link-Gains :
      (a : H) (p : Code ⊤ × W) (n : ℕ) → handles p.1 ≡ suc n → Gains handles (claimed_link U a p) n
  unfolding claimed_link
  claimed_link-Gains a (failed e, w) n h = omega (arith, counted.closes a w)
  claimed_link-Gains a (done x, w) n h = h

  claim-Gains : (p : Code H × W) (n : ℕ) → Gains handles p n → Gains handles (claim U p) n
  unfolding claim
  claim-Gains (failed e, w) n g = g
  claim-Gains (done a, w) n g =
      let w₁ = U.set_auto_detach a w in
      claimed_link-Gains a (U.claim_interface a 0 w₁) n
        (counted.claims a 0 w₁ ∙ counted.detaches a w ∙ g)

  -- `wl_usb_open` keeps one device open where it succeeds, and none where it fails.
  pub open_link-Gains :
      (info : Info) (h : Host W)
      → Gains (λ (h : Host W). handles h.world) (open_link U info h) (handles h.world)
  unfolding open_link
  open_link-Gains info h = elim (Bool-cases h.context) [
    | inr e ↦ rw e refl
    | inl e ↦ rw e (
        in_host_lem true (claim U (open_listed U info (U.get_device_list h.world))) (
          claim-Gains (open_listed U info (U.get_device_list h.world)) (handles h.world) (
            open_listed-Gains info (U.get_device_list h.world) (handles h.world)
              (counted.lists h.world))))
  ]
    where
      in_host_lem :
          (context : Bool) (p : Code (UsbLink H) × W)
          → Gains handles p (handles h.world)
          → Gains
              (λ (h : Host W). handles h.world)
              (p.0, record { world = p.1; context = context })
              (handles h.world)
      in_host_lem context (done x, w) g = g
      in_host_lem context (failed x, w) g = g

  pub close_link-handles :
      (l : UsbLink H) (w : W) → handles (close_link U (some l) w) ≡ handles w - 1
  unfolding close_link
  close_link-handles l w = elim (Bool-cases l.claimed) [
    | inr e ↦ rw e (counted.closes l.handle w)
    | inl e ↦ rw e (
        counted.closes l.handle (U.release_interface l.handle 0 w)
        ∙ ap (λ (n : ℕ). n - 1) (counted.releases l.handle 0 w))
  ]
