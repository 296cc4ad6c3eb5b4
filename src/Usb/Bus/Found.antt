-- ===== src/Usb/Bus/Found.antt =====
-- What a scan of the bus gives (src/usb.c).
use libopenwch_tools.Prelude.{
  ℕ, ◌-◌, ◌≤◌, ◌<◌, ◌≡◌, refl, ◌⊎◌, inl, inr, Bool, true, false, not, Option, none, some, List, [],
  ◌∷◌, ◌==◌, if◌then◌else◌, arith, Bool-cases, length, length-take, All,
}
use mathlib.Core.Path.{subst}
use libopenwch_tools.Usb.{Mode, unknown, Info, classify, mode_eq, serial_max, product_max}
use libopenwch_tools.Usb.Bus.{
  Code, done, failed, Descriptor, Libusb, Host, read_text, read_string, examine, put_front,
  programmer_of, scan_device, scan_devices, listed, scan, closed_info, error_other,
}

-- An entry is of a known kind, that of its identifiers, and its texts fit their buffers; an entry that
-- could not be opened has none.
pub record IsProgrammer (info : Info) : Type 0 where
  pub known : mode_eq info.mode unknown ≡ false
  pub kind : info.mode ≡ classify info.vid info.pid
  pub serial_fits : length info.serial < serial_max
  pub product_fits : length info.product < product_max
  pub no_texts : (info.accessible ≡ true) ⊎ ((info.serial ≡ []) × (info.product ≡ []))

abbrev pub Listing : {W : Type 0} → ℕ → List Info × W → Type 0
Listing room p = (length p.0 ≤ room) × All IsProgrammer p.0

module _ {W D H : Type 0} (U : Libusb W D H) where
  read_text-length : (n : ℕ) (p : Option (List ℕ) × W) → 0 < n → length (read_text U n p).0 < n
  unfolding read_text
  read_text-length n (none, w) h = h
  read_text-length n (some text, w) h = omega (arith, length-take (n - 1) text)

  read_string-length : (a : H) (i n : ℕ) (w : W) → 0 < n → length (read_string U a i n w).0 < n
  unfolding read_string
  read_string-length a i n w h = elim (Bool-cases (i == 0)) [
    | inl e ↦ rw e h
    | inr e ↦ rw e (read_text-length n (U.get_string_descriptor a i n w) h)
  ]

  examine-IsProgrammer :
      (mode : Mode) (desc : Descriptor) (d : D) (p : Code H × W)
      → mode_eq mode unknown ≡ false
      → mode ≡ classify desc.id_vendor desc.id_product
      → IsProgrammer (examine U (closed_info U mode desc d) desc p).0
  unfolding examine
  examine-IsProgrammer mode desc d (failed e, w) k c = record {
    known = k;
    kind = c;
    serial_fits = omega arith;
    product_fits = omega arith;
    no_texts = inr (refl, refl);
  }
  examine-IsProgrammer mode desc d (done a, w) k c = record {
    known = k;
    kind = c;
    serial_fits = read_string-length a desc.i_serial_number 64 w (omega arith);
    product_fits = read_string-length a desc.i_product 128 _ (omega arith);
    no_texts = inl refl;
  }

  put_front-Listing :
      (info : Info) (room : ℕ) (p : List Info × W)
      → IsProgrammer info
      → (room == 0) ≡ false
      → Listing (room - 1) p
      → Listing room (put_front U info p)
  unfolding put_front
  put_front-Listing info room (infos, w) i z l = (ground arith, (i, l.1))

  scan_device-Listing :
      (room : ℕ) (rest : ℕ → W → List Info × W) (d : D) (p : Option Descriptor) (w : W)
      → ((n : ℕ) (w₁ : W) → Listing n (rest n w₁))
      → Listing room (scan_device U room rest d (programmer_of U p) w)
  unfolding scan_device programmer_of
  scan_device-Listing room rest d none w k = k room w
  scan_device-Listing room rest d (some desc) w k =
      elim (Bool-cases (mode_eq (classify desc.id_vendor desc.id_product) unknown)) [
        | inl e ↦ rw e (k room w)
        | inr e ↦
            let mode = classify desc.id_vendor desc.id_product in
            let x = examine U (closed_info U mode desc d) desc (U.open_device d w) in
            elim (Bool-cases (room == 0)) [
              | inl z ↦ rw (e, z) (omega arith, tt)
              | inr z ↦
                  rw (e, z)
                    (put_front-Listing x.0 room (rest (room - 1) x.1)
                      (examine-IsProgrammer mode desc d (U.open_device d w) e refl) z
                      (k (room - 1) x.1))
            ]
      ]

  scan_devices-Listing : (room : ℕ) (ds : List D) (w : W) → Listing room (scan_devices U room ds w)
  unfolding scan_devices
  scan_devices-Listing room [] w = (omega arith, tt)
  scan_devices-Listing room (d ∷ ds) w =
      scan_device-Listing room (λ n w₁. scan_devices U n ds w₁) d (U.get_device_descriptor d) w
        (λ n w₁. scan_devices-Listing n ds w₁)

  -- Where a scan succeeds.
  abbrev Lists : {S : Type 0} → ℕ → Code (List Info) × S → Type 0
  Lists n (done infos, s) = (length infos ≤ n) × All IsProgrammer infos
  Lists n (failed e, s) = Unit

  listed-Lists : (n : ℕ) (p : Code (List D) × W) → Lists n (listed U n p)
  unfolding listed
  listed-Lists n (failed e, w) = tt
  listed-Lists n (done ds, w) = scan_devices-Listing n ds w

  host-Lists :
      (n : ℕ) (b : Bool) (h : Host W) (p : Code (List Info) × W)
      → Lists n p
      → Lists n (if b then (failed error_other, h) else (p.0, record h { world = p.1 }))
  host-Lists n true h p l = tt
  host-Lists n false h (done infos, w) l = l
  host-Lists n false h (failed e, w) l = tt

  -- A scan that succeeds gives at most `max_links` entries. Each is of a known kind, the one of its
  -- vendor and product identifiers; its serial number and product text fit their buffers with the
  -- terminator; and both are empty where the device could not be opened.
  pub scan-IsProgrammer :
      (max_links : ℕ) (h h₁ : Host W) (infos : List Info)
      → scan U max_links h ≡ (done infos, h₁)
      → (length infos ≤ max_links) × All IsProgrammer infos
  unfolding scan
  scan-IsProgrammer max_links h h₁ infos e = subst (Lists max_links) e (
      host-Lists max_links (not h.context) h (listed U max_links (U.get_device_list h.world))
        (listed-Lists max_links (U.get_device_list h.world)))
