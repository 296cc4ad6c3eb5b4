-- ===== src/Linke/Tests.antt =====
-- Runs of the request layer against programmers made up here.
use libopenwch_tools.Prelude.{ℕ, ◌≡◌, refl, true, false, some, List, [], ◌∷◌, ◌++◌}
use libopenwch_tools.Status.{ok, ⊤}
use libopenwch_tools.Target.{Chip, ch32v0, chip, chips}
use libopenwch_tools.Target.Table.{ram_std, fb_v}
use libopenwch_tools.Target.Detect.{IsEntry, by_detect_id}
use libopenwch_tools.Linke.Request.{Transport, Link, command, send_control, reply_ok}
use libopenwch_tools.Linke.Control.{resume, reset}
use libopenwch_tools.Linke.Control.Traffic.{
  logged, Answers, reset-requests, resume-requests, reset_requests, resume_requests,
}
use libopenwch_tools.Linke.Part.{
  identify_chip, identify_chip_once, set_interface, set_interface_raw,
}
use libopenwch_tools.Linke.Part.Selected.{identify_chip-IsEntry, set_interface_twice}

-- A programmer that answers every request as it answers an attach with a CH32V003 connected.
abbrev attached_reply : List ℕ
attached_reply = 0x82 ∷ 0x0d ∷ 0x05 ∷ 0x09 ∷ 0x00 ∷ 0x33 ∷ 0x00 ∷ 0x00 ∷ []

abbrev steady : Transport ⊤
steady = record { command = λ w request room. (some attached_reply, w) }

abbrev up : {W : Type 0} → W → Link W
up w = record { world = w; attached = true; open_ = true; chip_id = 0; configured = false }

steady-Answers : Answers steady
steady-Answers w request room = (attached_reply, refl)

reset-requests_example :
    (l' : Link (List (List ℕ) × ⊤)) × (reset (logged steady) (up ([], tt)) ≡ (ok tt, l'))
    × (l'.world.0 ≡ [] ++ reset_requests)
reset-requests_example = reset-requests steady steady-Answers (up ([], tt)) (refl, refl)

resume-requests_example :
    (l' : Link (List (List ℕ) × ⊤)) × (resume (logged steady) (up ([], tt)) ≡ (ok tt, l'))
    × (l'.world.0 ≡ [] ++ resume_requests)
resume-requests_example = resume-requests steady steady-Answers (up ([], tt)) (refl, refl)

abbrev v003 : Chip
v003 = chip "ch32v003" "ch32v0" 16 2 ram_std 0x09 0x0030 0x01 fb_v 64 2 ch32v0

chosen : (set_interface steady v003 (up tt)).0 ≡ ok tt
unfolding set_interface set_interface_raw command reply_ok
chosen = refl

set_interface_twice_example :
    set_interface steady v003 (set_interface steady v003 (up tt)).1
    ≡ (ok tt, (set_interface steady v003 (up tt)).1)
set_interface_twice_example = set_interface_twice steady v003 (up tt) chosen

found : identify_chip steady (up tt) ≡ (ok v003, up tt)
unfolding identify_chip identify_chip_once set_interface_raw command reply_ok send_control
    by_detect_id chips
found = refl

identify_chip-IsEntry_example : ((i : ℕ) × IsEntry chips i v003) × ((up tt).configured ≡ false)
identify_chip-IsEntry_example = identify_chip-IsEntry steady (up tt) (up tt) v003 found
