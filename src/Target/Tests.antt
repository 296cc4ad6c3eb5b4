-- ===== src/Target/Tests.antt =====
-- Runs of the lookups in the part table.
use libopenwch_tools.Prelude.{
  get_elem?, ℕ, ◌/◌, ◌≡◌, refl, ◌↔◌, ◌⊎◌, true, none, some, codes, map, arith,
}
use libopenwch_tools.Target.Table.{Chip, ch32v0, chip, ram_std, fb_v, chips}
use libopenwch_tools.Target.Detect.{by_detect_id, by_detect_id_iff, IsEntry}
use libopenwch_tools.Target.Name.{by_name, same, tolower}
use libopenwch_tools.Target.Name.Longest.{by_name-IsLongest, IsLongest, NoPrefix}
use libopenwch_tools.Target.Name.Same.{same_iff, chips-IsFound, by_name-tolower}

abbrev pub v003 : Chip
v003 = chip "ch32v003" "ch32v0" 16 2 ram_std 0x09 0x0030 0x01 fb_v 64 2 ch32v0

by_detect_id_iff_example : (by_detect_id 0x09 0x0033 ≡ some v003) ↔ (
    ((i : ℕ) × IsEntry chips i v003) × (v003.linke_id ≡ 0x09) × (v003.model_id / 16 ≡ 0x0033 / 16))
by_detect_id_iff_example = by_detect_id_iff 0x09 0x0033 v003 (omega arith)

detects_v003 : by_detect_id 0x09 0x0033 ≡ some v003
detects_v003 = by_detect_id_iff_example.1 ((0, unfold chips in refl), refl, refl)

by_name-IsLongest_example :
    ((c : Chip) × (by_name (some (codes "CH32V003F4")) ≡ some c)
      × IsLongest chips (codes "CH32V003F4") c)
    ⊎ ((by_name (some (codes "CH32V003F4")) ≡ none) × NoPrefix chips (codes "CH32V003F4"))
by_name-IsLongest_example = by_name-IsLongest b'C' (codes "H32V003F4")

same_iff_example : (same (some (codes "ch32v003")) (some (codes "CH32V003A4")) ≡ true) ↔ (
    (c : Chip) × (by_name (some (codes "ch32v003")) ≡ some c)
    × (by_name (some (codes "CH32V003A4")) ≡ some c))
same_iff_example = same_iff (some (codes "ch32v003")) (some (codes "CH32V003A4"))

by_name-tolower_example :
    by_name (some (map tolower (codes "CH32V307"))) ≡ by_name (some (codes "CH32V307"))
by_name-tolower_example = by_name-tolower (codes "CH32V307")

first_entry : get_elem? chips 0 ≡ some v003
unfolding chips
first_entry = refl

chips-IsFound_example :
    (by_name (some v003.name) ≡ some v003) × (by_detect_id v003.linke_id v003.model_id ≡ some v003)
chips-IsFound_example = chips-IsFound 0 v003 first_entry
