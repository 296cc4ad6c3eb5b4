-- ===== src/Target/Table.antt =====
-- The part table (src/target.c, src/target.h).
use Prim.Native.String.{String}
use libopenwch_tools.Prelude.{ℕ, ◌*◌, List, [], ◌∷◌, ◌++◌, codes}

-- `enum wl_flash_algo`
pub data FlashAlgo : Type 0 where
  unsupported ch32v0 : FlashAlgo

-- `wl_chip_t`; a name is the list of its bytes.
pub record Chip : Type 0 where
  pub name : List ℕ
  pub family : List ℕ
  pub flash_size : ℕ
  pub ram_size : ℕ
  pub ram_offset : ℕ
  pub linke_id : ℕ
  pub model_id : ℕ
  pub interface_speed : ℕ
  pub flash_base : ℕ
  pub erase_size : ℕ
  pub program_size : ℕ
  pub algo : FlashAlgo

abbrev pub ram_std : ℕ
ram_std = 0x2000_0000

abbrev pub ram_ch571 : ℕ
ram_ch571 = 0x2000_3800

abbrev pub fb_v : ℕ
fb_v = 0x0800_0000

abbrev pub fb_c : ℕ
fb_c = 0

-- The macros `CHIP` and `K`: the sizes of flash and RAM are given in units of 1024 bytes.
abbrev pub chip : String → String → ℕ → ℕ → ℕ → ℕ → ℕ → ℕ → ℕ → ℕ → ℕ → FlashAlgo → Chip
chip nm fam fl rm ro id mid spd fb er pr algo = record {
  name = codes nm;
  family = codes fam;
  flash_size = fl * 1024;
  ram_size = rm * 1024;
  ram_offset = ro;
  linke_id = id;
  model_id = mid;
  interface_speed = spd;
  flash_base = fb;
  erase_size = er;
  program_size = pr;
  algo = algo;
}

abbrev pub chips_v0 : List Chip
chips_v0 =
    chip "ch32v003" "ch32v0" 16 2 ram_std 0x09 0x0030 0x01 fb_v 64 2 ch32v0
    ∷ chip "ch32v002" "ch32v0" 16 4 ram_std 0x4e 0x0020 0x01 fb_v 64 2 ch32v0
    ∷ chip "ch32v004" "ch32v0" 32 6 ram_std 0x4e 0x0040 0x01 fb_v 64 2 ch32v0
    ∷ chip "ch32v005" "ch32v0" 32 6 ram_std 0x4e 0x0050 0x01 fb_v 64 2 ch32v0
    ∷ chip "ch32v006" "ch32v0" 62 8 ram_std 0x4e 0x0060 0x01 fb_v 64 2 ch32v0
    ∷ chip "ch32v007" "ch32v0" 62 8 ram_std 0x4e 0x0070 0x01 fb_v 64 2 ch32v0
    ∷ []

abbrev pub chips_v4 : List Chip
chips_v4 =
    chip "ch32v103" "ch32v0v4" 64 20 ram_std 0x01 0x2500 0x01 fb_v 0 0 unsupported
    ∷ chip "ch32v203" "ch32v0v4" 64 20 ram_std 0x05 0x2030 0x01 fb_v 0 0 unsupported
    ∷ chip "ch32v208" "ch32v0v4" 64 20 ram_std 0x05 0x2080 0x01 fb_v 0 0 unsupported
    ∷ chip "ch32v303" "ch32v0v4" 288 32 ram_std 0x06 0x3030 0x01 fb_v 0 0 unsupported
    ∷ chip "ch32v305" "ch32v0v4" 288 32 ram_std 0x06 0x3050 0x01 fb_v 0 0 unsupported
    ∷ chip "ch32v307" "ch32v0v4" 288 32 ram_std 0x06 0x3070 0x01 fb_v 0 0 unsupported
    ∷ []

abbrev pub chips_x : List Chip
chips_x =
    chip "ch32x033" "ch32x0" 62 20 ram_std 0x0d 0x0330 0x01 fb_v 0 0 unsupported
    ∷ chip "ch32x035" "ch32x0" 62 20 ram_std 0x0d 0x0350 0x01 fb_v 0 0 unsupported
    ∷ chip "ch32l103" "ch32l1" 64 20 ram_std 0x0e 0x1030 0x01 fb_v 0 0 unsupported
    ∷ []

abbrev pub chips_57x : List Chip
chips_57x =
    chip "ch570" "ch5xx57x" 240 12 ram_std 0x8b 0x7000 0x03 fb_c 0 0 unsupported
    ∷ chip "ch572" "ch5xx57x" 240 12 ram_std 0x8b 0x7200 0x03 fb_c 0 0 unsupported
    ∷ chip "ch571" "ch5xx57x" 192 18 ram_ch571 0x02 0x7100 0x02 fb_c 0 0 unsupported
    ∷ chip "ch573" "ch5xx57x" 448 18 ram_ch571 0x02 0x7300 0x02 fb_c 0 0 unsupported
    ∷ []

abbrev pub chips_58x : List Chip
chips_58x =
    chip "ch582" "ch5xx58x" 448 32 ram_std 0x07 0x8200 0x03 fb_c 0 0 unsupported
    ∷ chip "ch583" "ch5xx58x" 448 32 ram_std 0x07 0x8300 0x03 fb_c 0 0 unsupported
    ∷ chip "ch584" "ch5xx58x" 448 96 ram_std 0x4b 0x8400 0x02 fb_c 0 0 unsupported
    ∷ chip "ch585" "ch5xx58x" 448 128 ram_std 0x4b 0x9300 0x02 fb_c 0 0 unsupported
    ∷ []

abbrev pub chips_59x : List Chip
chips_59x =
    chip "ch591" "ch5xx59x" 192 26 ram_std 0x0b 0x9100 0x03 fb_c 0 0 unsupported
    ∷ chip "ch592" "ch5xx59x" 448 26 ram_std 0x0b 0x9200 0x03 fb_c 0 0 unsupported
    ∷ []

-- `wl_chip_all`: the table in declaration order.
unfoldable pub chips : List Chip
chips = chips_v0 ++ (chips_v4 ++ (chips_x ++ (chips_57x ++ (chips_58x ++ chips_59x))))
