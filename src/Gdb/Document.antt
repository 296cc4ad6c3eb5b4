-- ===== src/Gdb/Document.antt =====
-- The documents that the debugger reads in pieces (src/gdb_server.c): qXfer.
pub mod Pieces
use libopenwch_tools.Prelude.{
  ℕ, zero, suc, ◌+◌, ◌-◌, ◌/◌, ◌%◌, Bool, true, false, ◌&&◌, ◌||◌, not, Option, none, some, List,
  [], ◌∷◌, ◌++◌, ◌==◌, leb, ltb, if◌then◌else◌, get_or, take, drop, length, codes, list_eq, ◌>>>◌,
}
use libopenwch_tools.Target.{Chip}
use libopenwch_tools.Gdb.Hex.{parse_hex_u32, format_hex_byte, hex_digit}
use libopenwch_tools.Gdb.Packet.{packet_max}
use libopenwch_tools.Gdb.Registers.{after_char, rv32e_gprs, reg_pc}

-- `%u`, with a digit for each round at most.
decimal_digits : ℕ → ℕ → List ℕ → List ℕ
decimal_digits zero n acc = acc
decimal_digits (suc rounds) n acc =
    let later = decimal_digits rounds (n / 10) ((b'0' + n % 10) ∷ acc) in
    if ltb n 10 then (b'0' + n) ∷ acc else later

-- Ten digits are enough for 32 bits.
unfoldable pub decimal : ℕ → List ℕ
unfolding decimal_digits
decimal n = decimal_digits 10 n []

-- `%08x`
unfoldable pub hex8 : ℕ → List ℕ
hex8 n =
    format_hex_byte (n >>> 24)
    ++ (format_hex_byte (n >>> 16 % 256)
        ++ (format_hex_byte (n >>> 8 % 256) ++ format_hex_byte (n % 256)))

-- `%x`
strip_zeros : List ℕ → List ℕ
strip_zeros [] = []
strip_zeros (c ∷ []) = c ∷ []
strip_zeros (c ∷ d ∷ text) =
    let later = strip_zeros (d ∷ text) in if c == b'0' then later else c ∷ d ∷ text

unfoldable pub hex : ℕ → List ℕ
unfolding hex8 strip_zeros
hex n = strip_zeros (hex8 n)

reg_elements : ℕ → ℕ → List ℕ
reg_elements zero reg = []
reg_elements (suc n) reg =
    codes "<reg name=\"x"
    ++ (decimal reg
        ++ (codes "\" bitsize=\"32\" type=\"uint32\" regnum=\""
            ++ (decimal reg ++ (codes "\"/>" ++ reg_elements n (reg + 1)))))

-- `build_target_xml`
unfoldable pub target_xml : List ℕ
unfolding reg_elements decimal
target_xml =
    codes "<?xml version=\"1.0\"?>"
    ++ (codes "<!DOCTYPE target SYSTEM \"gdb-target.dtd\">"
        ++ (codes "<target>"
            ++ (codes "<architecture>riscv:rv32</architecture>"
                ++ (codes "<feature name=\"org.gnu.gdb.riscv.cpu\">"
                    ++ (reg_elements rv32e_gprs 0
                        ++ (codes "<reg name=\"pc\" bitsize=\"32\" type=\"code_ptr\" regnum=\""
                            ++ (decimal reg_pc ++ codes "\"/></feature></target>")))))))

-- `build_memory_map`
unfoldable pub memory_map : Chip → List ℕ
unfolding hex8 hex decimal
memory_map c =
    codes "<?xml version=\"1.0\"?>"
    ++ (codes "<!DOCTYPE memory-map PUBLIC \"+//IDN gnu.org//DTD GDB Memory Map V1.0//EN\" "
        ++ (codes "\"http://sourceware.org/gdb/gdb-memory-map.dtd\">"
            ++ (codes "<memory-map>"
                ++ (codes "<memory type=\"flash\" start=\"0x"
                    ++ (hex8 c.flash_base
                        ++ (codes "\" length=\"0x"
                            ++ (hex c.flash_size
                                ++ (codes "\"><property name=\"blocksize\">"
                                    ++ (decimal (if c.erase_size == 0 then 4096 else c.erase_size)
                                        ++ (codes
                                              "</property></memory><memory type=\"ram\" start=\"0x"
                                            ++ (hex8 c.ram_offset
                                                ++ (codes "\" length=\"0x"
                                                    ++ (hex c.ram_size
                                                        ++ codes "\"/></memory-map>")))))))))))))

-- `gdb_qxfer_reply`, the payload that it sends.
unfoldable pub qxfer_reply : List ℕ → ℕ → ℕ → List ℕ
qxfer_reply bytes offset requested =
    let room = if ltb (packet_max - 1) requested then packet_max - 1 else requested in
    let rest = length bytes - offset in
    let count = if ltb room rest then room else rest in
    if leb (length bytes) offset
    then b'l' ∷ []
    else if count == 0
    then b'l' ∷ []
    else (if leb (length bytes) (offset + count) then b'l' else b'm')
      ∷ take count (drop offset bytes)

-- What a text has before the first of a character, and before the last of it.
unfoldable pub before_char : ℕ → List ℕ → List ℕ
before_char c [] = []
before_char c (x ∷ text) = let later = before_char c text in if x == c then [] else x ∷ later

-- `strrchr`, with what stands before the character and what follows it.
split_last : ℕ → List ℕ → Option (List ℕ × List ℕ)
split_last c [] = none
split_last c (x ∷ text) = elim (split_last c text) [
  | some p ↦ some (x ∷ p.0, p.1)
  | none ↦ if x == c then some ([], text) else none
]

unfoldable pub starts_with : List ℕ → List ℕ → Bool
starts_with [] text = true
starts_with (c ∷ prefix) [] = false
starts_with (c ∷ prefix) (x ∷ text) = (c == x) && starts_with prefix text

-- The documents by their names.
document_of : Chip → List ℕ → List ℕ → Option (List ℕ)
unfolding target_xml memory_map
document_of c object annex =
    if list_eq object (codes "features") && list_eq annex (codes "target.xml")
    then some target_xml
    else if list_eq object (codes "memory-map") && (length annex == 0)
    then some (memory_map c)
    else none

-- The offset, the length and the document.
window_reply : Option (List ℕ) → Option (ℕ × List ℕ) → Option (List ℕ)
window_reply document none = none
window_reply none (some p) = none
window_reply (some bytes) (some (offset, rest)) =
    if get_or rest 0 0 == b','
    then elim (parse_hex_u32 (drop 1 rest)) [
      | none ↦ none
      | some p ↦ some (qxfer_reply bytes offset p.0)
    ]
    else none

annex_reply : Chip → List ℕ → Option (List ℕ × List ℕ) → Option (List ℕ)
unfolding document_of window_reply
annex_reply c object none = none
annex_reply c object (some (annex, window)) =
    if leb 64 (length annex)
    then none
    else window_reply (document_of c object annex) (parse_hex_u32 window)

operation_reply : Chip → List ℕ → Option (List ℕ) → Option (List ℕ)
unfolding annex_reply starts_with split_last after_char
operation_reply c object none = none
operation_reply c object (some text) =
    if leb 64 (length object)
    then none
    else if not (starts_with (codes "read:") text)
    then none
    else elim (after_char b':' text) [
      | none ↦ none
      | some rest ↦ annex_reply c object (split_last b':' rest)
    ]

or_empty : Option (List ℕ) → List ℕ
or_empty none = []
or_empty (some payload) = payload

-- `gdb_handle_qxfer`, the payload that it sends; an empty one for what it does not know.
unfoldable pub handle_qxfer : Chip → List ℕ → List ℕ
unfolding operation_reply before_char or_empty
handle_qxfer c payload =
    let object_start = drop 6 payload in
    or_empty (operation_reply c (before_char b':' object_start) (after_char b':' object_start))
