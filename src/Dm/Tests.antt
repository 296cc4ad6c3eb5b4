-- ===== src/Dm/Tests.antt =====
-- Runs of the debug-module layer against registers and a memory made up here.
use libopenwch_tools.Prelude.{
  ℕ, suc, ◌+◌, ◌%◌, ◌<◌, ◌≡◌, ◌≢◌, refl, ltb, ◌==◌, if◌then◌else◌, bit_and, arith,
}
use libopenwch_tools.Status.{Action, ok, err, target}
use libopenwch_tools.Dm.Command.{Dmi, abstractcs, busy_mask, cmderr_mask, wait_for}
use libopenwch_tools.Dm.Command.Wait.{Polls, wait_for-idle, wait_for-busy}
use libopenwch_tools.Dm.Memory.{read_block_by}
use libopenwch_tools.Dm.Memory.Block.{IsReadable, bytes_from, word_at, read_block_by-Reads}

-- A debug module that counts the accesses, and is busy for the first `n` of them.
abbrev busy_for : ℕ → Dmi ℕ
busy_for n = record {
  read = λ reg s. (ok (if ltb s n then 0x1000 else 0), suc s);
  write = λ reg value s. (ok tt, suc s);
}

abbrev answer : ℕ → ℕ → ℕ
answer n i = if ltb i n then 0x1000 else 0

polled : (n : ℕ) → Polls (busy_for n) (λ i. i) (answer n)
polled n i = refl

busy_before : (n j : ℕ) → j < n → bit_and (answer n j) busy_mask ≢ 0
busy_before n j h = ground arith

wait_for-idle_example : wait_for (busy_for 2) 5 0 ≡ (
    if bit_and (answer 2 2) cmderr_mask == 0
    then (ok tt, 3)
    else (err target, ((busy_for 2).write abstractcs 0x700 3).1))
wait_for-idle_example =
    wait_for-idle (busy_for 2) (λ i. i) (answer 2) 2 5 (polled 2) (omega arith) (busy_before 2) refl

wait_for-busy_example : wait_for (busy_for 9) 5 0 ≡ (err target, 5)
wait_for-busy_example =
    wait_for-busy (busy_for 9) (λ i. i) (answer 9) 4 (polled 9)
      (λ j h. busy_before 9 j (omega arith))

-- A memory that holds the low byte of each address, read with junk above the byte.
abbrev pub low_byte : ℕ → ℕ
low_byte a = a % 256

abbrev pub read_low : ℕ → ℕ → Action ℕ ℕ
read_low size_log2 a s =
    (ok (if size_log2 == 2 then word_at low_byte a else 0xff00 + low_byte a), suc s)

pub read_low-IsReadable : IsReadable read_low (λ s. Unit) low_byte 0x0800_0000 0x0800_4000
read_low-IsReadable = record {
  below = omega arith;
  byte_lt = λ a. omega arith;
  byte = λ a s _ l h. (0xff00 + low_byte a, suc s, refl, omega arith, tt);
  word = λ a s _ l h aligned. (suc s, refl, tt);
}

read_block_by-Reads_example :
    (s' : ℕ) × (read_block_by read_low 0x0800_0003 7 0
      ≡ (ok (bytes_from low_byte 0x0800_0003 7), s'))
    × Unit {0}
read_block_by-Reads_example =
    read_block_by-Reads read_low-IsReadable 7 0x0800_0003 0 tt (omega arith) (omega arith)
