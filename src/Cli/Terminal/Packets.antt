-- ===== src/Cli/Terminal/Packets.antt =====
-- What the terminal shows of a packet as the target writes it.
use libopenwch_tools.Prelude.{
  ℕ, zero, suc, ◌+◌, ◌-◌, ◌*◌, ◌/◌, ◌%◌, ◌≤◌, ◌<◌, ◌≡◌, refl, ap, ap₂, List, [], ◌∷◌, ◌++◌, ◌==◌,
  ltb, true, if◌then◌else◌, length, All, arith,
}
use libopenwch_tools.Status.{Result, ok}
use libopenwch_tools.Dm.Command.{Dmi, data0}
use libopenwch_tools.Cli.Terminal.{
  data1, announced, text, bytes_of, packet_text, Shown, shown, take_packet, read_packet,
}

-- DATA0 and DATA1 of a debug module that keeps what is written.
pub record Data : Type 0 where
  pub word0 : ℕ
  pub word1 : ℕ

-- The two registers; all others are 0.
abbrev pub registers : Dmi Data
registers = record {
  read = λ reg s. (ok (if reg == data0 then s.word0 else if reg == data1 then s.word1 else 0), s);
  write = λ reg value s. (
    ok tt,
    if reg == data0
        then record s { word0 = value }
        else if reg == data1
        then record s { word1 = value }
        else s,
  );
}

-- The two ways to announce a length: WCH's, and ch32fun's with bit 7 set and 4 added.
pub data Shape : Type 0 where
  wch ch32fun : Shape

abbrev pub low_byte : Shape → ℕ → ℕ
low_byte wch n = n
low_byte ch32fun n = 0x80 + (n + 4)

-- Bytes as one number, the first one lowest.
abbrev pub little : List ℕ → ℕ
little [] = 0
little (c ∷ cs) = c + 256 * little cs

abbrev pub first_3 : List ℕ → List ℕ
first_3 [] = []
first_3 (a ∷ []) = a ∷ []
first_3 (a ∷ b ∷ []) = a ∷ b ∷ []
first_3 (a ∷ b ∷ c ∷ cs) = a ∷ b ∷ c ∷ []

abbrev pub behind_3 : List ℕ → List ℕ
behind_3 [] = []
behind_3 (a ∷ []) = []
behind_3 (a ∷ b ∷ []) = []
behind_3 (a ∷ b ∷ c ∷ cs) = cs

-- What the target writes for a text of one to seven bytes.
abbrev pub sent : Shape → List ℕ → Data
sent shape cs = record {
  word0 = low_byte shape (length cs) + 256 * little (first_3 cs);
  word1 = little (behind_3 cs);
}

abbrev Byte : ℕ → Type 0
Byte c = c < 256

low_word : (low rest : ℕ) → low < 256 → (low + 256 * rest) % 256 ≡ low
low_word low rest l = omega (arith, l)

high_word : (low rest : ℕ) → low < 256 → (low + 256 * rest) / 256 ≡ rest
high_word low rest l = omega (arith, l)

bytes_of-little : (cs : List ℕ) → All Byte cs → bytes_of (length cs) (little cs) ≡ cs
unfolding bytes_of
bytes_of-little [] b = refl
bytes_of-little (c ∷ cs) b =
    ap₂ (λ x xs. x ∷ xs) (low_word c (little cs) b.0)
      (rw (high_word c (little cs) b.0) (bytes_of-little cs b.1))

low_lt : (shape : Shape) (n : ℕ) → n ≤ 7 → low_byte shape n < 256
low_lt wch n l = omega (arith, l)
low_lt ch32fun n l = omega (arith, l)

announced-low_byte : (shape : Shape) (n : ℕ) → 1 ≤ n → n ≤ 7 → announced (low_byte shape n) ≡ text n
unfolding announced
announced-low_byte wch zero j k = absurd (omega (arith, j))
announced-low_byte wch (suc zero) j k = refl
announced-low_byte wch (suc (suc zero)) j k = refl
announced-low_byte wch (suc (suc (suc zero))) j k = refl
announced-low_byte wch (suc (suc (suc (suc zero)))) j k = refl
announced-low_byte wch (suc (suc (suc (suc (suc zero))))) j k = refl
announced-low_byte wch (suc (suc (suc (suc (suc (suc zero)))))) j k = refl
announced-low_byte wch (suc (suc (suc (suc (suc (suc (suc zero))))))) j k = refl
announced-low_byte wch (suc (suc (suc (suc (suc (suc (suc (suc n)))))))) j k =
    absurd (omega (arith, k))
announced-low_byte ch32fun zero j k = absurd (omega (arith, j))
announced-low_byte ch32fun (suc zero) j k = refl
announced-low_byte ch32fun (suc (suc zero)) j k = refl
announced-low_byte ch32fun (suc (suc (suc zero))) j k = refl
announced-low_byte ch32fun (suc (suc (suc (suc zero)))) j k = refl
announced-low_byte ch32fun (suc (suc (suc (suc (suc zero))))) j k = refl
announced-low_byte ch32fun (suc (suc (suc (suc (suc (suc zero)))))) j k = refl
announced-low_byte ch32fun (suc (suc (suc (suc (suc (suc (suc zero))))))) j k = refl
announced-low_byte ch32fun (suc (suc (suc (suc (suc (suc (suc (suc n)))))))) j k =
    absurd (omega (arith, k))

-- The end of a round that shows the text.
abbrev shown_clear : List ℕ → Result Shown × Data
shown_clear cs = (ok (shown cs), record { word0 = 0; word1 = 0 })

-- The bytes before and behind the third one.
parts-sent :
    (shape : Shape) (n : ℕ) (front back : List ℕ)
    → n ≤ 7
    → All Byte front
    → All Byte back
    → bytes_of (length front) ((low_byte shape n + 256 * little front) / 256)
        ++ bytes_of (length back) (little back)
      ≡ front ++ back
parts-sent shape n front back k f b =
    ap₂ (λ xs ys. xs ++ ys)
      (rw (high_word (low_byte shape n) (little front) (low_lt shape n k))
        (bytes_of-little front f))
      (bytes_of-little back b)

is_longer : (n : ℕ) → ltb 3 (suc (suc (suc (suc n)))) ≡ true
is_longer n = ground arith

is_behind : (n : ℕ) → suc (suc (suc (suc n))) - 3 ≡ suc n
is_behind n = omega arith

-- What is shown of a packet whose length is known.
take_packet-sent :
    (shape : Shape) (cs : List ℕ)
    → All Byte cs
    → length cs ≤ 7
    → take_packet registers (sent shape cs).word0 (text (length cs)) (sent shape cs)
      ≡ (ok (shown cs), record { word0 = 0; word1 = 0 })
unfolding take_packet packet_text
take_packet-sent shape [] b k = refl
take_packet-sent shape (x ∷ []) b k = ap shown_clear (parts-sent shape 1 (x ∷ []) [] k b tt)
take_packet-sent shape (x ∷ y ∷ []) b k = ap shown_clear (parts-sent shape 2 (x ∷ y ∷ []) [] k b tt)
take_packet-sent shape (x ∷ y ∷ z ∷ []) b k =
    ap shown_clear (parts-sent shape 3 (x ∷ y ∷ z ∷ []) [] k b tt)
take_packet-sent shape (x ∷ y ∷ z ∷ t ∷ cs) b k =
    rw (is_longer (length cs), is_behind (length cs))
      (ap shown_clear (
        parts-sent shape (length (x ∷ y ∷ z ∷ t ∷ cs)) (x ∷ y ∷ z ∷ []) (t ∷ cs) k
          (b.0, (b.1.0, (b.1.1.0, tt))) b.1.1.1))

-- A text of one to seven bytes that the target writes in either shape is what the terminal shows,
-- and both registers are 0 after that, which tells the target that it may write again.
pub read_packet-sent :
    (shape : Shape) (cs : List ℕ)
    → All Byte cs
    → 1 ≤ length cs
    → length cs ≤ 7
    → read_packet registers (sent shape cs) ≡ (ok (shown cs), record { word0 = 0; word1 = 0 })
unfolding read_packet
read_packet-sent shape cs b j k =
    rw
      (
        low_word (low_byte shape (length cs)) (little (first_3 cs)) (low_lt shape (length cs) k),
        announced-low_byte shape (length cs) j k,
      )
      (take_packet-sent shape cs b k)
