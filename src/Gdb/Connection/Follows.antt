-- ===== src/Gdb/Connection/Follows.antt =====
-- What sending and calls on the target leave of the connection.
use libopenwch_tools.Prelude.{
  ℕ, zero, suc, ◌≤◌, ◌≡◌, refl, ◌∙◌, Bool, true, false, List, [], ◌∷◌, ◌++◌, ◌==◌, if◌then◌else◌,
  length, drop, take, arith, codes, All,
}
use libopenwch_tools.Status.{Result, ok, err}
use libopenwch_tools.Status.Preserves.{Preserves}
use libopenwch_tools.Gdb.Hex.{format_hex_byte, format_hex_bytes}
use libopenwch_tools.Gdb.Packet.{framed}
use libopenwch_tools.Gdb.Breakpoint.Slots.{IsSound}
use libopenwch_tools.Gdb.Connection.{
  Conn, send_while, send_all, quit_if, await_ack, sent_first, send_packet, send_chunks, output_max,
  send_output, send_stop,
}
use libopenwch_tools.Gdb.Registers.{on_link, reply}

-- No byte comes in again, the table of breakpoints keeps its size and stays sound, and `P` holds of
-- the target where it held before.
pub record Follows {S : Type 0} (P : S → Type 0) (a b : Conn S) : Type 0 where
  pub incoming_le : length b.incoming ≤ length a.incoming
  pub slots : length b.breakpoints ≡ length a.breakpoints
  pub kept : P a.link → P b.link
  pub sound : All IsSound a.breakpoints → All IsSound b.breakpoints

module _ {S : Type 0} {P : S → Type 0} where
  pub Follows-refl : (a : Conn S) → Follows P a a
  Follows-refl a = record { incoming_le = omega arith; slots = refl; kept = λ p. p; sound = λ p. p }

  pub Follows-trans : (a b d : Conn S) → Follows P a b → Follows P b d → Follows P a d
  Follows-trans a b d f g = record {
    incoming_le = omega (arith, f.incoming_le, g.incoming_le);
    slots = g.slots ∙ f.slots;
    kept = λ p. g.kept (f.kept p);
    sound = λ p. g.sound (f.sound p);
  }

  pub if-Follows :
      (t : Bool) (a b d : Conn S) → Follows P a b → Follows P a d → Follows P a (if t then b else d)
  if-Follows true a b d f g = f
  if-Follows false a b d f g = g

  send_while-Follows : (n : ℕ) (bytes : List ℕ) (a : Conn S) → Follows P a (send_while n bytes a).0
  unfolding send_while
  send_while-Follows zero bytes a = Follows-refl a
  send_while-Follows (suc n) bytes a = record {
    incoming_le = omega arith;
    slots = refl;
    kept = λ p. p;
    sound = λ p. p;
  }

  pub send_all-Follows : (bytes : List ℕ) (a : Conn S) → Follows P a (send_all bytes a).0
  unfolding send_all
  send_all-Follows bytes a = send_while-Follows a.sends_left bytes a

  quit_if-Follows : (p : Conn S × Bool) → Follows P p.0 (quit_if p)
  unfolding quit_if
  quit_if-Follows (a, true) = record {
    incoming_le = omega arith;
    slots = refl;
    kept = λ p. p;
    sound = λ p. p;
  }
  quit_if-Follows (a, false) = Follows-refl a

  -- The wait leaves a part of the bytes that were to come.
  await_ack-Follows :
      (bytes stream : List ℕ) (a b : Conn S)
      → length stream ≤ length a.incoming
      → length b.breakpoints ≡ length a.breakpoints
      → (P a.link → P b.link)
      → (All IsSound a.breakpoints → All IsSound b.breakpoints)
      → Follows P a (await_ack bytes stream b)
  unfolding await_ack
  await_ack-Follows bytes [] a b l s k z = record {
    incoming_le = omega arith;
    slots = s;
    kept = k;
    sound = z;
  }
  await_ack-Follows bytes (x ∷ stream) a b l s k z =
      let q = Follows-trans b _ _ (send_all-Follows bytes b) (quit_if-Follows (send_all bytes b)) in
      if-Follows (x == b'+') a _ _
        (record { incoming_le = omega arith; slots = s; kept = k; sound = z })
        (if-Follows (x == b'-') a _ _
          (await_ack-Follows bytes stream a (quit_if (send_all bytes b)) (omega arith) (q.slots ∙ s)
            (λ p. q.kept (k p)) (λ p. q.sound (z p)))
          (await_ack-Follows bytes stream a b (omega arith) s k z))

  sent_first-Follows : (bytes : List ℕ) (p : Conn S × Bool) → Follows P p.0 (sent_first bytes p)
  unfolding sent_first
  sent_first-Follows bytes (a, true) = record {
    incoming_le = omega arith;
    slots = refl;
    kept = λ p. p;
    sound = λ p. p;
  }
  sent_first-Follows bytes (a, false) =
      await_ack-Follows bytes a.incoming a a (omega arith) refl (λ p. p) (λ p. p)

  pub send_packet-Follows : (payload : List ℕ) (a : Conn S) → Follows P a (send_packet payload a)
  unfolding send_packet
  send_packet-Follows payload a =
      Follows-trans a (send_all (framed payload) a).0 _ (send_all-Follows (framed payload) a)
        (sent_first-Follows (framed payload) (send_all (framed payload) a))

  send_chunks-Follows :
      (rounds : ℕ) (text : List ℕ) (a : Conn S) → Follows P a (send_chunks rounds text a)
  unfolding send_chunks
  send_chunks-Follows zero text a = Follows-refl a
  send_chunks-Follows (suc rounds) [] a = Follows-refl a
  send_chunks-Follows (suc rounds) (x ∷ text) a =
      let payload = b'O' ∷ format_hex_bytes (take output_max (x ∷ text)) in
      Follows-trans a (send_packet payload a) _ (send_packet-Follows payload a)
        (send_chunks-Follows rounds (drop output_max (x ∷ text)) (send_packet payload a))

  pub send_output-Follows : (text : List ℕ) (a : Conn S) → Follows P a (send_output text a)
  unfolding send_output
  send_output-Follows text a = send_chunks-Follows (length text) text a

  pub send_stop-Follows : (signal : ℕ) (a : Conn S) → Follows P a (send_stop signal a)
  unfolding send_stop
  send_stop-Follows signal a =
      send_packet-Follows (b'T' ∷ format_hex_byte signal ++ codes "thread:1;") a

  pub on_link-Follows :
      {A : Type 0} (call : S → A × S) (a : Conn S)
      → Preserves P call
      → Follows P a (on_link call a).1
  unfolding on_link
  on_link-Follows call a k = record {
    incoming_le = omega arith;
    slots = refl;
    kept = k.run a.link;
    sound = λ p. p;
  }

  pub reply-Follows : (p : Result (List ℕ) × Conn S) → Follows P p.1 (reply p)
  reply-Follows (ok payload, a) = send_packet-Follows payload a
  reply-Follows (err e, a) = send_packet-Follows (codes "E01") a

  -- A handler that makes calls on the target and then replies.
  pub replied-Follows :
      (call : S → Result (List ℕ) × S)
      → Preserves P call
      → (a : Conn S) → Follows P a (reply (on_link call a))
  replied-Follows call k a =
      Follows-trans a (on_link call a).1 _ (on_link-Follows call a k)
        (reply-Follows (on_link call a))
