-- ===== src/Gdb/Session/Ending.antt =====
-- A session ends, with a sound table of breakpoints, and leaves none in use.
use libopenwch_tools.Prelude.{
  ℕ, zero, suc, ◌<◌, ◌≡◌, refl, sym, ap, ◌∙◌, Bool, true, false, Option, none, some, List, [], ◌∷◌,
  if◌then◌else◌, length, All, arith,
}
use mathlib.Core.Path.{subst}
use libopenwch_tools.Dm.Preserves.{IsKept}
use libopenwch_tools.Gdb.Preserves.Calls.{memory-IsKept}
use libopenwch_tools.Gdb.Breakpoint.Preserves.{clear-kept}
use libopenwch_tools.Target.{Chip}
use libopenwch_tools.Dm.Command.{Dmi}
use libopenwch_tools.Gdb.Packet.{receive, Received, packet_max}
use libopenwch_tools.Gdb.Packet.Shorter.{receive-shorter}
use libopenwch_tools.Gdb.Breakpoint.Slots.{
  IsFree, IsSound, clear-slots, clear-IsFree, clear-IsSound,
}
use libopenwch_tools.Gdb.Breakpoint.{Breakpoint}
use libopenwch_tools.Gdb.Patch.{memory}
use libopenwch_tools.Gdb.Connection.{Conn}
use libopenwch_tools.Gdb.Connection.Follows.{Follows, Follows-refl, send_all-Follows}
use libopenwch_tools.Gdb.Monitor.{c_string}
use libopenwch_tools.Gdb.Session.Steps.{Leads, handle_packet-Leads}
use libopenwch_tools.Gdb.Session.{
  Progress, next, waiting, clear_breakpoints, handle_packet, acknowledge, received_into, proceed,
  after_packet, finished, serve, session,
}

-- How many slots the table has when the loop is left, or while the core runs.
abbrev pub slots_of : {S : Type 0} → Progress S → ℕ
slots_of (next b polls) = length b.breakpoints
slots_of (waiting b) = length b.breakpoints

-- The table then.
abbrev pub table_of : {S : Type 0} → Progress S → List Breakpoint
table_of (next b polls) = b.breakpoints
table_of (waiting b) = b.breakpoints

-- The target then.
abbrev pub link_of : {S : Type 0} → Progress S → S
link_of (next b polls) = b.link
link_of (waiting b) = b.link

module _ {S : Type 0} (P : S → Type 0) {D : Dmi S} (kept : IsKept P D) (c : Chip) where
  -- The loop ends, with a table of that size that is sound if it was, and keeps `P` of the target.
  unfoldable pub Ends : Option (Progress S) → Conn S → Type 0
  Ends o a =
      (p : Progress S) × (o ≡ some p)
      × (slots_of p ≡ length a.breakpoints)
      × (P a.link → P (link_of p))
      × (All IsSound a.breakpoints → All IsSound (table_of p))

  acknowledge-Follows : (bytes : List ℕ) (a : Conn S) → Follows P a (acknowledge D c bytes a)
  unfolding acknowledge
  acknowledge-Follows [] a = Follows-refl a
  acknowledge-Follows (x ∷ bytes) a = send_all-Follows (x ∷ bytes) a

  proceed-Ends :
      (again : List Bool → Conn S → Option (Progress S)) (p : Progress S) (a : Conn S)
      → Leads P kept c a p
      → ((polls : List Bool) (b : Conn S) → Follows P a b → Ends (again polls b) b)
      → Ends (proceed D c again p) a
  unfolding proceed Ends Leads
  proceed-Ends again (waiting b) a f k = (waiting b, refl, f.slots, f.kept, f.sound)
  proceed-Ends again (next b polls) a f k =
      let r = k polls b f in (r.0, r.1, r.2 ∙ f.slots, λ p. r.3 (f.kept p), λ p. r.4 (f.sound p))

  after_packet-Ends :
      (again : List Bool → Conn S → Option (Progress S)) (polls : List Bool) (o : Option (List ℕ))
      (a : Conn S)
      → ((bytes : List ℕ)
          → o ≡ some bytes
          → (polls : List Bool) (b : Conn S) → Follows P a b
          → Ends (again polls b) b)
      → Ends (after_packet D c again polls o a) a
  unfolding after_packet Ends
  after_packet-Ends again polls none a k = (next a polls, refl, refl, λ p. p, λ p. p)
  after_packet-Ends again polls (some bytes) a k =
      proceed-Ends again (handle_packet D c (c_string bytes) polls a) a
        (handle_packet-Leads P kept c (c_string bytes) polls a) (k bytes refl)

  if-Ends :
      (t : Bool) (o p : Option (Progress S)) (a : Conn S)
      → Ends o a
      → Ends p a
      → Ends (if t then o else p) a
  if-Ends true o p a j k = j
  if-Ends false o p a j k = k

  -- What ends from a later connection ends from the one before it.
  Ends-before :
      (o : Option (Progress S)) (a b : Conn S)
      → length b.breakpoints ≡ length a.breakpoints
      → (P a.link → P b.link)
      → (All IsSound a.breakpoints → All IsSound b.breakpoints)
      → Ends o b
      → Ends o a
  unfolding Ends
  Ends-before o a b e k z r = (r.0, r.1, r.2 ∙ e, λ p. r.3 (k p), λ p. r.4 (z p))

  here-Ends : (polls : List Bool) (a : Conn S) → Ends (some (next a polls)) a
  unfolding Ends
  here-Ends polls a = (next a polls, refl, refl, λ p. p, λ p. p)

  serve-Ends :
      (rounds : ℕ) (polls : List Bool) (a : Conn S)
      → length a.incoming < rounds
      → Ends (serve D c rounds polls a) a
  unfolding serve received_into
  serve-Ends zero polls a l = absurd (omega arith)
  serve-Ends (suc rounds) polls a l =
      let r : Received = receive packet_max a.incoming in
      let start : Conn S = record a { incoming = r.rest } in
      let b : Conn S = acknowledge D c r.sent start in
      let f : Follows P start b = acknowledge-Follows r.sent start in
      if-Ends a.quit _ _ _ (here-Ends polls a) (
        Ends-before _ a b f.slots f.kept f.sound (
          after_packet-Ends (serve D c rounds) polls r.packet b (λ bytes e polls₁ d g.
            serve-Ends rounds polls₁ d (
              omega (
                arith,
                receive-shorter packet_max a.incoming bytes e,
                f.incoming_le,
                g.incoming_le,
                l,
              )))))

  finished-Ends :
      (p : Progress S) (a : Conn S)
      → slots_of p ≡ length a.breakpoints
      → (P a.link → P (link_of p))
      → (All IsSound a.breakpoints → All IsSound (table_of p))
      → Ends (finished D c (some p)) a
  unfolding finished clear_breakpoints Ends
  finished-Ends (next b polls) a e k z = (
    _,
    refl,
    clear-slots (memory D c) b.breakpoints b.link ∙ e,
    λ p. clear-kept (memory-IsKept kept c) b.breakpoints b.link (k p),
    λ p. clear-IsSound (memory D c) b.breakpoints b.link (z p),
  )
  finished-Ends (waiting b) a e k z = (waiting b, refl, e, k, z)

  pub session-Ends : (polls : List Bool) (conn : Conn S) → Ends (session D c polls conn) conn
  unfolding session Ends
  session-Ends polls conn =
      let r = serve-Ends (suc (length conn.incoming)) polls conn (omega arith) in
      subst (λ o. Ends (finished D c o) conn) (sym r.1) (finished-Ends r.0 conn r.2 r.3 r.4)

-- Nothing is asked of the target.
any-IsKept : {S : Type 0} (D : Dmi S) → IsKept (λ (s : S). Unit {0}) D
any-IsKept D = record {
  reads = λ r. record { run = λ s p. tt };
  writes = λ r v. record { run = λ s p. tt };
}

-- Where the loop was left, no slot of the table is in use.
abbrev pub Cleared : {S : Type 0} → Progress S → Type 0
Cleared (waiting b) = Unit
Cleared (next b polls) = All IsFree b.breakpoints

module _ {S : Type 0} (D : Dmi S) (c : Chip) where
  -- A session comes to its end whatever the debugger sends, unless it waits for a core that runs on:
  -- the bound on the rounds of its loop is never what ends it. The table of breakpoints keeps its
  -- size.
  pub session-ends :
      (polls : List Bool) (conn : Conn S)
      → (p : Progress S) × (session D c polls conn ≡ some p)
        × (slots_of p ≡ length conn.breakpoints)
  unfolding Ends
  session-ends polls conn =
      let r = session-Ends (λ s. Unit) (any-IsKept D) c polls conn in (r.0, r.1, r.2)

  finished-Cleared :
      (p : Progress S) → (q : Progress S) × (finished D c (some p) ≡ some q) × Cleared q
  unfolding finished clear_breakpoints
  finished-Cleared (waiting b) = (waiting b, refl, tt)
  finished-Cleared (next b polls) = (_, refl, clear-IsFree (memory D c) b.breakpoints b.link)

  -- From a table in which each breakpoint in use has two or four bytes and an address aligned to them,
  -- the server's loop ends, or waits for the core, with such a table again, whatever the debugger has
  -- sent; and the session, which clears the table when the loop was left, then has no breakpoint in
  -- use.
  pub session-IsSound :
      (polls : List Bool) (conn : Conn S)
      → All IsSound conn.breakpoints
      → (p : Progress S) × (serve D c (suc (length conn.incoming)) polls conn ≡ some p)
        × All IsSound (table_of p)
        × (q : Progress S) × (session D c polls conn ≡ some q)
        × Cleared q
  unfolding session Ends
  session-IsSound polls conn sound =
      let r =
        serve-Ends (λ s. Unit) (any-IsKept D) c (suc (length conn.incoming)) polls conn
          (omega arith) in
      let f = finished-Cleared r.0 in (r.0, r.1, r.4 sound, f.0, ap (finished D c) r.1 ∙ f.1, f.2)
