-- ===== src/Gdb/Session.antt =====
-- The dispatch of packets and the server's loop (src/gdb_server.c).
pub mod Steps
pub mod Ending
mod Tests
use libopenwch_tools.Prelude.{
  ℕ, zero, suc, ◌+◌, Bool, true, false, ◌&&◌, ◌||◌, not, Option, none, some, List, [], ◌∷◌, ◌++◌,
  ◌==◌, if◌then◌else◌, get_or, drop, length, codes, list_eq,
}
use libopenwch_tools.Status.{Action, Result, ok, err, ⊤, ignore, ◌>>=◌, ◌>>◌}
use libopenwch_tools.Target.{Chip}
use libopenwch_tools.Dm.Command.{Dmi}
use libopenwch_tools.Gdb.Hex.{parse_hex_u32}
use libopenwch_tools.Gdb.Packet.{receive, Received, packet_max}
use libopenwch_tools.Gdb.Breakpoint.{Breakpoint, Outcome, insert, remove, clear}
use libopenwch_tools.Gdb.Patch.{memory}
use libopenwch_tools.Gdb.Connection.{Conn, send_all, send_packet, send_text, send_stop}
use libopenwch_tools.Gdb.Document.{handle_qxfer, starts_with}
use libopenwch_tools.Gdb.Registers.{on_link, handle_g, handle_p}
use libopenwch_tools.Gdb.Contents.{handle_m, handle_big_m, parse_range}
use libopenwch_tools.Gdb.Monitor.{c_string, handle_qrcmd}
use libopenwch_tools.Gdb.Run.{halt, is_halted, wait_halted, resume, step}

-- What a packet leads to: the next one, or a wait for the core that had not ended when the reports of
-- `poll` ran out.
pub data Progress (S : Type 0) : Type 0 where
  next : Conn S → List Bool → Progress S
  waiting : Conn S → Progress S

module _ {S : Type 0} (D : Dmi S) (c : Chip) where
  unfoldable pub interrupted : Action S ⊤
  interrupted = do ignore (halt D); ignore (wait_halted D)

  stop_if : (Conn S → Progress S) → List Bool → Bool × Conn S → Progress S
  stop_if again polls (true, conn) = next (send_stop 5 conn) polls
  stop_if again polls (false, conn) = again conn

  check_halted : (Conn S → Progress S) → List Bool → Conn S → Progress S
  unfolding stop_if on_link
  check_halted again polls conn = stop_if again polls (on_link (is_halted D) conn)

  -- A round in which `poll` reports that a byte can be read, over what comes in.
  byte_round : (Conn S → Progress S) → List Bool → List ℕ → Conn S → Progress S
  unfolding check_halted interrupted on_link
  byte_round again polls [] conn = check_halted again polls conn
  byte_round again polls (byte ∷ stream) conn =
      let conn₁ = record conn { incoming = stream } in
      if byte == 3
      then next (send_stop 2 (on_link interrupted conn₁).1) polls
      else check_halted again polls conn₁

  -- The loop of `gdb_wait_for_stop`. Each round takes a report of `poll`, on whether a byte came.
  wait_for_stop : List Bool → Conn S → Progress S
  unfolding check_halted byte_round
  wait_for_stop [] conn = waiting conn
  wait_for_stop (false ∷ polls) conn = check_halted (wait_for_stop polls) polls conn
  wait_for_stop (true ∷ polls) conn = byte_round (wait_for_stop polls) polls conn.incoming conn

  resumed : List Bool → Result ⊤ × Conn S → Progress S
  unfolding wait_for_stop
  resumed polls (ok _, conn) = wait_for_stop polls conn
  resumed polls (err _, conn) = next (send_text "E01" conn) polls

  handle_continue : List Bool → Conn S → Progress S
  unfolding resumed on_link
  handle_continue polls conn = resumed polls (on_link (resume D) conn)

  stepped : Result ⊤ × Conn S → Conn S
  stepped (ok _, conn) = send_stop 5 conn
  stepped (err _, conn) = send_text "E01" conn

  handle_step : Conn S → Conn S
  unfolding stepped on_link
  handle_step conn = stepped (on_link (step D) conn)

  abbrev with_table : Outcome S → Conn S → Conn S
  with_table o conn =
      (if o.answer then send_text "OK" else send_text "")
        (record conn { link = o.state; breakpoints = o.table })

  -- `gdb_breakpoint_insert` or `gdb_breakpoint_remove` for the numbers of a Z or z packet.
  breakpoint_at : Bool → Option (ℕ × (ℕ × List ℕ)) → Conn S → Conn S
  breakpoint_at set none conn = send_text "" conn
  breakpoint_at true (some (address, (kind, rest))) conn =
      with_table (insert (memory D c) address kind conn.breakpoints conn.link) conn
  breakpoint_at false (some (address, (kind, rest))) conn =
      with_table (remove (memory D c) address kind conn.breakpoints conn.link) conn

  handle_breakpoint : List ℕ → Conn S → Conn S
  unfolding breakpoint_at parse_range
  handle_breakpoint payload =
      if get_or payload 1 0 == b'0'
      then breakpoint_at (get_or payload 0 0 == b'Z') (parse_range (drop 3 payload))
      else send_text ""

  -- `gdb_breakpoints_clear` on the connection's table.
  unfoldable pub clear_breakpoints : Conn S → Conn S
  clear_breakpoints conn =
      let (table, s) = clear (memory D c) conn.breakpoints conn.link in
      record conn { breakpoints = table; link = s }

  handle_detach : Conn S → Conn S
  unfolding clear_breakpoints on_link
  handle_detach conn =
      let resumed_conn = (on_link (resume D) (clear_breakpoints conn)).1 in
      record (send_text "OK" resumed_conn) { quit = true }

  handle_kill : Conn S → Conn S
  unfolding clear_breakpoints
  handle_kill conn = record (clear_breakpoints conn) { quit = true }

  -- `gdb_handle_query`
  handle_query : List ℕ → Conn S → Conn S
  unfolding handle_qrcmd handle_qxfer starts_with
  handle_query payload =
      if list_eq payload (codes "qSupported")
      then send_text "PacketSize=1000;qXfer:features:read+;qXfer:memory-map:read+;vContSupported+"
      else if list_eq payload (codes "qAttached")
      then send_text "1"
      else if list_eq payload (codes "qC")
      then send_text "QC1"
      else if list_eq payload (codes "qfThreadInfo")
      then send_text "m1"
      else if list_eq payload (codes "qsThreadInfo")
      then send_text "l"
      else if list_eq payload (codes "qTStatus")
      then send_text ""
      else if starts_with (codes "qRcmd,") payload
      then handle_qrcmd D payload
      else if starts_with (codes "qXfer:") payload
      then send_packet (handle_qxfer c payload)
      else send_text ""

  handle_vcont : List ℕ → List Bool → Conn S → Progress S
  unfolding handle_step handle_continue starts_with
  handle_vcont payload polls conn =
      if list_eq payload (codes "vCont?")
      then next (send_text "vCont;c;C;s;S" conn) polls
      else if starts_with (codes "vCont;") payload
      then (if (get_or payload 6 0 == b's') || (get_or payload 6 0 == b'S')
          then next (handle_step conn) polls
          else handle_continue polls conn)
      else next (send_text "" conn) polls

  -- The packets that are answered at once.
  handle_plain : ℕ → List ℕ → Conn S → Conn S
  unfolding handle_g handle_p handle_m handle_big_m handle_step handle_breakpoint handle_detach
      handle_kill handle_query
  handle_plain kind payload =
      if kind == b'?'
      then send_stop 5
      else if kind == b'g'
      then handle_g D
      else if (kind == b'p') || (kind == b'P')
      then handle_p D payload
      else if kind == b'm'
      then handle_m D payload
      else if kind == b'M'
      then handle_big_m D payload
      else if kind == b's'
      then handle_step
      else if (kind == b'Z') || (kind == b'z')
      then handle_breakpoint payload
      else if kind == b'D'
      then handle_detach
      else if kind == b'k'
      then handle_kill
      else if kind == b'H'
      then send_text "OK"
      else if kind == b'q'
      then handle_query payload
      else send_text ""

  -- `gdb_handle_packet`; its result is not looked at.
  unfoldable pub handle_packet : List ℕ → List Bool → Conn S → Progress S
  unfolding handle_continue handle_vcont handle_plain
  handle_packet payload polls conn =
      let kind = get_or payload 0 0 in
      if kind == b'c'
      then handle_continue polls conn
      else if kind == b'v'
      then handle_vcont payload polls conn
      else next (handle_plain kind payload conn) polls

  -- The acknowledgement that `gdb_recv_packet` sends, whether or not that fails.
  acknowledge : List ℕ → Conn S → Conn S
  acknowledge [] conn = conn
  acknowledge (x ∷ bytes) conn = (send_all (x ∷ bytes) conn).0

  received_into : Conn S → Received → Conn S
  unfolding acknowledge
  received_into conn r = acknowledge r.sent (record conn { incoming = r.rest })

  proceed : (List Bool → Conn S → Option (Progress S)) → Progress S → Option (Progress S)
  proceed again (waiting conn) = some (waiting conn)
  proceed again (next conn polls) = again polls conn

  after_packet :
      (List Bool → Conn S → Option (Progress S))
      → List Bool
      → Option (List ℕ)
      → Conn S
      → Option (Progress S)
  unfolding proceed
  after_packet again polls none conn = some (next conn polls)
  after_packet again polls (some bytes) conn =
      proceed again (handle_packet (c_string bytes) polls conn)

  -- The loop of `wl_gdb_server_run`, with a bound on its rounds; `none` says that it ran out.
  unfoldable pub serve : ℕ → List Bool → Conn S → Option (Progress S)
  unfolding received_into after_packet handle_packet
  serve zero polls conn = none
  serve (suc rounds) polls conn =
      if conn.quit
      then some (next conn polls)
      else (let r = receive packet_max conn.incoming in
          after_packet (serve rounds) polls r.packet (received_into conn r))

  -- The breakpoints are cleared when the loop is left.
  finished : Option (Progress S) → Option (Progress S)
  finished none = none
  finished (some (next conn polls)) = some (next (clear_breakpoints conn) polls)
  finished (some (waiting conn)) = some (waiting conn)

  -- From the loop on to the end: the loop takes a round for each byte that comes in, and one more.
  unfoldable pub session : List Bool → Conn S → Option (Progress S)
  unfolding serve finished clear_breakpoints
  session polls conn = finished (serve (suc (length conn.incoming)) polls conn)
