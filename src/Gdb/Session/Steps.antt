-- ===== src/Gdb/Session/Steps.antt =====
-- What each packet leaves of the connection.
use libopenwch_tools.Prelude.{
  ℕ, ◌≤◌, ◌≡◌, refl, Bool, true, false, ◌||◌, Option, none, some, List, [], ◌∷◌, ◌==◌,
  if◌then◌else◌, get_or, drop, length, codes, list_eq, arith, All,
}
use Prim.Native.String.{String}
use libopenwch_tools.Status.{Result, ok, err, ⊤}
use libopenwch_tools.Target.{Chip}
use libopenwch_tools.Dm.Command.{Dmi}
use libopenwch_tools.Dm.Preserves.{IsKept}
use libopenwch_tools.Gdb.Preserves.{
  is_halted-Preserves, interrupted-Preserves, resume-Preserves, step-Preserves,
}
use libopenwch_tools.Gdb.Preserves.Calls.{
  registers-Preserves, packet_reply-Preserves, contents-Preserves, store-Preserves, memory-IsKept,
}
use libopenwch_tools.Gdb.Breakpoint.Preserves.{insert-kept, remove-kept, clear-kept}
use libopenwch_tools.Gdb.Breakpoint.{insert, remove}
use libopenwch_tools.Gdb.Breakpoint.Slots.{
  IsSound, insert-slots, remove-slots, clear-slots, insert-IsSound, remove-IsSound, clear-IsSound,
}
use libopenwch_tools.Gdb.Patch.{memory}
use libopenwch_tools.Gdb.Connection.{Conn, send_text}
use libopenwch_tools.Gdb.Connection.Follows.{
  Follows, Follows-refl, Follows-trans, send_packet-Follows, send_stop-Follows, on_link-Follows,
  replied-Follows,
}
use libopenwch_tools.Gdb.Document.{handle_qxfer, starts_with}
use libopenwch_tools.Gdb.Registers.{on_link, registers, packet_reply, handle_g, handle_p}
use libopenwch_tools.Gdb.Contents.{contents, store, handle_m, handle_big_m, parse_range}
use libopenwch_tools.Gdb.Monitor.Follows.{Keeps, if-Keeps, called-Follows, handle_qrcmd-Follows}
use libopenwch_tools.Gdb.Run.{is_halted, resume, step}
use libopenwch_tools.Gdb.Session.{
  Progress, next, waiting, interrupted, stop_if, check_halted, byte_round, wait_for_stop, resumed,
  handle_continue, stepped, handle_step, breakpoint_at, handle_breakpoint, clear_breakpoints,
  handle_detach, handle_kill, handle_query, handle_vcont, handle_plain, handle_packet,
}

module _ {S : Type 0} (P : S → Type 0) {D : Dmi S} (kept : IsKept P D) (c : Chip) where
  -- What a packet leads to follows the connection before it.
  unfoldable pub Leads : Conn S → Progress S → Type 0
  Leads a (next b polls) = Follows P a b
  Leads a (waiting b) = Follows P a b

  Leads-trans : (a b : Conn S) (p : Progress S) → Follows P a b → Leads b p → Leads a p
  unfolding Leads
  Leads-trans a b (next d polls) f l = Follows-trans a b d f l
  Leads-trans a b (waiting d) f l = Follows-trans a b d f l

  Leads-next : (a b : Conn S) (polls : List Bool) → Follows P a b → Leads a (next b polls)
  unfolding Leads
  Leads-next a b polls f = f

  if-Leads :
      (t : Bool) (a : Conn S) (p q : Progress S)
      → Leads a p
      → Leads a q
      → Leads a (if t then p else q)
  if-Leads true a p q j k = j
  if-Leads false a p q j k = k

  stop_if-Leads :
      (again : Conn S → Progress S) (polls : List Bool) (p : Bool × Conn S)
      → ((a : Conn S) → Leads a (again a))
      → Leads p.1 (stop_if D c again polls p)
  unfolding stop_if Leads
  stop_if-Leads again polls (true, a) k = send_stop-Follows 5 a
  stop_if-Leads again polls (false, a) k = k a

  check_halted-Leads :
      (again : Conn S → Progress S) (polls : List Bool) (a : Conn S)
      → ((b : Conn S) → Leads b (again b))
      → Leads a (check_halted D c again polls a)
  unfolding check_halted
  check_halted-Leads again polls a k =
      let p = on_link (is_halted D) a in
      Leads-trans a p.1 (stop_if D c again polls p)
        (on_link-Follows (is_halted D) a (is_halted-Preserves kept)) (stop_if-Leads again polls p k)

  -- A byte of what comes in is taken.
  byte_round-Leads :
      (again : Conn S → Progress S) (polls : List Bool) (stream : List ℕ) (a : Conn S)
      → length stream ≤ length a.incoming
      → ((b : Conn S) → Leads b (again b))
      → Leads a (byte_round D c again polls stream a)
  unfolding byte_round
  byte_round-Leads again polls [] a l k = check_halted-Leads again polls a k
  byte_round-Leads again polls (x ∷ stream) a l k =
      let b : Conn S = record a { incoming = stream } in
      let f : Follows P a b = record {
        incoming_le = omega arith;
        slots = refl;
        kept = λ p. p;
        sound = λ p. p;
      } in
      let d = (on_link (interrupted D c) b).1 in
      if-Leads (x == 3) a _ _
        (Leads-next a _ polls (
          Follows-trans a b _ f (
            Follows-trans b d _ (on_link-Follows (interrupted D c) b (interrupted-Preserves kept c))
              (send_stop-Follows 2 d))))
        (Leads-trans a b _ f (check_halted-Leads again polls b k))

  wait_for_stop-Leads : (polls : List Bool) (a : Conn S) → Leads a (wait_for_stop D c polls a)
  unfolding wait_for_stop Leads
  wait_for_stop-Leads [] a = Follows-refl a
  wait_for_stop-Leads (false ∷ polls) a =
      check_halted-Leads (wait_for_stop D c polls) polls a (wait_for_stop-Leads polls)
  wait_for_stop-Leads (true ∷ polls) a =
      byte_round-Leads (wait_for_stop D c polls) polls a.incoming a (omega arith)
        (wait_for_stop-Leads polls)

  resumed-Leads : (polls : List Bool) (p : Result ⊤ × Conn S) → Leads p.1 (resumed D c polls p)
  unfolding resumed Leads
  resumed-Leads polls (ok x, a) = wait_for_stop-Leads polls a
  resumed-Leads polls (err e, a) = send_packet-Follows (codes "E01") a

  handle_continue-Leads : (polls : List Bool) (a : Conn S) → Leads a (handle_continue D c polls a)
  unfolding handle_continue
  handle_continue-Leads polls a =
      let p = on_link (resume D) a in
      Leads-trans a p.1 (resumed D c polls p) (on_link-Follows (resume D) a (resume-Preserves kept))
        (resumed-Leads polls p)

  stepped-Follows : (p : Result ⊤ × Conn S) → Follows P p.1 (stepped D c p)
  unfolding stepped
  stepped-Follows (ok x, a) = send_stop-Follows 5 a
  stepped-Follows (err e, a) = send_packet-Follows (codes "E01") a

  handle_step-Follows : Keeps P (handle_step D c)
  unfolding handle_step
  handle_step-Follows a =
      called-Follows kept (step D) (stepped D c) a (step-Preserves kept) stepped-Follows

  with_slots :
      (b : Bool) (a d : Conn S)
      → length d.incoming ≤ length a.incoming
      → length d.breakpoints ≡ length a.breakpoints
      → (P a.link → P d.link)
      → (All IsSound a.breakpoints → All IsSound d.breakpoints)
      → Follows P a ((if b then send_text "OK" else send_text "") d)
  with_slots true a d l s k z =
      Follows-trans a d _ (record { incoming_le = l; slots = s; kept = k; sound = z })
        (send_packet-Follows (codes "OK") d)
  with_slots false a d l s k z =
      Follows-trans a d _ (record { incoming_le = l; slots = s; kept = k; sound = z })
        (send_packet-Follows [] d)

  breakpoint_at-Follows :
      (set : Bool) (o : Option (ℕ × (ℕ × List ℕ))) → Keeps P (breakpoint_at D c set o)
  unfolding breakpoint_at
  breakpoint_at-Follows set none a = send_packet-Follows [] a
  breakpoint_at-Follows true (some (address, (kind, rest))) a =
      with_slots (insert (memory D c) address kind a.breakpoints a.link).answer a _ (omega arith)
        (insert-slots (memory D c) address kind a.breakpoints a.link)
        (insert-kept (memory-IsKept kept c) address kind a.breakpoints a.link)
        (insert-IsSound (memory D c) address kind a.breakpoints a.link)
  breakpoint_at-Follows false (some (address, (kind, rest))) a =
      with_slots (remove (memory D c) address kind a.breakpoints a.link).answer a _ (omega arith)
        (remove-slots (memory D c) address kind a.breakpoints a.link)
        (remove-kept (memory-IsKept kept c) address kind a.breakpoints a.link)
        (remove-IsSound (memory D c) address kind a.breakpoints a.link)

  handle_breakpoint-Follows : (payload : List ℕ) → Keeps P (handle_breakpoint D c payload)
  unfolding handle_breakpoint
  handle_breakpoint-Follows payload =
      if-Keeps kept _ _ _
        (breakpoint_at-Follows (get_or payload 0 0 == b'Z') (parse_range (drop 3 payload)))
        (send_packet-Follows [])

  pub clear_breakpoints-Follows : Keeps P (clear_breakpoints D c)
  unfolding clear_breakpoints
  clear_breakpoints-Follows a = record {
    incoming_le = omega arith;
    slots = clear-slots (memory D c) a.breakpoints a.link;
    kept = clear-kept (memory-IsKept kept c) a.breakpoints a.link;
    sound = clear-IsSound (memory D c) a.breakpoints a.link;
  }

  quits : (a b : Conn S) → Follows P a b → Follows P a (record b { quit = true })
  quits a b f = record {
    incoming_le = f.incoming_le;
    slots = f.slots;
    kept = f.kept;
    sound = f.sound;
  }

  handle_detach-Follows : Keeps P (handle_detach D c)
  unfolding handle_detach
  handle_detach-Follows a =
      let b = clear_breakpoints D c a in
      let d = (on_link (resume D) b).1 in
      quits a _ (
        Follows-trans a b _ (clear_breakpoints-Follows a) (
          Follows-trans b d _ (on_link-Follows (resume D) b (resume-Preserves kept))
            (send_packet-Follows (codes "OK") d)))

  handle_kill-Follows : Keeps P (handle_kill D c)
  unfolding handle_kill
  handle_kill-Follows a = quits a (clear_breakpoints D c a) (clear_breakpoints-Follows a)

  handle_query-Follows : (payload : List ℕ) → Keeps P (handle_query D c payload)
  unfolding handle_query
  handle_query-Follows payload =
      let says : (text : String) → Keeps {S = S} P (send_text text) =
        λ text. send_packet-Follows (codes text) in
      if-Keeps kept _ _ _
        (says "PacketSize=1000;qXfer:features:read+;qXfer:memory-map:read+;vContSupported+")
        (if-Keeps kept _ _ _ (says "1") (
          if-Keeps kept _ _ _ (says "QC1") (
            if-Keeps kept _ _ _ (says "m1") (
              if-Keeps kept _ _ _ (says "l") (
                if-Keeps kept _ _ _ (says "") (
                  if-Keeps kept _ _ _ (handle_qrcmd-Follows kept payload) (
                    if-Keeps kept _ _ _ (send_packet-Follows (handle_qxfer c payload))
                      (says ""))))))))

  handle_vcont-Leads :
      (payload : List ℕ) (polls : List Bool) (a : Conn S)
      → Leads a (handle_vcont D c payload polls a)
  unfolding handle_vcont
  handle_vcont-Leads payload polls a =
      if-Leads (list_eq payload (codes "vCont?")) a _ _
        (Leads-next a _ polls (send_packet-Follows (codes "vCont;c;C;s;S") a))
        (if-Leads (starts_with (codes "vCont;") payload) a _ _
          (if-Leads ((get_or payload 6 0 == b's') || (get_or payload 6 0 == b'S')) a _ _
            (Leads-next a _ polls (handle_step-Follows a)) (handle_continue-Leads polls a))
          (Leads-next a _ polls (send_packet-Follows [] a)))

  handle_plain-Follows : (kind : ℕ) (payload : List ℕ) → Keeps P (handle_plain D c kind payload)
  unfolding handle_plain handle_g handle_p handle_m handle_big_m
  handle_plain-Follows kind payload = if-Keeps kept _ _ _ (send_stop-Follows 5) (
      if-Keeps kept _ _ _ (replied-Follows (registers D) (registers-Preserves kept)) (
        if-Keeps kept _ _ _
          (replied-Follows (packet_reply D payload) (packet_reply-Preserves kept payload))
          (if-Keeps kept _ _ _
            (replied-Follows (contents D payload) (contents-Preserves kept payload))
            (if-Keeps kept _ _ _ (replied-Follows (store D payload) (store-Preserves kept payload))
              (if-Keeps kept _ _ _ handle_step-Follows (
                if-Keeps kept _ _ _ (handle_breakpoint-Follows payload) (
                  if-Keeps kept _ _ _ handle_detach-Follows (
                    if-Keeps kept _ _ _ handle_kill-Follows (
                      if-Keeps kept _ _ _ (send_packet-Follows (codes "OK")) (
                        if-Keeps kept _ _ _ (handle_query-Follows payload)
                          (send_packet-Follows [])))))))))))

  pub handle_packet-Leads :
      (payload : List ℕ) (polls : List Bool) (a : Conn S)
      → Leads a (handle_packet D c payload polls a)
  unfolding handle_packet
  handle_packet-Leads payload polls a = if-Leads _ a _ _ (handle_continue-Leads polls a) (
      if-Leads _ a _ _ (handle_vcont-Leads payload polls a)
        (Leads-next a _ polls (handle_plain-Follows (get_or payload 0 0) payload a)))
