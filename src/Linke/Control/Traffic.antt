-- ===== src/Linke/Control/Traffic.antt =====
-- The requests that the control operations send, in order.
use libopenwch_tools.Prelude.{
  ℕ, ◌≡◌, refl, ap, ◌∙◌, sym, some, List, [], ◌∷◌, ◌++◌, if◌then◌else◌, ◌==◌,
}
use mathlib.Core.List.{append-nil, append_assoc}
use libopenwch_tools.Status.{Action, ok, pure, go_on, ◌>>◌}
use libopenwch_tools.Linke.Request.{Transport, Link, IsUp, reply_max, command_up, send_control}
use libopenwch_tools.Linke.Control.{
  halt, resume, reset, cmd_control, ctl_attach, ctl_reset_low, ctl_release,
}

-- A transport that keeps a log of the requests.
abbrev pub logged : {W : Type 0} → Transport W → Transport (List (List ℕ) × W)
logged T = record {
  command =
      λ s request room. let (r, w) = T.command s.1 request room in (r, (s.0 ++ request ∷ [], w));
}

abbrev control_request : ℕ → ℕ → List ℕ
control_request code argument = 0x81 ∷ code ∷ 0x01 ∷ argument ∷ []

-- Leave reset, attach, release.
abbrev pub resume_requests : List (List ℕ)
resume_requests =
    control_request 0x0b 0x01 ∷ control_request 0x0d 0x02 ∷ control_request 0x0d 0xff ∷ []

-- Attach, drive the reset line low, and then as for a resume.
abbrev pub reset_requests : List (List ℕ)
reset_requests = control_request 0x0d 0x02 ∷ control_request 0x0d 0x13 ∷ resume_requests

module _ {W : Type 0} (T : Transport W) where
  -- Every request gets a reply.
  abbrev pub Answers : Type 0
  Answers =
      (w : W) (request : List ℕ) (room : ℕ)
      → (reply : List ℕ) × ((T.command w request room).0 ≡ some reply)

  abbrev Logged : Type 0
  Logged = Link (List (List ℕ) × W)

  -- The call succeeds, and sends just these requests.
  abbrev pub Sends : {A : Type 0} → Action Logged A → List (List ℕ) → Type 0
  Sends {A} m requests =
      (l : Logged)
      → IsUp l
      → (a : A) × (l' : Logged) × (m l ≡ (ok a, l'))
        × IsUp l'
        × (l'.world.0 ≡ l.world.0 ++ requests)

  module _ (answers : Answers) where
    send_control-Sends :
        (code argument room : ℕ)
        → Sends (send_control (logged T) code argument room) (control_request code argument ∷ [])
    unfolding send_control
    send_control-Sends code argument room l up =
        let a =
          answers l.world.1 (control_request code argument)
            (if room == 0 then reply_max else room) in
        (a.0, _, command_up (logged T) (control_request code argument) room l a.0 up a.1, up, refl)

    then-Sends :
        {A B : Type 0} (m : Action Logged A) (k : A → Action Logged B) (first rest : List (List ℕ))
        → Sends m first
        → ((a : A) → Sends (k a) rest)
        → Sends (λ l. go_on k (m l)) (first ++ rest)
    then-Sends m k first rest hm hk l up =
        let r = hm l up in
        let q = hk r.0 r.1 r.3 in
        (
          q.0,
          q.1,
          ap (go_on k) r.2 ∙ q.2,
          q.3,
          q.4 ∙ ap (λ (t : List (List ℕ)). t ++ rest) r.4 ∙ append_assoc l.world.0 first rest,
        )

    pure-Sends : {A : Type 0} (a : A) → Sends (pure a) []
    pure-Sends a l up = (a, l, refl, up, sym (append-nil l.world.0))

    halt-Sends : Sends (halt (logged T)) (control_request 0x0d 0x02 ∷ [])
    unfolding halt
    halt-Sends =
        then-Sends (send_control (logged T) cmd_control ctl_attach 0) (λ _. pure tt)
          (control_request 0x0d 0x02 ∷ []) [] (send_control-Sends 0x0d 0x02 0) (λ _. pure-Sends tt)

    -- One request whose reply is not looked at, and then the rest.
    after-Sends :
        {B : Type 0} (code argument room : ℕ) (k : Action Logged B) (rest : List (List ℕ))
        → Sends k rest
        → Sends
            (λ l. go_on (λ _. k) (send_control (logged T) code argument room l))
            (control_request code argument ∷ rest)
    after-Sends code argument room k rest h =
        then-Sends (send_control (logged T) code argument room) (λ _. k)
          (control_request code argument ∷ []) rest (send_control-Sends code argument room) (λ _. h)

    resume-Sends : Sends (resume (logged T)) resume_requests
    unfolding resume
    resume-Sends =
        after-Sends 0x0b 0x01 reply_max
          (do
            send_control (logged T) cmd_control ctl_attach reply_max
            send_control (logged T) cmd_control ctl_release reply_max
            pure tt)
          (control_request 0x0d 0x02 ∷ control_request 0x0d 0xff ∷ [])
          (after-Sends 0x0d 0x02 reply_max
            (do send_control (logged T) cmd_control ctl_release reply_max; pure tt)
            (control_request 0x0d 0xff ∷ [])
            (after-Sends 0x0d 0xff reply_max (pure tt) [] (pure-Sends tt)))

    reset-Sends : Sends (reset (logged T)) reset_requests
    unfolding reset
    reset-Sends =
        then-Sends (halt (logged T))
          (λ _. (do send_control (logged T) cmd_control ctl_reset_low reply_max; resume (logged T)))
          (control_request 0x0d 0x02 ∷ []) (control_request 0x0d 0x13 ∷ resume_requests) halt-Sends
          (λ _. after-Sends 0x0d 0x13 reply_max (resume (logged T)) resume_requests resume-Sends)

    -- With a programmer that answers every request, a reset succeeds, and what it sends is exactly:
    -- attach, drive the reset line low, leave reset, attach, release.
    pub reset-requests :
        (l : Logged)
        → IsUp l
        → (l' : Logged) × (reset (logged T) l ≡ (ok tt, l'))
          × (l'.world.0 ≡ l.world.0 ++ reset_requests)
    reset-requests l up = let r = reset-Sends l up in (r.1, r.2, r.4)

    -- With a programmer that answers every request, a resume succeeds, and what it sends is exactly:
    -- leave reset, attach, release.
    pub resume-requests :
        (l : Logged)
        → IsUp l
        → (l' : Logged) × (resume (logged T) l ≡ (ok tt, l'))
          × (l'.world.0 ≡ l.world.0 ++ resume_requests)
    resume-requests l up = let r = resume-Sends l up in (r.1, r.2, r.4)
