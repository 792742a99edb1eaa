-- ===== src/Transport/Patience.antt =====
-- How long a request waits (pyxcp/transport/base.py: get, process_response).
use pyxcp.Prelude.{
  ℕ, ◌-◌, ◌≤◌, ◌<◌, le→not_ltb, ◌≡◌, refl, ap, ◌∙◌, Bool, true, false, List, [], ◌∷◌, All,
  Bool-cases, inl, inr, leb, leb→le, ltb, if◌then◌else◌, arith,
}
use pyxcp.Transport.{Frame, Transport, Packet, feed, process_daq, process_response, receive}
use pyxcp.Transport.Waiting.{
  Wake, waiting, timed_out, sleep, check_time, poll_empty, poll_queue, after_poll, get,
}

-- DAQ packets and nothing else.
abbrev pub OnlyDaq : List Packet → Type 0
OnlyDaq ps = All (λ p. p.pid < 0xFC) ps

-- At least one packet, and only DAQ packets, in every wait.
abbrev pub Busy : Wake → Type 0
Busy w = (p : Packet) × (ps : List Packet) × (w.arrivals ≡ p ∷ ps) × OnlyDaq (p ∷ ps)

-- A wait in which nothing arrives.
abbrev pub Quiet : Wake → Type 0
Quiet w = w.arrivals ≡ []

-- The queue is empty, and the time is to be counted anew.
abbrev Restarted : Transport → Type 0
Restarted s = (s.res_queue ≡ []) × (s.timer_restart_event ≡ true)

process_response-daq :
    (h : Frame → Transport → Transport) (p : Packet) (s : Transport)
    → p.pid < 0xFC
    → process_response h p s ≡ process_daq p s
unfolding process_response
process_response-daq h p s q = elim (Bool-cases (leb 0xFC p.pid)) [
  | inl e ↦ absurd (omega (arith, leb→le _ _ e))
  | inr e ↦ rw (e, if◌then◌else◌)
]

receive-Restarted :
    (h : Frame → Transport → Transport) (p : Packet) (ps : List Packet) (s : Transport)
    → OnlyDaq (p ∷ ps)
    → s.res_queue ≡ []
    → Restarted (receive h (p ∷ ps) s)
unfolding receive process_daq feed
receive-Restarted h p [] s (d, ds) e = rw (process_response-daq h p s d) (e, refl)
receive-Restarted h p (p' ∷ ps) s (d, ds) e =
    let z = process_response-daq h p s d in
    receive-Restarted h p' ps (process_response h p s) ds (ap (λ x. x.res_queue) z ∙ e)

poll-Restarted :
    (timeout restarted now start : ℕ) (s : Transport)
    → Restarted s
    → now - restarted ≤ timeout
    → poll_queue s.res_queue timeout restarted now start s
      ≡ sleep restarted (record s { timer_restart_event = false })
unfolding poll_queue poll_empty check_time
poll-Restarted timeout restarted now start s (e, t) p =
    rw (e, t, if◌then◌else◌, le→not_ltb timeout (now - restarted) p)

round-Restarted :
    (h : Frame → Transport → Transport) (timeout start : ℕ) (w : Wake) (ws : List Wake)
    (s : Transport)
    → Restarted s
    → w.now - w.restarted ≤ timeout
    → get h timeout (w ∷ ws) start s
      ≡ get h timeout ws w.restarted
          (receive h w.arrivals (record s { timer_restart_event = false }))
unfolding get after_poll
round-Restarted h timeout start w ws s r p =
    ap (after_poll h timeout (get h timeout ws) w.arrivals)
      (poll-Restarted timeout w.restarted w.now start s r p)

-- With an empty queue and the time restarted, while every wait brings DAQ packets and nothing
-- else, and in no round more than the time-out passes between the two readings of the clock,
-- `get` neither returns nor times out, however late the rounds are.
pub get-Busy :
    (h : Frame → Transport → Transport) (timeout start : ℕ) (ws : List Wake) (s : Transport)
    → All Busy ws
    → All (λ w. w.now - w.restarted ≤ timeout) ws
    → s.res_queue ≡ []
    → s.timer_restart_event ≡ true
    → (s' : Transport) × (get h timeout ws start s ≡ waiting s')
unfolding get
get-Busy h timeout start [] s bs qs e t = (s, refl)
get-Busy h timeout start (w ∷ ws) s ((p, ps, a, d), bs) (k, qs) e t =
    let s0 : Transport = record s { timer_restart_event = false } in
    let (e', t') = receive-Restarted h p ps s0 d e in
    let (s', q) = get-Busy h timeout w.restarted ws (receive h (p ∷ ps) s0) bs qs e' t' in
    (
      s',
      round-Restarted h timeout start w ws s (e, t) k
          ∙ ap (λ as'. get h timeout ws w.restarted (receive h as' s0)) a
          ∙ q,
    )

-- In some round the clock is more than the time-out past the start.
unfoldable pub any_late : ℕ → ℕ → List Wake → Bool
any_late timeout start [] = false
any_late timeout start (w ∷ ws) =
    if ltb timeout (w.now - start) then true else any_late timeout start ws

poll-Quiet :
    (timeout restarted now start : ℕ) (s : Transport)
    → s.res_queue ≡ []
    → s.timer_restart_event ≡ false
    → poll_queue s.res_queue timeout restarted now start s ≡ check_time timeout now start s
unfolding poll_queue poll_empty
poll-Quiet timeout restarted now start s e t = rw (e, t, if◌then◌else◌)

-- With an empty queue and no restart of the time, when nothing arrives, `get` times out exactly if
-- a round comes after the time-out, and changes nothing.
pub get-Quiet :
    (h : Frame → Transport → Transport) (timeout start : ℕ) (ws : List Wake) (s : Transport)
    → All Quiet ws
    → s.res_queue ≡ []
    → s.timer_restart_event ≡ false
    → get h timeout ws start s ≡ (if any_late timeout start ws then timed_out s else waiting s)
unfolding get any_late after_poll check_time receive
get-Quiet h timeout start [] s qs e t = refl
get-Quiet h timeout start (w ∷ ws) s (q, qs) e t =
    ap (after_poll h timeout (get h timeout ws) w.arrivals)
      (poll-Quiet timeout w.restarted w.now start s e t)
    ∙ elim (Bool-cases (ltb timeout (w.now - start))) [
      | inl l ↦ rw (l, if◌then◌else◌)
      | inr l ↦
          rw (l, if◌then◌else◌)
            (ap (λ as'. get h timeout ws start (receive h as' s)) q
              ∙ get-Quiet h timeout start ws s qs e t)
    ]
