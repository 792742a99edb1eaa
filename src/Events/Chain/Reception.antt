-- ===== src/Events/Chain/Reception.antt =====
-- The reception of packets with the default chain of handlers (pyxcp/transport/base.py:
-- process_response, process_event_packet; pyxcp/events.py).
use pyxcp.Prelude.{
  ℕ, Bool, true, false, not, ◌||◌, ◌&&◌, ◌≡◌, refl, ap, ◌∙◌, inl, inr, Option, none, some, List, [],
  ◌∷◌, ◌++◌, leb, ◌==◌, Bool-cases, if◌then◌else◌, arith,
}
use pyxcp.Transport.{
  Frame, Transport, Packet, trimmed, feed, process_daq, process_reply, process_other,
  process_response, receive,
}
use pyxcp.Transport.Queue.{responses, receive-responses}
use pyxcp.Events.TimeSync.{TimeSyncEvent}
use pyxcp.Events.Chain.{Session, keep, process_event_packet}
use pyxcp.Events.Chain.Effects.{effect, process-effect}

-- The chain as the transport sees it.
abbrev pub on_event : Session → Frame → Transport → Transport
on_event s packet t = (process_event_packet packet (record s { transport = t })).transport

-- An event packet with the code of EV_CMD_PENDING.
abbrev pub pending : Frame → Bool
pending [] = false
pending (x ∷ []) = false
pending (x ∷ c ∷ rest) = c == 0x05

keep-transport : (o : Option TimeSyncEvent) (s : Session) → (keep o s).transport ≡ s.transport
keep-transport none s = refl
keep-transport (some e) s = refl

effect-transport :
    (c : ℕ) (p : Frame) (s : Session)
    → (effect c p s).transport
      ≡ (if c == 0x05 then record s.transport { timer_restart_event = true } else s.transport)
effect-transport c p s = elim (Bool-cases (c == 0x05)) [
  | inl e ↦ rw (e, if◌then◌else◌)
  | inr e ↦ elim (Bool-cases (c == 0x08)) [
    | inl f ↦ rw (e, if◌then◌else◌, f) (keep-transport _ s)
    | inr f ↦ rw (e, if◌then◌else◌, f)
  ]
]

on_event-transport :
    (s : Session) (p : Frame) (t : Transport)
    → on_event s p t ≡ (if pending p then record t { timer_restart_event = true } else t)
unfolding process_event_packet
on_event-transport s [] t = refl
on_event-transport s (x ∷ []) t = refl
on_event-transport s (x ∷ c ∷ rest) t =
    ap (λ r. r.1.transport) (process-effect c (x ∷ c ∷ rest) (record s { transport = t }))
    ∙ effect-transport c (x ∷ c ∷ rest) (record s { transport = t })

keeps-queue : (s : Session) (p : Frame) (t : Transport) → (on_event s p t).res_queue ≡ t.res_queue
keeps-queue s p t = elim (Bool-cases (pending p)) [
  | inl e ↦ ap (λ u. u.res_queue) (on_event-transport s p t) ∙ rw (e, if◌then◌else◌)
  | inr e ↦ ap (λ u. u.res_queue) (on_event-transport s p t) ∙ rw (e, if◌then◌else◌)
]

-- The packets that restart the time: DAQ packets and EV_CMD_PENDING.
abbrev pub restarts : Packet → Bool
restarts p = not (leb 0xFC p.pid) || ((p.pid == 0xFD) && pending (trimmed p))

abbrev pub any_restarts : List Packet → Bool
any_restarts [] = false
any_restarts (p ∷ ps) = restarts p || any_restarts ps

or-true : (b : Bool) → true ≡ b || true
or-true true = refl
or-true false = refl

or-false : (b : Bool) → b ≡ b || false
or-false true = refl
or-false false = refl

or_assoc : (a b c : Bool) → (a || b) || c ≡ a || (b || c)
or_assoc true b c = refl
or_assoc false b c = refl

timer-event :
    (s : Session) (p : Frame) (t : Transport)
    → (on_event s p t).timer_restart_event ≡ t.timer_restart_event || pending p
timer-event s p t = elim (Bool-cases (pending p)) [
  | inl e ↦
      ap (λ u. u.timer_restart_event) (on_event-transport s p t)
      ∙ rw (e, if◌then◌else◌) (or-true t.timer_restart_event)
  | inr e ↦
      ap (λ u. u.timer_restart_event) (on_event-transport s p t)
      ∙ rw (e, if◌then◌else◌) (or-false t.timer_restart_event)
]

reply_is_no_event : (n : ℕ) → leb 0xFE n ≡ true → (n == 0xFD) ≡ false
reply_is_no_event n e = ground arith

timer-other :
    (s : Session) (p : Packet) (t : Transport)
    → (process_other (on_event s) p t).timer_restart_event
      ≡ t.timer_restart_event || ((p.pid == 0xFD) && pending (trimmed p))
unfolding process_other process_reply feed
timer-other s p t = elim (Bool-cases (leb 0xFE p.pid)) [
  | inl e ↦ rw (e, if◌then◌else◌, reply_is_no_event p.pid e) (or-false t.timer_restart_event)
  | inr e ↦ elim (Bool-cases (p.pid == 0xFD)) [
    | inl f ↦ rw (e, if◌then◌else◌, f) (timer-event s (trimmed p) t)
    | inr f ↦ rw (e, if◌then◌else◌, f) (or-false t.timer_restart_event)
  ]
]

timer-response :
    (s : Session) (p : Packet) (t : Transport)
    → (process_response (on_event s) p t).timer_restart_event ≡ t.timer_restart_event || restarts p
unfolding process_response process_daq feed
timer-response s p t = elim (Bool-cases (leb 0xFC p.pid)) [
  | inl e ↦ rw (e, if◌then◌else◌) (timer-other s p (record t { counter_received = some p.counter }))
  | inr e ↦ rw (e, if◌then◌else◌) (or-true t.timer_restart_event)
]

timer-receive :
    (s : Session) (ps : List Packet) (t : Transport)
    → (receive (on_event s) ps t).timer_restart_event ≡ t.timer_restart_event || any_restarts ps
unfolding receive
timer-receive s [] t = or-false t.timer_restart_event
timer-receive s (p ∷ ps) t =
    timer-receive s ps (process_response (on_event s) p t)
    ∙ ap (λ b. b || any_restarts ps) (timer-response s p t)
    ∙ or_assoc t.timer_restart_event (restarts p) (any_restarts ps)

-- With the default chain of handlers, whatever packets arrive, the response queue grows by
-- exactly the responses among them, and the time is restarted exactly if it was before, or if a
-- DAQ packet or EV_CMD_PENDING is among them.
pub receive-on_event :
    (s : Session) (ps : List Packet) (t : Transport)
    → ((receive (on_event s) ps t).res_queue ≡ t.res_queue ++ responses ps)
      × ((receive (on_event s) ps t).timer_restart_event ≡ t.timer_restart_event || any_restarts ps)
receive-on_event s ps t =
    (receive-responses (on_event s) (keeps-queue s) ps t, timer-receive s ps t)
