-- ===== src/Events/Chain/Effects.antt =====
-- What the default chain does with each event (pyxcp/events.py).
use pyxcp.Prelude.{
  ℕ, Bool, true, false, ◌≡◌, refl, ap, ◌∙◌, inl, inr, Option, none, some, List, [], ◌∷◌, ◌==◌,
  Bool-cases, if◌then◌else◌, arith,
}
use pyxcp.Transport.{Frame}
use pyxcp.Events.TimeSync.{TimeSyncEvent, parse}
use pyxcp.Prelude.Bytes.{little, big}
use pyxcp.Events.Chain.{
  ByteOrder, intel, motorola, SlaveProperties, Options, from_properties, byte_order_of, sync_event,
  Session, Handler, process, one_of, transport_handle, transport_handler, parse_options, keep,
  time_sync_handle, time_sync_handler, session_state_codes, session_state_handler, daq_stim_codes,
  daq_stim_handler, user_handler, default_event_chain,
}

-- The reference for EV_TIME_SYNC: parsed with the options of a connected slave, or with those of a
-- transport without a master, and not at all before CONNECT.
abbrev pub connected : Option ℕ → Option ByteOrder → Frame → Option TimeSyncEvent
connected (some m) (some motorola) packet = parse big m packet
connected (some m) (some intel) packet = parse little m packet
connected (some m) none packet = none
connected none order packet = none

abbrev pub synchronized : Options → Frame → Option TimeSyncEvent
synchronized o packet = elim o.slave_properties [
  | none ↦ parse o.transport_byte_order o.transport_max_cto packet
  | some p ↦ connected p.max_cto p.byte_order packet
]

-- The reference: EV_CMD_PENDING restarts the time, EV_TIME_SYNC is parsed and kept, and nothing
-- else has an effect.
abbrev pub effect : ℕ → Frame → Session → Session
effect event_code packet s =
    if event_code == 0x05
    then record s { transport = record s.transport { timer_restart_event = true } }
    else (if event_code == 0x08 then keep (synchronized s.options packet) s else s)

sync_event-connected :
    (m : Option ℕ) (order : Option ByteOrder) (packet : Frame)
    → sync_event (from_properties m order) packet ≡ connected m order packet
unfolding sync_event from_properties byte_order_of
sync_event-connected none order packet = refl
sync_event-connected (some m) none packet = refl
sync_event-connected (some m) (some motorola) packet = refl
sync_event-connected (some m) (some intel) packet = refl

sync_event-synchronized :
    (o : Options) (packet : Frame) → sync_event (parse_options o) packet ≡ synchronized o packet
unfolding sync_event parse_options
sync_event-synchronized o packet = by_properties o.slave_properties
  where
    by_properties :
        (q : Option SlaveProperties)
        → sync_event
            (elim q [
              | none ↦ some (o.transport_max_cto, o.transport_byte_order)
              | some p ↦ from_properties p.max_cto p.byte_order
            ])
            packet
          ≡ elim q [
            | none ↦ parse o.transport_byte_order o.transport_max_cto packet
            | some p ↦ connected p.max_cto p.byte_order packet
          ]
    by_properties none = refl
    by_properties (some p) = sync_event-connected p.max_cto p.byte_order packet

-- A handler that can take the event and is done with it ends the chain.
process-taken :
    (h : Handler) (next : List Handler) (c : ℕ) (p : Frame) (s : Session)
    → h.can_handle c ≡ true
    → (h.handle c p s).0 ≡ true
    → process (h ∷ next) c p s ≡ h.handle c p s
unfolding process
process-taken h next c p s e f = rw (e, if◌then◌else◌, f)

process-skipped :
    (h : Handler) (next : List Handler) (c : ℕ) (p : Frame) (s : Session)
    → h.can_handle c ≡ false
    → process (h ∷ next) c p s ≡ process next c p s
unfolding process
process-skipped h next c p s e = rw (e, if◌then◌else◌)

-- A handler that only writes to the log leaves the state to the next one, or ends the chain.
process-log :
    (f : ℕ → Bool) (next : List Handler) (c : ℕ) (p : Frame) (s : Session)
    → process next c p s ≡ (true, s)
    → process
        (record { can_handle = f; handle = λ event_code packet t. (f event_code, t) } ∷ next)
        c
        p
        s
      ≡ (true, s)
process-log f next c p s rest = elim (Bool-cases (f c)) [
  | inl e ↦ process-taken _ next c p s e e ∙ ap (λ b. (b, s)) e
  | inr e ↦ process-skipped _ next c p s e ∙ rest
]

logging-chain :
    (c : ℕ) (p : Frame) (s : Session)
    → process (session_state_handler ∷ daq_stim_handler ∷ user_handler ∷ []) c p s ≡ (true, s)
unfolding session_state_handler daq_stim_handler user_handler
logging-chain c p s =
    process-log (one_of session_state_codes) _ c p s
      (process-log (one_of daq_stim_codes) _ c p s (process-taken _ [] c p s refl refl))

-- Behind the first handler.
time_sync-chain :
    (c : ℕ) (p : Frame) (s : Session)
    → process
        (time_sync_handler ∷ session_state_handler ∷ daq_stim_handler ∷ user_handler ∷ [])
        c
        p
        s
      ≡ (true, if c == 0x08 then keep (synchronized s.options p) s else s)
unfolding time_sync_handler time_sync_handle
time_sync-chain c p s = elim (Bool-cases (c == 0x08)) [
  | inl e ↦
      process-taken _ _ c p s e refl ∙ rw (e, if◌then◌else◌, sync_event-synchronized s.options p)
  | inr e ↦ process-skipped _ _ c p s e ∙ logging-chain c p s ∙ rw (e, if◌then◌else◌)
]

-- The first handler takes its two codes and no other.
module _ (next : List Handler) (c : ℕ) (p : Frame) (s : Session) where
  process-pending :
      (c == 0x05) ≡ true
      → process (transport_handler ∷ next) c p s
        ≡ (true, record s { transport = record s.transport { timer_restart_event = true } })
  unfolding transport_handler transport_handle one_of
  process-pending e =
      process-taken _ next c p s (rw e) (rw (e, if◌then◌else◌)) ∙ rw (e, if◌then◌else◌)

  process-transport :
      (c == 0x05) ≡ false
      → (c == 0xFF) ≡ true
      → process (transport_handler ∷ next) c p s ≡ (true, s)
  unfolding transport_handler transport_handle one_of
  process-transport e f =
      process-taken _ next c p s (rw (e, f)) (rw (e, if◌then◌else◌, f)) ∙ rw (e, if◌then◌else◌, f)

  process-others :
      (c == 0x05) ≡ false
      → (c == 0xFF) ≡ false
      → process (transport_handler ∷ next) c p s ≡ process next c p s
  unfolding transport_handler transport_handle one_of
  process-others e f = process-skipped _ next c p s (rw (e, f))

not_time_sync : (c : ℕ) → (c == 0xFF) ≡ true → (c == 0x08) ≡ false
not_time_sync c e = ground arith

-- The default chain consumes each event, and only EV_CMD_PENDING and EV_TIME_SYNC change anything:
-- the first restarts the time; the second is parsed and kept if that works, with MAX_CTO and the
-- byte order of the connected slave, or with those of a transport that has no master; before
-- CONNECT has stored both properties it is dropped.
pub process-effect :
    (c : ℕ) (p : Frame) (s : Session) → process default_event_chain c p s ≡ (true, effect c p s)
unfolding default_event_chain
process-effect c p s = elim (Bool-cases (c == 0x05)) [
  | inl e ↦ process-pending _ c p s e ∙ rw (e, if◌then◌else◌)
  | inr e ↦ elim (Bool-cases (c == 0xFF)) [
    | inl f ↦ process-transport _ c p s e f ∙ rw (e, if◌then◌else◌, not_time_sync c f)
    | inr f ↦ process-others _ c p s e f ∙ time_sync-chain c p s ∙ rw (e, if◌then◌else◌)
  ]
]
