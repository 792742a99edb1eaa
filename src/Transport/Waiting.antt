-- ===== src/Transport/Waiting.antt =====
-- The waiting loops of the transport (pyxcp/transport/base.py: get, block_receive).
use pyxcp.Prelude.{ℕ, ◌-◌, false, List, [], ◌∷◌, ◌++◌, length, drop, ltb, leb, if◌then◌else◌}
use pyxcp.Transport.{Frame, Transport, Packet, receive}

-- What a round of a loop meets: the clock where `get` starts the time anew, the clock where the
-- elapsed time is computed, and the packets that the listener processes while the loop waits at
-- the end of the round.
pub record Wake : Type 0 where
  pub restarted : ℕ
  pub now : ℕ
  pub arrivals : List Packet

pub data Waited (A : Type 0) : Type 0 where
  got : A → Transport → Waited A
  -- `EmptyFrameError` or `XcpTimeoutError`
  timed_out : Transport → Waited A
  -- The rounds given are over and the loop still waits.
  waiting : Transport → Waited A

-- The body of the loop of `get` up to its wait.
pub data Poll : Type 0 where
  item : Frame → Transport → Poll
  over : Transport → Poll
  sleep : ℕ → Transport → Poll

-- `elapsed > timeout_ns`
unfoldable pub check_time : ℕ → ℕ → ℕ → Transport → Poll
check_time timeout now start s = if ltb timeout (now - start) then over s else sleep start s

-- The clock is read once more after the time was started anew.
unfoldable pub poll_empty : ℕ → ℕ → ℕ → ℕ → Transport → Poll
poll_empty timeout restarted now start s =
    if s.timer_restart_event
    then check_time timeout now restarted (record s { timer_restart_event = false })
    else check_time timeout now start s

unfoldable pub poll_queue : List Frame → ℕ → ℕ → ℕ → ℕ → Transport → Poll
poll_queue [] timeout restarted now start s = poll_empty timeout restarted now start s
poll_queue (x ∷ xs) timeout restarted now start s = item x (record s { res_queue = xs })

-- `partial_response[1:]` of the packets is joined while bytes are missing; the block and the
-- packets that are left.
unfoldable pub drain : ℕ → Frame → List Frame → Frame × List Frame
drain required block [] = (block, [])
drain required block (x ∷ xs) =
    let rest = drain required (block ++ drop 1 x) xs in
    if leb required (length block) then (block, x ∷ xs) else rest

module _ (process_event_packet : Frame → Transport → Transport) (timeout : ℕ) where
  unfoldable pub after_poll : (ℕ → Transport → Waited Frame) → List Packet → Poll → Waited Frame
  after_poll again arrivals (item x s) = got x s
  after_poll again arrivals (over s) = timed_out s
  after_poll again arrivals (sleep start s) = again start (receive process_event_packet arrivals s)

  -- The rounds of `get`; `start` is the clock when the time began to count.
  unfoldable pub get : List Wake → ℕ → Transport → Waited Frame
  get [] start s = waiting s
  get (w ∷ ws) start s =
      after_poll (get ws) w.arrivals (poll_queue s.res_queue timeout w.restarted w.now start s)

  -- The rounds of `block_receive`. A round takes what the queue has: packets that arrive
  -- meanwhile stand behind them, as if they came at its end.
  unfoldable pub block_receive : ℕ → List Wake → ℕ → Frame → Transport → Waited Frame
  block_receive required [] start block s =
      let (block', queue) = drain required block s.res_queue in
      if leb required (length block')
      then got block' (record s { res_queue = queue })
      else waiting (record s { res_queue = queue })
  block_receive required (w ∷ ws) start block s =
      let (block', queue) = drain required block s.res_queue in
      let s' = record s { res_queue = queue } in
      let later =
        block_receive required ws start block' (receive process_event_packet w.arrivals s') in
      if leb required (length block')
      then got block' s'
      else (if ltb timeout (w.now - start) then timed_out s' else later)
