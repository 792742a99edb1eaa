-- ===== src/Transport/Queue.antt =====
-- What reaches the response queue (pyxcp/transport/base.py: process_response).
use pyxcp.Prelude.{
  ◌≡◌, sym, ap, ◌∙◌, true, false, List, [], ◌∷◌, ◌++◌, append_assoc, append-nil, Bool-cases, inl,
  inr, leb, leb→le, le→leb, ◌==◌, if◌then◌else◌, arith,
}
use pyxcp.Transport.{
  Frame, Transport, Packet, trimmed, feed, process_daq, process_reply, process_other,
  process_response, receive,
}

-- The reference: the packets with the identifiers of positive and negative responses, without
-- their padding, in the order of reception.
unfoldable pub responses : List Packet → List Frame
responses [] = []
responses (p ∷ ps) = if leb 0xFE p.pid then trimmed p ∷ responses ps else responses ps

module _ (h : Frame → Transport → Transport)
    (keeps : (x : Frame) (s : Transport) → (h x s).res_queue ≡ s.res_queue) where
  process_response-reply :
      (p : Packet) (s : Transport)
      → leb 0xFE p.pid ≡ true
      → (process_response h p s).res_queue ≡ s.res_queue ++ (trimmed p ∷ [])
  unfolding process_response process_other process_reply feed
  process_response-reply p s e =
      let big : leb 0xFC p.pid ≡ true = le→leb _ _ (omega (arith, leb→le _ _ e)) in
      rw (big, if◌then◌else◌, e)

  process_response-other :
      (p : Packet) (s : Transport)
      → leb 0xFE p.pid ≡ false
      → (process_response h p s).res_queue ≡ s.res_queue
  unfolding process_response process_other process_daq feed
  process_response-other p s e = elim (Bool-cases (leb 0xFC p.pid)) [
    | inl q ↦
        rw (q, if◌then◌else◌, e)
          (elim (Bool-cases (p.pid == 0xFD)) [
            | inl d ↦ rw (d, if◌then◌else◌) (keeps (trimmed p) _)
            | inr d ↦ rw (d, if◌then◌else◌)
          ])
    | inr q ↦ rw (q, if◌then◌else◌)
  ]

  -- Whatever packets arrive, the queue grows by exactly the responses among them, in order and
  -- without padding; the chain of event handlers leaves the queue alone.
  pub receive-responses :
      (ps : List Packet) (s : Transport) → (receive h ps s).res_queue ≡ s.res_queue ++ responses ps
  unfolding receive responses
  receive-responses [] s = sym (append-nil s.res_queue)
  receive-responses (p ∷ ps) s = elim (Bool-cases (leb 0xFE p.pid)) [
    | inl e ↦
        receive-responses ps (process_response h p s)
        ∙ ap (λ q. q ++ responses ps) (process_response-reply p s e)
        ∙ append_assoc s.res_queue (trimmed p ∷ []) (responses ps)
        ∙ rw (e, if◌then◌else◌)
    | inr e ↦
        receive-responses ps (process_response h p s)
        ∙ ap (λ q. q ++ responses ps) (process_response-other p s e)
        ∙ rw (e, if◌then◌else◌)
  ]
