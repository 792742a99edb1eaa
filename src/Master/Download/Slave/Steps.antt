-- ===== src/Master/Download/Slave/Steps.antt =====
-- One packet, and sequences of packets, at the slave (pyxcp/master/master.py: download,
-- downloadNext, program, programNext).
use pyxcp.Prelude.{
  ℕ, ◌-◌, ◌≤◌, ◌<◌, ◌≡◌, refl, sym, ap, ◌∙◌, Bool, true, false, some, List, [], ◌∷◌, ◌++◌, length,
  le→leb, lt→ltb, ◌==◌, ==_iff, ==_refl, if◌then◌else◌, arith,
}
use pyxcp.Master.Download.{
  Service, Request, Kind, downloading, programming, dl_func, dl_next_func, download, download_next,
  program, program_next, send, sends,
}
use pyxcp.Master.Download.Slave.{State, expected, exchange, accept_packet, answered, step}
use pyxcp.Prelude.Runs.{run, run-through}

-- So many bytes written, so many missing, and no unread response.
abbrev pub at : State → List ℕ → ℕ → State
at s w n = record s { written = w; missing = n; unread = 0 }

pub accept_packet-whole :
    (s : State) (w p : List ℕ) (k m n : ℕ) (awaits : Bool) (service : Service)
    → length p ≤ n
    → awaits ≡ (n - length p == 0)
    → accept_packet
        (record { awaits = awaits; service = service; size = m; payload = p })
        (at s w k)
        (some n)
      ≡ some (at s (w ++ p) (n - length p))
unfolding accept_packet answered exchange
accept_packet-whole s w p k m n true service h e =
    rw (← e, exchange, answered, le→leb _ _ h, if◌then◌else◌)
accept_packet-whole s w p k m n false service h e =
    rw (← e, exchange, answered, le→leb _ _ h, if◌then◌else◌)

-- The packet that opens a block, when no block is open.
pub step-dl_func :
    (kind : Kind) (s : State) (w p : List ℕ) (n : ℕ) (last : Bool)
    → length p ≤ n
    → last ≡ (n - length p == 0)
    → step (send (dl_func kind p n last)) (at s w 0) ≡ some (at s (w ++ p) (n - length p))
unfolding step expected dl_func download program
step-dl_func downloading s w p n true h e =
    let z : length p ≡ n = omega (arith, (==_iff (n - length p) 0).0 (sym e)) in
    ap (λ k. accept_packet (download p (some n) true) (at s w 0) (some k)) z
    ∙ accept_packet-whole s w p 0 _ n true _ h e
step-dl_func downloading s w p n false h e = accept_packet-whole s w p 0 n n false _ h e
step-dl_func programming s w p n last h e = accept_packet-whole s w p 0 n n last _ h e

-- A packet that goes on with the open block.
pub step-dl_next_func :
    (kind : Kind) (s : State) (w p : List ℕ) (n : ℕ) (last : Bool)
    → 0 < n
    → length p ≤ n
    → last ≡ (n - length p == 0)
    → step (send (dl_next_func kind p n last)) (at s w n) ≡ some (at s (w ++ p) (n - length p))
unfolding step expected dl_next_func download_next program_next
step-dl_next_func downloading s w p n last o h e =
    rw (==_refl n, lt→ltb 0 n o, if◌then◌else◌) (accept_packet-whole s w p n n n last _ h e)
step-dl_next_func programming s w p n last o h e =
    rw (==_refl n, lt→ltb 0 n o, if◌then◌else◌) (accept_packet-whole s w p n n n last _ h e)

pub sends-append : (rs qs : List Request) → sends (rs ++ qs) ≡ sends rs ++ sends qs
sends-append [] qs = refl
sends-append (r ∷ rs) qs = ap (λ cs. send r ∷ cs) (sends-append rs qs)

pub run-sends :
    (rs qs : List Request) (s s' : State)
    → run step (sends rs) s ≡ some s'
    → run step (sends (rs ++ qs)) s ≡ run step (sends qs) s'
run-sends rs qs s s' e =
    ap (λ cs. run step cs s) (sends-append rs qs) ∙ run-through step (sends rs) (sends qs) s s' e
