-- ===== src/ErrorHandler/Repeater.antt =====
-- Repeater: how often an action is repeated (pyxcp/master/errorhandler.py: Repeater).
use pyxcp.Prelude.{ℕ, zero, suc, Bool, true, false, Option, none, some, ◌≡◌}

-- A count: `INFINITE` is -1. A negative count below that never repeats, like 0.
pub data Count : Type 0 where
  infinite : Count
  times : ℕ → Count

abbrev pub repeat_once : Count
repeat_once = times 1

abbrev pub repeat_2_times : Count
repeat_2_times = times 2

pub record Repeater : Type 0 where
  pub counter : Count
  pub initial_value : Count
  pub max_retries : Option Count

initial_counter : Count → Option Count → Count
initial_counter initial (some infinite) = infinite
initial_counter initial (some (times n)) = times n
initial_counter initial none = initial

-- `Repeater(initial_value, max_retries)`
unfoldable pub new_repeater : Count → Option Count → Repeater
unfolding initial_counter
new_repeater initial limit = record {
  counter = initial_counter initial limit;
  initial_value = initial;
  max_retries = limit;
}

count_down : Count → Bool × Count
count_down infinite = (true, infinite)
count_down (times (suc n)) = (true, times n)
count_down (times zero) = (false, times zero)

-- `Repeater.repeat`
unfoldable pub repeat : Repeater → Bool × Repeater
unfolding count_down
repeat r = let (more, c) = count_down r.counter in (more, record r { counter = c })

pub repeat-zero :
    (r : Repeater) → r.counter ≡ times zero → repeat r ≡ (false, record r { counter = times zero })
unfolding repeat
repeat-zero r e = rw (e, count_down)

pub repeat-suc :
    (r : Repeater) (n : ℕ)
    → r.counter ≡ times (suc n)
    → repeat r ≡ (true, record r { counter = times n })
unfolding repeat
repeat-suc r n e = rw (e, count_down)

pub repeat-infinite :
    (r : Repeater) → r.counter ≡ infinite → repeat r ≡ (true, record r { counter = infinite })
unfolding repeat
repeat-infinite r e = rw (e, count_down)
