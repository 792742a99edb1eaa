-- ===== src/Optimize/Blocks/Overlap.antt =====
-- Measurements that overlap only in part.
use pyxcp.Prelude.{◌+◌, ◌<◌, ◌≡◌}
use pyxcp.Optimize.Blocks.{McObject}

-- Two measurements of one extension: `y` starts inside `x`, before its last byte, and ends after
-- it.
pub record Overhangs (x y : McObject) : Type 0 where
  pub same_ext : x.ext ≡ y.ext
  pub later : x.address < y.address
  pub inside : y.address + 1 < x.address + x.length
  pub beyond : x.address + x.length < y.address + y.length
