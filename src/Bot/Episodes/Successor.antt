-- ===== src/Bot/Episodes/Successor.antt =====
-- Which episode is next.
use streamly.Prelude.{false, false, List}
use mathlib.Core.List.{Permᴰ}
use mathlib.Core.List.Permᴰ
