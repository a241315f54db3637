-- ===== src/Oracle/Examples.antt =====
-- The domain at concrete values.
use etf.Base.{◌≡◌, refl}
use etf.Base.Int.{pos}
use etf.Oracle.{normalize_to_18}

normalize_8 : normalize_to_18 5 (pos 8) ≡ 50_000_000_000
unfolding normalize_to_18
normalize_8 = refl
