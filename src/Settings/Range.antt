-- ===== src/Settings/Range.antt =====
-- The bounds that refused a value, and the value: the error of each `validate`.
use briska_blast.Common.{ℕ}

pub record RangeError : Type 0 where
  pub min : ℕ
  pub max : ℕ
  pub requested : ℕ
