-- ===== src/Go/Panic.antt =====
-- The panics of the program; `logged` is that of the logger's `Panic`.
pub data Panic : Type 0 where
  index_out_of_range nil_dereference must_failed type_assertion logged : Panic
