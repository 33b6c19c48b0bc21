-- ===== src/Abi/Selectors/ObjectTable.antt =====
-- common/selectors.h: the selectors of the ObjectTable protocol.
use brittle_kernel.Prelude.{ℕ}

abbrev pub mint_key : ℕ
mint_key = 1

abbrev pub read_key : ℕ
read_key = 2

abbrev pub get_kind : ℕ
get_kind = 3

abbrev pub invalidate : ℕ
invalidate = 4
