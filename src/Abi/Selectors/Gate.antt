-- ===== src/Abi/Selectors/Gate.antt =====
-- common/selectors.h: the selectors of the Gate protocol.
use brittle_kernel.Prelude.{ℕ}

abbrev pub make_client_key : ℕ
make_client_key = 1
