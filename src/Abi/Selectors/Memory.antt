-- ===== src/Abi/Selectors/Memory.antt =====
-- common/selectors.h: the selectors of the Memory protocol.
use brittle_kernel.Prelude.{ℕ}

abbrev pub inspect : ℕ
inspect = 1

abbrev pub change : ℕ
change = 2

abbrev pub split : ℕ
split = 3

abbrev pub become : ℕ
become = 4

abbrev pub peek : ℕ
peek = 5

abbrev pub poke : ℕ
poke = 6

abbrev pub make_child : ℕ
make_child = 7
