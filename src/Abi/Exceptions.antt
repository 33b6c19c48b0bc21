-- ===== src/Abi/Exceptions.antt =====
-- common/exceptions.h: the 64-bit identifiers of the kernel's exceptions.
use brittle_kernel.Prelude.{ℕ}

pub data Exception : Type 0 where
  bad_operation would_block fault index_out_of_range bad_syscall : Exception
  bad_brand bad_argument bad_kind causality : Exception

abbrev pub identifier : Exception → ℕ
identifier bad_operation = 0xfbfee62145593586
identifier would_block = 0x1dfc663bc104def5
identifier fault = 0x07b819f85884ac2e
identifier index_out_of_range = 0x0aa90fb0c1751680
identifier bad_syscall = 0xabece95f618e09ea
identifier bad_brand = 0x71decab8530ce0eb
identifier bad_argument = 0x05d87accc034ac82
identifier bad_kind = 0x2cd5ea64cc3bfcd6
identifier causality = 0x402a370053d833a6
