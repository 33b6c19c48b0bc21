-- ===== src/Abi/Descriptor/Fields.antt =====
-- The fields of a descriptor: reading after writing, independence, and the descriptor of a call.
use brittle_kernel.Prelude.{ℕ, ◌%◌, ◌^◌, ◌≡◌, Bool, true, false, arith}
use brittle_kernel.Abi.Selectors.{sysnum_ipc}
use brittle_kernel.Abi.Descriptor.{
  Descriptor, get_selector, get_error, get_send_enabled, get_receive_enabled, get_block, get_target,
  get_source, get_sysnum, sanitized, call,
}

pub record Fields (d : Descriptor) (s t src num : ℕ) (e snd rcv blk : Bool) : Type 0 where
  pub selector : get_selector d ≡ s
  pub error : get_error d ≡ e
  pub send_enabled : get_send_enabled d ≡ snd
  pub receive_enabled : get_receive_enabled d ≡ rcv
  pub block : get_block d ≡ blk
  pub target : get_target d ≡ t
  pub source : get_source d ≡ src
  pub sysnum : get_sysnum d ≡ num

-- A sanitized descriptor keeps the selector and the error bit, and every other field reads as zero.
pub sanitized-Fields :
    (d : Descriptor) → Fields (sanitized d) (get_selector d) 0 0 0 (get_error d) false false false
unfolding sanitized get_selector get_error get_send_enabled get_receive_enabled get_block get_target
    get_source get_sysnum
sanitized-Fields d = ground arith

-- A call descriptor reads back its selector modulo 2^16 and its target modulo 16; it is an IPC that
-- sends, may block and receives on source 0, and carries no error.
pub call-Fields :
    (s k : ℕ) → Fields (call s k) (s % 2 ^ 16) (k % 16) 0 sysnum_ipc false true true true
unfolding call get_selector get_error get_send_enabled get_receive_enabled get_block get_target
    get_source get_sysnum
call-Fields s k = ground arith
