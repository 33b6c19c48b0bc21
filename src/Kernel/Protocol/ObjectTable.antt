-- ===== src/Kernel/Protocol/ObjectTable.antt =====
-- The Object Table protocol, k/object_table.cc.
pub mod Minting
use brittle_kernel.Prelude.{◌+◌, ◌*◌, ◌/◌, ◌%◌, ◌^◌, ◌-◌, not, ◌&&◌, ◌==◌, leb, if◌then◌else◌}
use brittle_kernel.Run.{pure, maybe, ◌>>=◌, ◌>>◌}
use brittle_kernel.Abi.Exceptions.{index_out_of_range, bad_brand, causality}
use brittle_kernel.Abi.Descriptor.{get_selector}
use brittle_kernel.Abi.Message.{zero_message}
use brittle_kernel.Abi.Selectors.ObjectTable.{
  mint_key, read_key, get_kind, invalidate as sel_invalidate,
}
use brittle_kernel.Kernel.{gets, kind, object_at}
use brittle_kernel.Kernel.Keys.{resolve, pointee, make_key}
use brittle_kernel.Kernel.Objects.{invalidate}
use brittle_kernel.Kernel.Protocol.{Handler, empty_reply, reply_message, refuse, with_key, do_badop}

unfoldable pub do_mint_key : Handler
unfolding refuse make_key with_key
do_mint_key this _ args keys = do
  let index = args.d0
  let brand = args.d1 + args.d2 * 2 ^ 32
  count ← gets (λ k. k.count)
  if leb count index then pure (refuse index_out_of_range) else do
    maybe_key ← gets (λ k. make_key k index brand)
    maybe maybe_key (pure (refuse bad_brand)) (λ key. with_key 1 key empty_reply)

-- The entry that the key points to, less the base of the table, is the index.
unfoldable pub do_read_key : Handler
unfolding resolve
do_read_key this _ args keys = do
  key ← gets (λ k. resolve k (keys 1))
  pure (
      reply_message (record zero_message {
        d0 = pointee key % 2 ^ 32;
        d1 = key.brand % 2 ^ 32;
        d2 = key.brand / 2 ^ 32 % 2 ^ 32;
      }))

unfoldable pub do_get_kind : Handler
unfolding refuse
do_get_kind this _ args keys = do
  let index = args.d0
  count ← gets (λ k. k.count)
  n ← gets (λ k. kind (object_at k index))
  pure (
      if leb count index
      then refuse index_out_of_range
      else reply_message (record zero_message { d0 = n }))

unfoldable pub do_invalidate : Handler
unfolding refuse invalidate
do_invalidate this _ args keys = do
  let index = args.d0
  let rollover_ok = not (args.d1 == 0)
  count ← gets (λ k. k.count)
  generation ← gets (λ k. (k.objects index).generation)
  if leb count index
      then pure (refuse index_out_of_range)
      else if not rollover_ok && (generation == 2 ^ 32 - 1)
      then pure (refuse causality)
      else do invalidate index; pure empty_reply

-- The switch of ObjectTable::deliver_from.
unfoldable pub object_table_handler : Handler
unfolding do_mint_key do_read_key do_get_kind do_invalidate do_badop get_selector
object_table_handler this brand m keys =
    let s = get_selector m.desc in
    if s == mint_key
    then do_mint_key this brand m keys
    else if s == read_key
    then do_read_key this brand m keys
    else if s == get_kind
    then do_get_kind this brand m keys
    else if s == sel_invalidate
    then do_invalidate this brand m keys
    else pure (do_badop m)
