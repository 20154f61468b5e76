-- ===== src/BlockClient/Handlers.antt =====
-- The handlers of the client: a block on its way from the
-- server's file into the client's.
use multisync.Base.{
  ℕ, ◌*◌, ◌%◌, ◌^◌, ◌<◌, ◌≤◌, ◌≡◌, refl, ap, ◌∙◌, true, Bytes, length, ok, undefined, some, ◌>>=◌,
  arith, set,
}
use multisync.Platform.{Platform}
use multisync.OrderedMap.{find}
use multisync.FileInfo.{FileInfo}
use multisync.FileInfo.Order
use multisync.BlockInfo.{BlockInfo, to_unsigned, get_file_info}
use multisync.BlockInfo
use multisync.Message.{Message, get_metadata}
use multisync.Socket.{Address}
use multisync.SyncStatus.{SyncStatus, Fresh, write_block}
use multisync.SyncStatus.Progress.{IsValid, write_block-past}
use multisync.SyncStatus.Transfer.{Holds, block_of}
use multisync.SyncStatus.Arrival.{delivered}
use multisync.BlockServer.Blocks.{block_packet, block_metadata, file_of, to_unsigned-construct}
use multisync.BlockClient.{BlockClient, get_sync_status, finish, handle_block}

get_sync_status_known :
    (q : Platform) (fresh : Fresh) (file : FileInfo) (a : Address) (c : BlockClient)
    (s : SyncStatus)
    → find Order.order file c.sync_set ≡ some s
    → get_sync_status q fresh file a c ≡ ok (s, c)
unfolding get_sync_status
get_sync_status_known q fresh file a c s e = rw (e, get_sync_status)

-- `handle_block` for a file that the client knows.
handle_block_known :
    (q : Platform) (fresh : Fresh) (m : Message) (a : Address) (c : BlockClient) (i : BlockInfo)
    (s : SyncStatus)
    → get_metadata q (BlockInfo.pod q) m ≡ ok i
    → find Order.order (get_file_info i) c.sync_set ≡ some s
    → handle_block q fresh m a c
      ≡ (write_block q (to_unsigned q i) m s >>= λ s'. ok (finish (get_file_info i) s' c))
unfolding handle_block
handle_block_known q fresh m a c i s e known =
    rw (e, get_sync_status_known q fresh (get_file_info i) a c s known)

-- A block message that names a file the client knows, with a number that the file's status has no
-- mark for, makes the behaviour of `handle_block` undefined, whatever else it holds.
pub handle_block-past :
    (q : Platform) (fresh : Fresh) (m : Message) (a : Address) (c : BlockClient) (i : BlockInfo)
    (s : SyncStatus)
    → get_metadata q (BlockInfo.pod q) m ≡ ok i
    → find Order.order (get_file_info i) c.sync_set ≡ some s
    → length s.block_array ≤ to_unsigned q i
    → handle_block q fresh m a c ≡ undefined
handle_block-past q fresh m a c i s e known past =
    handle_block_known q fresh m a c i s e known
    ∙ ap (λ r. r >>= λ s'. ok (finish (get_file_info i) s' c))
        (write_block-past q (to_unsigned q i) m s past)

-- The file of a block, as the client keeps it.
block_file :
    (q : Platform) (file : FileInfo) (b : ℕ) → get_file_info (BlockInfo.construct q file b) ≡ file
unfolding get_file_info BlockInfo.construct
block_file q file b = refl

-- A block crosses. The server on host `p` has put block `b` of its file, below 4 GiB, into a
-- message (`block_packet`), and the client on host `q` holds that buffer and knows the file, with a
-- valid status whose output agrees with the file on all blocks marked so far, and `b` is a block of
-- the file and of the status. Then `handle_block` returns, and the status it goes on with is valid
-- and agrees with the file on all marked blocks; its marks are those of before with that of block
-- `b` set.
pub handle_block-delivers :
    (p q : Platform) (digest : Bytes) (count b id : ℕ) (file : Bytes) (m : Message) (fresh : Fresh)
    (a : Address) (c : BlockClient) (s : SyncStatus)
    → length digest ≡ 33
    → count < 2 ^ 32
    → b < 2 ^ 22
    → m.buffer ≡ block_packet p id (file_of p digest count) b file
    → find Order.order (file_of q digest count) c.sync_set ≡ some s
    → Holds file s
    → IsValid s
    → 1024 * b < length file
    → b < length s.block_array
    → (s' : SyncStatus) × (handle_block q fresh m a c ≡ ok (finish (file_of q digest count) s' c))
      × Holds file s'
      × IsValid s'
      × (s'.block_array ≡ set s.block_array b true)
handle_block-delivers p q digest count b id file m fresh a c s hd hc hb e known hold v inside room =
    let here = file_of q digest count in
    let i = BlockInfo.construct q here b in
    let (told, text) = block_metadata p q digest count b id file m hd hc (omega arith) e in
    let text' = text ∙ ap (λ n. ok (block_of file n)) {x = b % 2 ^ 22} {y = b} (omega arith) in
    let (s', r, hold', v', len, path, temp, marked, kept, marks) =
      delivered q file b m s hold v inside room text' in
    (
      s',
      handle_block_known q fresh m a c i s told
            (ap (λ f. find Order.order f c.sync_set) (block_file q here b) ∙ known)
          ∙ ap (λ n. write_block q n m s >>= λ x. ok (finish (get_file_info i) x c))
              (to_unsigned-construct q here b (omega arith))
          ∙ ap (λ w. w >>= λ x. ok (finish (get_file_info i) x c)) r
          ∙ ap (λ f. ok (finish f s' c)) (block_file q here b),
      hold',
      v',
      marks,
    )
