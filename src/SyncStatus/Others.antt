-- ===== src/SyncStatus/Others.antt =====
-- The files that the end of a transfer leaves alone.
use multisync.Base.{◌≡◌, ◌≢◌, Bytes, arith}
use multisync.Stream.{Disk, Ofstream, file_at, rename}
use multisync.Stream
use multisync.Stream.Written.{file_at-put_ne, file_at-rename_ne}
use multisync.SyncStatus.{SyncStatus, transfer_complete, sync_complete}

file_at-close :
    (x temp : Bytes) (s : Ofstream) (disk : Disk)
    → x ≢ temp
    → file_at x (Stream.close temp s disk).1 ≡ file_at x disk
unfolding Stream.close
file_at-close x temp s disk h = ground (arith, file_at-put_ne x temp s.written disk h)

-- `transfer_complete` touches no file but the temporary one and the one under the path.
file_at-transfer_complete :
    (x : Bytes) (s : SyncStatus) (disk : Disk)
    → x ≢ s.temp
    → x ≢ s.path
    → file_at x (transfer_complete s disk).2 ≡ file_at x disk
unfolding transfer_complete
file_at-transfer_complete x s disk h k = ground (
  arith,
  file_at-rename_ne x s.temp s.path (Stream.close s.temp s.output disk).1 h k,
  file_at-close x s.temp s.output disk h,
)

pub file_at-sync_complete :
    (x : Bytes) (s : SyncStatus) (disk : Disk)
    → x ≢ s.temp
    → x ≢ s.path
    → file_at x (sync_complete s disk).2 ≡ file_at x disk
unfolding sync_complete
file_at-sync_complete x s disk h k = ground (arith, file_at-transfer_complete x s disk h k)
