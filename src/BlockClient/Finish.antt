-- ===== src/BlockClient/Finish.antt =====
-- The end of the client's handlers: what becomes of the status of the file, and of the others.
use multisync.Base.{◌≡◌, ◌≢◌, refl, ◌∙◌, false, none, some, Bool-cases, inl, inr, if◌then◌else◌}
use multisync.OrderedMap.{find, assign, IsSorted}
use multisync.OrderedMap.Laws.{
  find-assign_self, find-assign_ne, assign-IsSorted, erase-IsSorted, find-erase_self, find-erase_ne,
}
use multisync.FileInfo.{FileInfo}
use multisync.FileInfo.Order
use multisync.SyncStatus.{SyncStatus, sync_complete}
use multisync.BlockClient.{BlockClient, finish}

-- The disk is that of `sync_complete`, and the queue is left alone.
pub finish_disk :
    (f : FileInfo) (s : SyncStatus) (c : BlockClient)
    → ((finish f s c).disk ≡ (sync_complete s c.disk).2)
      × ((finish f s c).message_queue ≡ c.message_queue)
unfolding finish
finish_disk f s c = (refl, refl)

-- Where the sync is not complete, the status is put back.
pub finish_going :
    (f : FileInfo) (s : SyncStatus) (c : BlockClient)
    → sync_complete s c.disk ≡ (false, s, c.disk)
    → finish f s c ≡ record c { sync_set = assign Order.order f s c.sync_set }
unfolding finish
finish_going f s c e = rw e refl

pub finish-IsSorted :
    (f : FileInfo) (s : SyncStatus) (c : BlockClient)
    → IsSorted Order.order c.sync_set
    → IsSorted Order.order (finish f s c).sync_set
unfolding finish
finish-IsSorted f s c sorted =
    let kept = assign-IsSorted Order.order f (sync_complete s c.disk).1 c.sync_set sorted in
    elim (Bool-cases (sync_complete s c.disk).0) [
      | inl done ↦ rw done (erase-IsSorted Order.order f _ kept)
      | inr more ↦ rw more kept
    ]

-- The file is dropped exactly if the sync is complete, and otherwise has the status that was worked
-- on.
pub find-finish_self :
    (f : FileInfo) (old s : SyncStatus) (c : BlockClient)
    → IsSorted Order.order c.sync_set
    → find Order.order f c.sync_set ≡ some old
    → find Order.order f (finish f s c).sync_set
      ≡ (if (sync_complete s c.disk).0 then none else some (sync_complete s c.disk).1)
unfolding finish
find-finish_self f old s c sorted known =
    let s' = (sync_complete s c.disk).1 in
    elim (Bool-cases (sync_complete s c.disk).0) [
      | inl done ↦
          rw done
            (find-erase_self Order.order f _ (assign-IsSorted Order.order f s' c.sync_set sorted))
      | inr more ↦ rw more (find-assign_self Order.order f s' old c.sync_set known)
    ]

-- Any other file keeps its own.
pub find-finish_ne :
    (f other : FileInfo) (s : SyncStatus) (c : BlockClient)
    → f ≢ other
    → IsSorted Order.order c.sync_set
    → find Order.order other (finish f s c).sync_set ≡ find Order.order other c.sync_set
unfolding finish
find-finish_ne f other s c ne sorted =
    let s' = (sync_complete s c.disk).1 in
    let kept = find-assign_ne Order.order f other s' c.sync_set ne in
    elim (Bool-cases (sync_complete s c.disk).0) [
      | inl done ↦ rw done (
          find-erase_ne Order.order f other _ (assign-IsSorted Order.order f s' c.sync_set sorted)
            ne
          ∙ kept)
      | inr more ↦ rw more kept
    ]
