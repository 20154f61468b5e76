-- ===== src/Examples/Traffic.antt =====
-- The datagrams of two servers at one client.
use multisync.Base.{
  ℕ, zero, suc, ◌<◌, ◌≡◌, ◌≢◌, refl, ap, true, some, List, [], ◌∷◌, ◌++◌, Bytes, replicate, arith,
  ok, ◌==◌, if◌then◌else◌,
}
use multisync.Platform.Hosts.{x86, powerpc}
use multisync.OrderedMap.{find}
use multisync.Stream.{file_at}
use multisync.FileInfo.{FileInfo, count_blocks}
use multisync.FileInfo
use multisync.FileInfo.Order
use multisync.SyncStatus.{SyncStatus, transfer_complete, c_string, suffix}
use multisync.BlockClient.{BlockClient, run}
use multisync.Session.{Offer, IsOffer, count}
use multisync.Session.Receiving.{Datagram, announcement, block, here}
use multisync.Session.Tracking.{Clean}
use multisync.Session.Completion.{Unset}
use multisync.Session.Traffic.{
  Parcel, IsParcel, AllParcels, has_arrived, progress, expected, rounds,
}
use multisync.Session.Traffic.Running.{run-expected, run_completes_each}
use multisync.Examples.{file, name, peer, printed, first_byte}
use multisync.Examples.Network.{
  shared, digest_name, shared-IsOffer, fresh, fresh-Clean, receiver, two_blocks,
}

-- Another server's file, of one block.
abbrev pub other : Offer
other = record { id = 4; digest = replicate 32 b'c' ++ (0 ∷ []); path = b'g' ∷ []; file = 5 ∷ [] }

abbrev pub other_name : Bytes
other_name = replicate 32 b'c'

pub other-IsOffer : IsOffer other other_name
unfolding c_string
other-IsOffer = record {
  digest_size = refl;
  digest_text = refl;
  path-ne = λ e. cc;
  path_size = omega arith;
  file_size = omega arith;
}

other_apart : fresh.tmpnam ++ (other_name ++ suffix) ≢ other.path
other_apart e = omega (arith, ap first_byte e)

other-Clean : Clean other other_name Unset fresh
other-Clean = record { opens = refl; apart = other_apart; bit = refl }

-- The offers, told apart by the first character of their digests.
abbrev pub what : FileInfo → Offer
what f = if first_byte f.digest == b'a' then shared else other

abbrev of_shared : Datagram → Parcel
of_shared d = record { offer = shared; datagram = d; host = x86; from = peer; fresh = fresh }

abbrev of_other : Datagram → Parcel
of_other d = record { offer = other; datagram = d; host = powerpc; from = peer; fresh = fresh }

-- The blocks of one file between those of the other, one of them twice, and no announcement of the
-- other.
abbrev parcels : List Parcel
parcels =
    of_shared (block 1)
    ∷ (of_other (block 0)
        ∷ (of_shared announcement ∷ (of_shared (block 0) ∷ (of_shared (block 1) ∷ []))))

one_block : count other ≡ 1
unfolding count_blocks
one_block = refl

shared-IsParcel : (b : ℕ) → b < count shared → IsParcel powerpc what (of_shared (block b))
shared-IsParcel b h = record {
  name = digest_name;
  offered = shared-IsOffer;
  clean = fresh-Clean;
  within = h;
  told = refl;
}

announced-IsParcel : IsParcel powerpc what (of_shared announcement)
announced-IsParcel = record {
  name = digest_name;
  offered = shared-IsOffer;
  clean = fresh-Clean;
  within = tt;
  told = refl;
}

other-IsParcel : IsParcel powerpc what (of_other (block 0))
other-IsParcel = record {
  name = other_name;
  offered = other-IsOffer;
  clean = other-Clean;
  within = omega (arith, one_block);
  told = refl;
}

parcels-AllParcels : AllParcels powerpc what parcels
parcels-AllParcels = (
  shared-IsParcel 1 (omega (arith, two_blocks)),
  (
    other-IsParcel,
    (
      announced-IsParcel,
      (
        shared-IsParcel 0 (omega (arith, two_blocks)),
        (shared-IsParcel 1 (omega (arith, two_blocks)), tt),
      ),
    ),
  ),
)

run-expected_example :
    (c' : BlockClient) × (run powerpc printed (rounds parcels) receiver ≡ ok c')
    × (progress (find Order.order (here powerpc other) c'.sync_set)
        ≡ expected powerpc other parcels)
run-expected_example =
    run-expected powerpc printed what other parcels receiver parcels-AllParcels refl refl

expected-other : expected powerpc other parcels ≡ some ([], true ∷ [], 0)
unfolding count_blocks FileInfo.less FileInfo.memcmp
expected-other = refl

announced : has_arrived powerpc shared parcels announcement ≡ true
unfolding FileInfo.less FileInfo.memcmp count_blocks
announced = refl

each : (b : ℕ) → b < count shared → has_arrived powerpc shared parcels (block b) ≡ true
unfolding FileInfo.less FileInfo.memcmp count_blocks
each zero h = refl
each (suc zero) h = refl
each (suc (suc b)) h = absurd (omega (arith, two_blocks))

run_completes_each_example :
    (c' : BlockClient) × (s : SyncStatus) × (run powerpc printed (rounds parcels) receiver ≡ ok c')
    × (find Order.order (here powerpc shared) c'.sync_set ≡ some s)
    × ((transfer_complete s c'.disk).0 ≡ true)
    × (file_at name (transfer_complete s c'.disk).2 ≡ some file)
run_completes_each_example =
    run_completes_each powerpc printed what shared digest_name parcels receiver shared-IsOffer
      parcels-AllParcels refl refl announced each
