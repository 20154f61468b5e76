-- ===== src/Session/Packets.antt =====
-- The packets of an offer: they tell their own length and fit a receiver's buffer.
use multisync.Base.{ℕ, ◌+◌, ◌*◌, ◌%◌, ◌^◌, ◌≤◌, ◌<◌, ◌≡◌, refl, Bytes, length, arith}
use multisync.Platform.{Platform}
use multisync.FileInfo.{count_blocks}
use multisync.FileInfo
use multisync.BlockInfo
use multisync.Message.{type_info, type_block, get_packet_length}
use multisync.Message.Packet.{packet}
use multisync.Message.Wire.{get_packet_length-packet, length-packet}
use multisync.SyncStatus.Transfer.{block_of, length-block_of}
use multisync.BlockServer.Blocks.{file_of, file_of-IsValid, block-IsValue}
use multisync.Session.{Offer, IsOffer, count, info_packet, packet_of}

-- A buffer that `operator<<` and `operator>>` take on any host.
pub record Fits (bytes : Bytes) : Type 0 where
  pub at_least : 16 ≤ length bytes
  pub at_most : length bytes ≤ 4112
  pub told : (r : Platform) → get_packet_length r bytes ≡ length bytes

pub packet-Fits :
    (p : Platform) (sender type : ℕ) (metadata body : Bytes)
    → length metadata + length body ≤ 4096
    → Fits (packet p sender type metadata body)
packet-Fits p sender type metadata body h =
    let size = length-packet p p sender type metadata body in
    record {
      at_least = omega (arith, size);
      at_most = omega (arith, size);
      told = λ r.
          get_packet_length-packet p r sender type metadata body (omega arith)
            (omega (arith, size));
    }

-- The number of blocks of a file of at most 4 GiB.
pub count_bounds :
    (o : Offer) {name : Bytes}
    → IsOffer o name
    → (count o ≤ 2 ^ 22)
      × (length o.file ≤ 1024 * count o)
      × (1024 * count o < length o.file + 1024)
unfolding count_blocks
count_bounds o v = ground (arith, v.file_size)

module _ (p : Platform) (o : Offer) {name : Bytes} (v : IsOffer o name) where
  pub file_object : length ((FileInfo.pod p).object (file_of p o.digest (count o))) ≡ 40
  unfolding FileInfo.pod
  file_object =
      FileInfo.length-object p (file_of p o.digest (count o))
        (file_of-IsValid p o.digest (count o) v.digest_size)

  pub file_value :
      ((FileInfo.pod p).IsValue (file_of p o.digest (count o))) × ((FileInfo.pod p).sizeof ≡ 40)
  unfolding FileInfo.pod
  file_value = (file_of-IsValid p o.digest (count o) v.digest_size, refl)

  block_object :
      (b : ℕ)
      → length ((BlockInfo.pod p).object (BlockInfo.construct p (file_of p o.digest (count o)) b))
        ≡ 44
  unfolding BlockInfo.pod
  block_object b =
      BlockInfo.length-object p (BlockInfo.construct p (file_of p o.digest (count o)) b) (
        block-IsValue p (file_of p o.digest (count o)) b
          (file_of-IsValid p o.digest (count o) v.digest_size))

  pub info_packet-Fits : Fits (info_packet p o)
  info_packet-Fits =
      packet-Fits p o.id type_info ((FileInfo.pod p).object (file_of p o.digest (count o))) o.path
        (omega (arith, file_object, v.path_size))

  pub packet_of-Fits : (b : ℕ) → Fits (packet_of p o b)
  packet_of-Fits b =
      packet-Fits p o.id type_block
        ((BlockInfo.pod p).object (BlockInfo.construct p (file_of p o.digest (count o)) b))
        (block_of o.file (b % 2 ^ 22))
        (omega (arith, block_object b, length-block_of o.file (b % 2 ^ 22)))
