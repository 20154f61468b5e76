-- ===== src/BlockInfo.antt =====
-- src/blockinfo.cpp and include/blockinfo.hpp: which block of which file a message carries.
use multisync.Base.{
  ℕ, ◌+◌, ◌%◌, ◌^◌, ◌<◌, ◌≡◌, ap, ◌∙◌, Bool, ◌&&◌, Bytes, length, ◌∷◌, ◌==◌, ◌++◌, arith,
  length-append,
}
use mathlib.Core.List.{append_assoc}
use multisync.Platform.{Platform, store32}
use multisync.Platform.Memory.{Pod, load32, drop_at}
use multisync.Platform.Words.{wire32, raw_wire32, ntohl-htonl}
use multisync.FileInfo
use multisync.FileInfo.{FileInfo, get_block_count}

-- `block_num` is the field as it lies in memory.
pub record BlockInfo : Type 0 where
  pub file_info : FileInfo
  pub block_num : ℕ

unfoldable pub construct : Platform → FileInfo → ℕ → BlockInfo
construct p info block = record { file_info = info; block_num = p.htonl block }

unfoldable pub equal : BlockInfo → BlockInfo → Bool
equal b other = FileInfo.equal b.file_info other.file_info && (b.block_num == other.block_num)

-- `operator++(int)`.
unfoldable pub increment : Platform → BlockInfo → BlockInfo
increment p b = record b { block_num = p.htonl ((p.ntohl b.block_num + 1) % 2 ^ 32) }

-- `operator unsigned int`.
unfoldable pub to_unsigned : Platform → BlockInfo → ℕ
to_unsigned p b = p.ntohl b.block_num

unfoldable pub get_block : Platform → BlockInfo → ℕ
get_block p b = p.ntohl b.block_num

unfoldable pub get_file_info : BlockInfo → FileInfo
get_file_info b = b.file_info

pub record IsValid (b : BlockInfo) : Type 0 where
  pub file_info : FileInfo.IsValid b.file_info
  pub block_num-lt : b.block_num < 2 ^ 32

abbrev pub object : Platform → BlockInfo → Bytes
object p b = FileInfo.object p b.file_info ++ store32 p.endian b.block_num

pub length-object : (p : Platform) (b : BlockInfo) → IsValid b → length (object p b) ≡ 44
length-object p b v = omega (
  arith,
  FileInfo.length-object p b.file_info v.file_info,
  length-append (FileInfo.object p b.file_info) (store32 p.endian b.block_num),
)

unfoldable pub pod : Platform → Pod BlockInfo
pod p = record {
  sizeof = 44;
  object = object p;
  value = λ bs. record { file_info = (FileInfo.pod p).value bs; block_num = load32 p.endian bs 40 };
  IsValue = IsValid;
  length-object = length-object p;
}

-- `i++` after any block but the last possible one gives the next block of the same file.
pub get_block-increment :
    (p : Platform) (info : FileInfo) (i : ℕ)
    → i + 1 < 2 ^ 32
    → increment p (construct p info i) ≡ construct p info (i + 1)
unfolding increment construct
get_block-increment p info i h =
    ap (λ n. record { file_info = info; block_num = p.htonl n })
      (ap (λ n. (n + 1) % 2 ^ 32) (ntohl-htonl p i (omega arith)) ∙ omega arith)

-- Written by one host, a block's identity is the same on every other: the digest and block count
-- of its file, and its number.
pub value_wire :
    (p q : Platform) (digest : Bytes) (count block : ℕ) (rest : Bytes)
    → length digest ≡ 33
    → count < 2 ^ 32
    → block < 2 ^ 32
    → let sent : FileInfo = record { digest = digest; num_blocks = p.htonl count } in
      let b : BlockInfo = (pod q).value ((pod p).object (construct p sent block) ++ rest) in
      (FileInfo.get_digest (get_file_info b) ≡ digest)
      × (get_block_count q (get_file_info b) ≡ count)
      × (get_block q b ≡ block)
unfolding pod construct get_file_info get_block FileInfo.pod
value_wire p q digest count block rest hd hc hb =
    let info : FileInfo = record { digest = digest; num_blocks = p.htonl count } in
    let word : Bytes = store32 p.endian (p.htonl block) in
    let file = FileInfo.value_wire p q digest count (word ++ rest) hd hc in
    rw (append_assoc (FileInfo.object p info) word rest) (
      file.0,
      file.1,
      ap (λ w. q.ntohl (load32 q.endian w 0))
            (drop_at 40 (FileInfo.object p info) (word ++ rest) (
              omega
                (arith, hd, length-append digest (0 ∷ 0 ∷ 0 ∷ store32 p.endian (p.htonl count)))))
          ∙ wire32 p q block hb,
    )

-- It is the object that the other host makes of the same file and number.
pub value_raw :
    (p q : Platform) (digest : Bytes) (count block : ℕ) (rest : Bytes)
    → length digest ≡ 33
    → count < 2 ^ 32
    → block < 2 ^ 32
    → let sent : FileInfo = record { digest = digest; num_blocks = p.htonl count } in
      let here : FileInfo = record { digest = digest; num_blocks = q.htonl count } in
      (pod q).value ((pod p).object (construct p sent block) ++ rest) ≡ construct q here block
unfolding pod construct FileInfo.pod
value_raw p q digest count block rest hd hc hb =
    let info : FileInfo = record { digest = digest; num_blocks = p.htonl count } in
    let word : Bytes = store32 p.endian (p.htonl block) in
    rw (append_assoc (FileInfo.object p info) word rest) (λ i. record {
      file_info = FileInfo.value_raw p q digest count (word ++ rest) hd hc i;
      block_num =
          (ap (λ w. load32 q.endian w 0)
                (drop_at 40 (FileInfo.object p info) (word ++ rest) (
                  omega (
                    arith,
                    hd,
                    length-append digest (0 ∷ 0 ∷ 0 ∷ store32 p.endian (p.htonl count)),
                  )))
              ∙ raw_wire32 p q block hb)
            i;
    })
