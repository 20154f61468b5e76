-- ===== src/Session/Receiving.antt =====
-- What a client does with one datagram of the server.
use multisync.Base.{
  ℕ, ◌%◌, ◌^◌, ◌<◌, ◌≡◌, ◌≢◌, refl, sym, ap, ap₂, subst, ◌∙◌, true, some, [], Bytes, length,
  get_elem?, set, arith, Result, ok, ◌>>=◌, ◌⊎◌, inr,
}
use multisync.Platform.{Platform}
use multisync.FileInfo.{FileInfo}
use multisync.FileInfo
use multisync.BlockInfo
use multisync.BlockInfo.{get_file_info, to_unsigned}
use multisync.Message.{Message, get_metadata, get_text, get_type, type_info, type_block}
use multisync.Message.Wire.{get_type-packet, get_text-packet, get_metadata-packet}
use multisync.Socket.{Address}
use multisync.SyncStatus.{SyncStatus, Fresh, write_block, store_block, set_path}
use multisync.SyncStatus.Progress.{IsValid}
use multisync.SyncStatus.Transfer.{Holds, block_of}
use multisync.SyncStatus.Arrival.{delivered, Keeps}
use multisync.BlockServer.Blocks.{file_of, block_metadata, to_unsigned-construct}
use multisync.BlockClient.{
  BlockClient, Handler, find_handler, get_sync_status, finish, handle_info, handle_block, dispatch,
}
use multisync.Session.{Offer, IsOffer, count, info_packet, packet_of}
use multisync.Session.Packets.{count_bounds, file_value, file_object}

-- The datagrams of the server, by what they carry.
pub data Datagram : Type 0 where
  announcement : Datagram
  block : ℕ → Datagram

abbrev pub bytes_of : Platform → Offer → Datagram → Bytes
bytes_of p o announcement = info_packet p o
bytes_of p o (block b) = packet_of p o b

-- A block has a number of the file.
abbrev pub IsOf : Offer → Datagram → Type 0
IsOf o announcement = Unit {0}
IsOf o (block b) = b < count o

-- The file as the client knows it.
abbrev pub here : Platform → Offer → FileInfo
here q o = file_of q o.digest (count o)

-- What the datagram does to the status of the file.
abbrev pub update : Platform → Offer → Datagram → Message → SyncStatus → Result SyncStatus
update q o announcement m s = ok (set_path o.path s)
update q o (block b) m s = write_block q b m s

-- A status of the file that agrees with the file as far as it goes.
pub record Follows (o : Offer) (s : SyncStatus) : Type 0 where
  pub holds : Holds o.file s
  pub valid : IsValid s
  pub sized : length s.block_array ≡ count o
  pub named : (s.path ≡ []) ⊎ (s.path ≡ o.path)
  pub apart : s.temp ≢ o.path

-- The status has taken the datagram in.
abbrev pub Knows : Offer → Datagram → SyncStatus → Type 0
Knows o announcement s = s.path ≡ o.path
Knows o (block b) s = get_elem? s.block_array b ≡ some true

find_info : find_handler type_info ≡ some Handler.info
unfolding find_handler
find_info = refl

find_block : find_handler type_block ≡ some Handler.block
unfolding find_handler
find_block = refl

info_file :
    (q : Platform) (o : Offer) (b : ℕ)
    → get_file_info (BlockInfo.construct q (here q o) b) ≡ here q o
unfolding get_file_info BlockInfo.construct
info_file q o b = refl

module _ (p q : Platform) (o : Offer) {name : Bytes} (v : IsOffer o name) (fresh : Fresh)
    (a : Address) (m : Message) (c : BlockClient) where
  abbrev handled : Datagram → Result BlockClient
  handled d = get_sync_status q fresh (here q o) a c >>= λ x.
      update q o d m x.0 >>= λ s'. ok (finish (here q o) s' x.1)

  info_handled : m.buffer ≡ info_packet p o → handle_info q fresh m a c ≡ handled announcement
  unfolding handle_info
  info_handled e =
      let count-lt : count o < 2 ^ 32 = omega (arith, count_bounds o v) in
      let object = (FileInfo.pod p).object (file_of p o.digest (count o)) in
      let told : get_metadata q (FileInfo.pod q) m ≡ ok (here q o) =
        get_metadata-packet p q o.id type_info object o.path m e (FileInfo.pod q)
          (file_object p o v ∙ sym (file_value q o v).1) (omega (arith, file_object p o v))
        ∙ ap ok (FileInfo.value_raw p q o.digest (count o) o.path v.digest_size count-lt) in
      let text : get_text q m ≡ ok o.path =
        get_text-packet p q o.id type_info object o.path m e (omega (arith, file_object p o v)) in
      ap
        (λ r. r >>= λ f. get_sync_status q fresh f a c >>= λ x.
          get_text q m >>= λ t. ok (finish f (set_path t x.0) x.1))
        told
      ∙ ap
          (λ r. get_sync_status q fresh (here q o) a c >>= λ x.
            r >>= λ t. ok (finish (here q o) (set_path t x.0) x.1))
          text

  block-handled :
      (b : ℕ)
      → b < count o
      → m.buffer ≡ packet_of p o b
      → handle_block q fresh m a c ≡ handled (block b)
  unfolding handle_block
  block-handled b h e =
      let bounds = count_bounds o v in
      let i = BlockInfo.construct q (here q o) b in
      let told =
        (block_metadata p q o.digest (count o) b o.id o.file m v.digest_size (omega (arith, bounds))
          (omega (arith, bounds)) e).0 in
      ap
        (λ r. r >>= λ j. get_sync_status q fresh (get_file_info j) a c >>= λ x.
          write_block q (to_unsigned q j) m x.0 >>= λ s'. ok (finish (get_file_info j) s' x.1))
        told
      ∙ ap₂
          (λ f n. get_sync_status q fresh f a c >>= λ x.
            write_block q n m x.0 >>= λ s'. ok (finish f s' x.1))
          (info_file q o b) (to_unsigned-construct q (here q o) b (omega (arith, bounds)))

  -- A datagram of the server is dispatched to the handler that updates the file's status.
  pub dispatch-handled :
      (d : Datagram)
      → IsOf o d
      → m.buffer ≡ bytes_of p o d
      → dispatch q (find_handler (get_type q m)) fresh m a c ≡ handled d
  unfolding dispatch
  dispatch-handled announcement h e =
      ap (λ t. dispatch q (find_handler t) fresh m a c)
        (get_type-packet p q o.id type_info _ o.path m e (omega arith))
      ∙ ap (λ f. dispatch q f fresh m a c) find_info
      ∙ info_handled e
  dispatch-handled (block b) h e =
      ap (λ t. dispatch q (find_handler t) fresh m a c)
        (get_type-packet p q o.id type_block _ _ m e (omega arith))
      ∙ ap (λ f. dispatch q f fresh m a c) find_block
      ∙ block-handled b h e

-- What the datagram changes of the path, the marks and the temporary name.
abbrev pub Takes : Offer → Datagram → SyncStatus → SyncStatus → Type 0
Takes o announcement s s' =
    (s'.path ≡ o.path) × (s'.block_array ≡ s.block_array) × (s'.temp ≡ s.temp)
Takes o (block b) s s' =
    (s'.path ≡ s.path) × (s'.block_array ≡ set s.block_array b true) × (s'.temp ≡ s.temp)

-- The update keeps a status that follows the file, takes the datagram in and forgets nothing.
abbrev pub Updated : Platform → Offer → Datagram → Message → SyncStatus → Type 0
Updated q o d m s =
    (s' : SyncStatus) × (update q o d m s ≡ ok s')
    × Follows o s'
    × Knows o d s'
    × ((d' : Datagram) → Knows o d' s → Knows o d' s')
    × (s'.goodbye_received ≡ s.goodbye_received)
    × Takes o d s s'

set_path_lem :
    (path : Bytes) (s : SyncStatus) → ok (set_path path s) ≡ ok (record s { path = path })
unfolding set_path
set_path_lem path s = refl

renamed : (o : Offer) (s : SyncStatus) → Follows o s → Follows o (record s { path = o.path })
renamed o s w = record {
  holds = record {
    is_open = w.holds.is_open;
    works = w.holds.works;
    within = w.holds.within;
    reaches = w.holds.reaches;
    agrees = w.holds.agrees;
  };
  valid = record { counted = w.valid.counted; block_count-lt = w.valid.block_count-lt };
  sized = w.sized;
  named = inr refl;
  apart = w.apart;
}

named_keeps :
    (o : Offer) (s : SyncStatus) (d : Datagram)
    → Knows o d s
    → Knows o d (record s { path = o.path })
named_keeps o s announcement k = refl
named_keeps o s (block b) k = k

block-Keeps :
    (o : Offer) (s s' : SyncStatus)
    → s'.path ≡ s.path
    → Keeps s.block_array s'.block_array
    → (d : Datagram) → Knows o d s
    → Knows o d s'
block-Keeps o s s' e kept announcement k = e ∙ k
block-Keeps o s s' e kept (block b) k = kept b k

write_block_goodbye :
    (q : Platform) (b : ℕ) (m : Message) (s s' : SyncStatus)
    → write_block q b m s ≡ ok s'
    → s'.goodbye_received ≡ s.goodbye_received
unfolding write_block store_block
write_block_goodbye q b m s s' e = ground arith

pub updated :
    (p q : Platform) (o : Offer) {name : Bytes} (v : IsOffer o name) (d : Datagram) (m : Message)
    (s : SyncStatus)
    → IsOf o d
    → m.buffer ≡ bytes_of p o d
    → Follows o s
    → Updated q o d m s
updated p q o v announcement m s h e w = (
  record s { path = o.path },
  set_path_lem o.path s,
  renamed o s w,
  refl,
  named_keeps o s,
  refl,
  (refl, refl, refl),
)
updated p q o v (block b) m s h e w =
    let bounds = count_bounds o v in
    let text =
      (block_metadata p q o.digest (count o) b o.id o.file m v.digest_size (omega (arith, bounds))
        (omega (arith, bounds)) e).1
      ∙ ap (λ n. ok (block_of o.file n)) {x = b % 2 ^ 22} {y = b} (omega (arith, bounds)) in
    let (s', r, hold, valid, len, path, temp, marked, kept, marks) =
      delivered q o.file b m s w.holds w.valid (omega (arith, bounds)) (omega (arith, w.sized))
        text in
    (
      s',
      r,
      record {
        holds = hold;
        valid = valid;
        sized = len ∙ w.sized;
        named = subst (λ n. (n ≡ []) ⊎ (n ≡ o.path)) (sym path) w.named;
        apart = λ t. w.apart (sym temp ∙ t);
      },
      marked,
      block-Keeps o s s' path kept,
      write_block_goodbye q b m s s' r,
      (path, marks, temp),
    )
