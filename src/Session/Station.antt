-- ===== src/Session/Station.antt =====
-- A server in its rounds: it stands before a block of its file.
use multisync.Base.{
  ℕ, ◌+◌, ◌≤◌, ◌<◌, ◌≡◌, refl, sym, ap, ap₂, subst, ◌∙◌, Bool, true, some, Bytes, ltb, arith, ok,
  ltb→lt,
}
use multisync.Platform.{Platform}
use multisync.FileInfo.{get_block_count}
use multisync.BlockInfo.{BlockInfo, increment, to_unsigned, get_block-increment}
use multisync.BlockInfo
use multisync.Socket.{SocketAddress, Inet, OpenReply, set_address}
use multisync.Socket
use multisync.BlockServer.{BlockServer, Event, offer_block, select}
use multisync.BlockServer
use multisync.BlockServer.Blocks.{file_of, to_unsigned-construct}
use multisync.Session.{Offer, IsOffer, count}
use multisync.Session.Packets.{count_bounds}
use multisync.Session.Sending.{file_of-count}
use multisync.Session.Starting.{started, offer, open_sent, construct-Serves, announcement_packet}
use multisync.Session.Receiving.{Datagram}
use multisync.Session.Server.{AllSent, Keeps}
use multisync.Session.Rounds.{select-Keeps, offer_block-Keeps}

-- The condition of the loop over the blocks, whose variable is `next`.
abbrev pub is_serving : Platform → BlockServer → BlockInfo → Bool
is_serving p s next = ltb (to_unsigned p next) (get_block_count p s.file_info)

-- What every round keeps.
pub record IsStation (p : Platform) (o : Offer) (s : BlockServer) (next : BlockInfo) : Type 0 where
  pub at : ℕ
  pub stands : next ≡ BlockInfo.construct p (file_of p o.digest (count o)) at
  pub within : at ≤ count o
  pub keeps : Keeps p o at s

module _ (p : Platform) (o : Offer) {name : Bytes} (v : IsOffer o name) where
  pub serving_at :
      (s : BlockServer) (next : BlockInfo) (i : IsStation p o s next)
      → is_serving p s next ≡ ltb i.at (count o)
  serving_at s next i =
      let bounds = count_bounds o v in
      ap₂ ltb
        (ap (to_unsigned p) i.stands
          ∙ to_unsigned-construct p (file_of p o.digest (count o)) i.at
              (omega (arith, bounds, i.within)))
        (ap (get_block_count p) i.keeps.serves.info
          ∙ file_of-count p o.digest (count o) (omega (arith, bounds)))

  -- A round of the first loop.
  pub offers-IsStation :
      (e : Event) (s s₁ s₂ : BlockServer) (next : BlockInfo)
      → IsStation p o s next
      → is_serving p s next ≡ true
      → offer_block p next s ≡ ok s₁
      → select p e s₁ ≡ ok s₂
      → IsStation p o s₂ (increment p next)
  offers-IsStation e s s₁ s₂ next i more off sel =
      let below : i.at < count o = ltb→lt i.at (count o) (sym (serving_at s next i) ∙ more) in
      record {
        at = i.at + 1;
        stands =
            ap (increment p) i.stands
            ∙ get_block-increment p (file_of p o.digest (count o)) i.at
                (omega (arith, count_bounds o v));
        within = omega arith;
        keeps =
            select-Keeps p o v (i.at + 1) e s₁ s₂
              (offer_block-Keeps p o v i.at s s₁ below i.keeps
                (ap (λ n. offer_block p n s) (sym i.stands) ∙ off))
              sel;
      }

  -- A round of the second.
  pub serves-IsStation :
      (e : Event) (s s₁ : BlockServer) (next : BlockInfo)
      → IsStation p o s next
      → select p e s ≡ ok s₁
      → IsStation p o s₁ next
  serves-IsStation e s s₁ next i sel = record {
    at = i.at;
    stands = i.stands;
    within = i.within;
    keeps = select-Keeps p o v i.at e s s₁ i.keeps sel;
  }

-- A server that is constructed for the offer, once `start` has opened its socket and queued the
-- announcement.
pub started-Keeps :
    (p : Platform) (inet : Inet) (hex_digest : Bytes → Bytes) (file path group : Bytes)
    (port random : ℕ) (unset : SocketAddress) (opened : OpenReply) {name : Bytes}
    → IsOffer (offer hex_digest file path random) name
    → let s = BlockServer.construct p inet hex_digest (some file) path group port random unset in
      Keeps p (offer hex_digest file path random) 0 (started p opened s)
unfolding BlockServer.construct set_address Socket.construct
started-Keeps p inet hex_digest file path group port random unset opened v =
    let o = offer hex_digest file path random in
    let s = BlockServer.construct p inet hex_digest (some file) path group port random unset in
    let serving = construct-Serves p inet hex_digest file path group port random unset in
    record {
      serves = record {
        info = serving.info;
        contents = serving.contents;
        bad = serving.bad;
        good = serving.good;
        named = serving.named;
      };
      path = refl;
      queued = ((Datagram.announcement, tt, announcement_packet p o s v serving refl), tt);
      sent = subst (AllSent p o) (sym (open_sent opened s.socket)) tt;
    }

pub started-IsStation :
    (p : Platform) (inet : Inet) (hex_digest : Bytes → Bytes) (file path group : Bytes)
    (port random : ℕ) (unset : SocketAddress) (opened : OpenReply) {name : Bytes}
    → IsOffer (offer hex_digest file path random) name
    → let s = BlockServer.construct p inet hex_digest (some file) path group port random unset in
      IsStation p
        (offer hex_digest file path random)
        (started p opened s)
        (BlockInfo.construct p s.file_info 0)
started-IsStation p inet hex_digest file path group port random unset opened v =
    let serving = construct-Serves p inet hex_digest file path group port random unset in
    record {
      at = 0;
      stands = ap (λ f. BlockInfo.construct p f 0) serving.info;
      within = omega arith;
      keeps = started-Keeps p inet hex_digest file path group port random unset opened v;
    }
