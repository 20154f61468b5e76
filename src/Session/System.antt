-- ===== src/Session/System.antt =====
-- The steps of a server and a client, and what holds in every state that they reach.
use multisync.Base.{
  ◌≡◌, sym, ap, subst, ◌∙◌, Bool, true, false, Option, List, [], ◌∷◌, Bytes, ok, ◌⊎◌, inl, inr,
}
use multisync.Platform.{Platform}
use multisync.BlockInfo.{BlockInfo, increment}
use multisync.Message.{Message, for_input, get_type}
use multisync.Socket.{BlockSocket, SocketAddress, Inet, ReceiveReply, receive}
use multisync.BlockServer.{BlockServer, offer_block}
use multisync.BlockServer
use multisync.BlockClient.{BlockClient, find_handler}
use multisync.BlockClient as Client
use multisync.Session.{Offer, IsOffer}
use multisync.Session.Tracking.{Clean}
use multisync.Session.Client.{Hears, nothing, server, foreign, IsSafe, select-IsSafe}
use multisync.Session.Server.{IsOffered, AllSent}
use multisync.Session.Station.{is_serving, IsStation, offers-IsStation, serves-IsStation}

-- `next` is the variable of the server's loop over the blocks.
pub record System : Type 0 where
  pub server : BlockServer
  pub next : BlockInfo
  pub client : BlockClient

abbrev pub IsSent : Bytes → List (SocketAddress × Bytes) → Type 0
IsSent bytes [] = ⊥
IsSent bytes ((to, other) ∷ sent) = (bytes ≡ other) ⊎ IsSent bytes sent

-- What the network lets the client read: nothing, any datagram that the server has ever sent, or
-- one of a type that the client has no handler for.
pub data Reads (q : Platform) (sent : List (SocketAddress × Bytes)) (e : Client.Event)
    (c : BlockClient) : Type 0 where
  none_there : e.readable ≡ false → Reads q sent e c
  delivered :
      (a : SocketAddress) (bytes : Bytes)
      → IsSent bytes sent
      → e.received ≡ ReceiveReply.datagram a bytes
      → Reads q sent e c
  unknown :
      (m : Message) (s : BlockSocket)
      → receive q e.received (for_input q 4096) c.socket ≡ ok (m, s)
      → find_handler (get_type q m) ≡ Option.none
      → Reads q sent e c

-- A round of the server in its first loop, one in its second, or one of the client. The requests
-- that reach the server are any bytes whatever.
pub data Step (p q : Platform) (inet : Inet) (o : Offer) (name : Bytes) (P : Bool → Type 0)
    (s t : System) : Type 0 where
  offers :
      (e : BlockServer.Event) (s₁ s₂ : BlockServer)
      → is_serving p s.server s.next ≡ true
      → offer_block p s.next s.server ≡ ok s₁
      → BlockServer.select p e s₁ ≡ ok s₂
      → t ≡ record s { server = s₂; next = increment p s.next }
      → Step p q inet o name P s t
  serves :
      (e : BlockServer.Event) (s₁ : BlockServer)
      → is_serving p s.server s.next ≡ false
      → BlockServer.select p e s.server ≡ ok s₁
      → t ≡ record s { server = s₁ }
      → Step p q inet o name P s t
  listens :
      (e : Client.Event) (c : BlockClient)
      → Clean o name P e.fresh
      → Reads q s.server.socket.sent e s.client
      → Client.select q inet e s.client ≡ ok c
      → t ≡ record s { client = c }
      → Step p q inet o name P s t

pub data Reach (p q : Platform) (inet : Inet) (o : Offer) (name : Bytes) (P : Bool → Type 0)
    (s : System) : System → Type 0 where
  here : Reach p q inet o name P s s
  then :
      {t u : System}
      → Reach p q inet o name P s t
      → Step p q inet o name P t u
      → Reach p q inet o name P s u

-- What every step keeps.
pub record Invariant (p q : Platform) (o : Offer) (P : Bool → Type 0) (old : Option Bytes)
    (s : System) : Type 0 where
  pub station : IsStation p o s.server s.next
  pub safe : IsSafe q o P old s.client

pub sent-IsOffered :
    (p : Platform) (o : Offer) (bytes : Bytes) (sent : List (SocketAddress × Bytes))
    → AllSent p o sent
    → IsSent bytes sent
    → IsOffered p o bytes
sent-IsOffered p o bytes [] all m = absurd m
sent-IsOffered p o bytes ((to, other) ∷ sent) (h, hs) (inl e) = (h.0, h.1, e ∙ h.2)
sent-IsOffered p o bytes ((to, other) ∷ sent) (h, hs) (inr m) = sent-IsOffered p o bytes sent hs m

Reads-Hears :
    (p q : Platform) (o : Offer) (sent : List (SocketAddress × Bytes)) (e : Client.Event)
    (c : BlockClient)
    → AllSent p o sent
    → Reads q sent e c
    → Hears p q o e c
Reads-Hears p q o sent e c all (none_there h) = nothing h
Reads-Hears p q o sent e c all (delivered a bytes m r) =
    let (d, h, same) = sent-IsOffered p o bytes sent all m in
    server a d h (r ∙ ap (ReceiveReply.datagram a) same)
Reads-Hears p q o sent e c all (unknown m s r h) = foreign m s r h

module _ (p q : Platform) (inet : Inet) (o : Offer) {name : Bytes} (v : IsOffer o name)
    (P : Bool → Type 0) (old : Option Bytes) where
  pub Step-Invariant :
      (s t : System)
      → Invariant p q o P old s
      → Step p q inet o name P s t
      → Invariant p q o P old t
  Step-Invariant s t i (offers e s₁ s₂ more off sel same) =
      subst (Invariant p q o P old) (sym same) (record {
        station = offers-IsStation p o v e s.server s₁ s₂ s.next i.station more off sel;
        safe = i.safe;
      })
  Step-Invariant s t i (serves e s₁ over sel same) =
      subst (Invariant p q o P old) (sym same) (record {
        station = serves-IsStation p o v e s.server s₁ s.next i.station sel;
        safe = i.safe;
      })
  Step-Invariant s t i (listens e c clean reads sel same) =
      subst (Invariant p q o P old) (sym same) (record {
        station = i.station;
        safe =
            select-IsSafe p q o v P inet old e s.client c clean
              (Reads-Hears p q o s.server.socket.sent e s.client i.station.keeps.sent reads) i.safe
              sel;
      })

  pub Reach-Invariant :
      {s t : System}
      → Invariant p q o P old s
      → Reach p q inet o name P s t
      → Invariant p q o P old t
  Reach-Invariant i here = i
  Reach-Invariant i (then r st) = Step-Invariant _ _ (Reach-Invariant i r) st
