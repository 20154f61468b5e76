-- ===== src/BlockServer/Hosts.antt =====
-- The requests of clients: who joins and leaves, and the two requests that the server cannot serve.
use multisync.Base.{
  ℕ, ◌+◌, ◌^◌, ◌<◌, ◌≡◌, ◌≢◌, refl, sym, ap, ◌∙◌, [], length, ok, throw, some, ◌>>=◌, >>=-eq-ok,
  arith, Option-cases, inl, inr, header_size_mismatch,
}
use multisync.Platform.{Platform}
use multisync.Platform.Memory.{Pod}
use multisync.OrderedMap.{find, IsSorted}
use multisync.OrderedMap
use multisync.OrderedMap.Laws.{find-insert_new, find-insert_old, find-insert_ne, insert-IsSorted}
use multisync.HostInfo.{HostInfo}
use multisync.HostInfo
use multisync.BlockInfo
use multisync.Message.{
  Message, header_offset, get_metadata, of_metadata, empty, type_chello, type_cgoodbye,
}
use multisync.Message.Packet.{of_metadata-packet, empty-packet}
use multisync.Message.Wire.{get_metadata-packet, get_metadata-packet_mismatch}
use multisync.BlockServer.{BlockServer, handle_chello, handle_getblock, handle_cgoodbye}

metadata_size :
    (p : Platform) {M : Type 0} (pod : Pod M) (m : Message) (x : M)
    → get_metadata p pod m ≡ ok x
    → p.ntohs (header_offset p m.buffer) ≡ 16 + pod.sizeof
unfolding get_metadata
metadata_size p pod m x e = ground arith

sizes : (p : Platform) → ((HostInfo.pod p).sizeof ≡ 4) × ((BlockInfo.pod p).sizeof ≡ 44)
unfolding HostInfo.pod BlockInfo.pod
sizes p = (refl, refl)

-- No message whatever makes `handle_getblock` return, in any state of the server.
pub handle_getblock-fails :
    (p : Platform) (m : Message) (s s' : BlockServer) → handle_getblock p m s ≢ ok s'
unfolding handle_getblock
handle_getblock-fails p m s s' e =
    let (host, e₁, rest) = >>=-eq-ok (get_metadata p (HostInfo.pod p) m) _ e in
    let (block, e₂, last) = >>=-eq-ok (get_metadata p (BlockInfo.pod p) m) _ rest in
    absurd (
      omega (
        arith,
        metadata_size p (HostInfo.pod p) m host e₁,
        metadata_size p (BlockInfo.pod p) m block e₂,
        sizes p,
      ))

-- The goodbye of a client, on any host, has no metadata: `handle_cgoodbye` throws at it, whatever
-- the server's state.
pub handle_cgoodbye-throws :
    (p q : Platform) (id : ℕ) (m : Message) (s : BlockServer)
    → m.buffer ≡ (empty q id type_cgoodbye).buffer
    → handle_cgoodbye p m s ≡ throw header_size_mismatch
unfolding handle_cgoodbye
handle_cgoodbye-throws p q id m s e =
    ap (λ r. r >>= λ i. ok (record s { host_info = OrderedMap.erase HostInfo.order i s.host_info }))
      (get_metadata-packet_mismatch q p id type_cgoodbye [] [] m
        (e ∙ empty-packet q id type_cgoodbye) (HostInfo.pod p)
        (λ k. absurd (omega (arith, sizes p))) (omega arith))

-- The hello of a client with process id `pid`, on any host, returns from `handle_chello` and puts
-- that host into the server's set, which is in its order before: it is found there afterwards, any
-- other host is found as before, and the set stays in its order.
pub handle_chello-joins :
    (p q : Platform) (sender pid other : ℕ) (m : Message) (s : BlockServer)
    → pid < 2 ^ 32
    → other < 2 ^ 32
    → pid ≢ other
    → IsSorted HostInfo.order s.host_info
    → m.buffer
      ≡ (of_metadata q (HostInfo.pod q) sender type_chello (HostInfo.construct q pid)).buffer
    → (s' : BlockServer) × (handle_chello p m s ≡ ok s')
      × (find HostInfo.order (HostInfo.construct p pid) s'.host_info ≡ some tt)
      × (find HostInfo.order (HostInfo.construct p other) s'.host_info
          ≡ find HostInfo.order (HostInfo.construct p other) s.host_info)
      × IsSorted HostInfo.order s'.host_info
unfolding handle_chello
handle_chello-joins p q sender pid other m s h ho ne sorted e =
    let host = HostInfo.construct p pid in
    let object = (HostInfo.pod q).object (HostInfo.construct q pid) in
    let size : length object ≡ 4 =
      (HostInfo.pod q).length-object (HostInfo.construct q pid) (HostInfo.construct-IsValue q pid)
      ∙ (sizes q).0 in
    let buffer =
      e
      ∙ of_metadata-packet q (HostInfo.pod q) sender type_chello (HostInfo.construct q pid)
          (HostInfo.construct-IsValue q pid) (omega (arith, sizes q)) in
    let read : get_metadata p (HostInfo.pod p) m ≡ ok host =
      get_metadata-packet q p sender type_chello object [] m buffer (HostInfo.pod p)
        (size ∙ sym (sizes p).0) (omega arith)
      ∙ ap ok (HostInfo.value_wire q p pid [] h) in
    (
      record s { host_info = OrderedMap.insert HostInfo.order host tt s.host_info },
      ap
          (λ r. r >>= λ i.
            ok (record s { host_info = OrderedMap.insert HostInfo.order i tt s.host_info }))
          read,
      found host s.host_info,
      find-insert_ne HostInfo.order host (HostInfo.construct p other) tt s.host_info
          (λ k. ne (HostInfo.construct-injective p pid other h ho k)),
      insert-IsSorted HostInfo.order host tt s.host_info sorted,
    )
  where
    found :
        (host : HostInfo) (hosts : OrderedMap.OrderedMap HostInfo (Unit {0}))
        → find HostInfo.order host (OrderedMap.insert HostInfo.order host tt hosts) ≡ some tt
    found host hosts = elim (Option-cases (find HostInfo.order host hosts)) [
      | inl missing ↦ find-insert_new HostInfo.order host tt hosts missing
      | inr (tt, there) ↦ find-insert_old HostInfo.order host tt tt hosts there
    ]
