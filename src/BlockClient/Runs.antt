-- ===== src/BlockClient/Runs.antt =====
-- The client from its start on, whatever datagrams reach it.
use multisync.Base.{ℕ, ◌≡◌, refl, sym, subst, List, [], ◌∷◌, Bytes, ok, >>=-eq-ok, ok-injective}
use multisync.Platform.{Platform}
use multisync.OrderedMap.{IsSorted}
use multisync.OrderedMap.Values.{AllValues}
use multisync.Stream.{Disk}
use multisync.FileInfo.Order
use multisync.Message.{for_input, get_type}
use multisync.Socket.{
  SocketAddress, Inet, OpenReply, ReceiveReply, SendReply, receive, select_status, get_address,
  open_socket,
}
use multisync.Socket
use multisync.SyncStatus.Progress.{IsValid}
use multisync.BlockClient.{
  BlockClient, Event, find_handler, process_message, select, run, construct, start,
}
use multisync.BlockClient.Rounds.{select_keeps}
use multisync.BlockClient.Invariant.{IsInvariant, dispatch-IsInvariant}

-- The invariant is one of the map alone.
same_map : (c c' : BlockClient) → c'.sync_set ≡ c.sync_set → IsInvariant c → IsInvariant c'
same_map c c' e i = record {
  sorted = subst (IsSorted Order.order) (sym e) i.sorted;
  valid = subst (AllValues IsValid) (sym e) i.valid;
}

module _ (q : Platform) (inet : Inet) where
  process_message-IsInvariant :
      (e : Event) (c c' : BlockClient)
      → IsInvariant c
      → process_message q inet e c ≡ ok c'
      → IsInvariant c'
  unfolding process_message
  process_message-IsInvariant e c c' i r =
      let (got, r₁, r₂) = >>=-eq-ok (receive q e.received (for_input q 4096) c.socket) _ r in
      let c₁ : BlockClient = record c { socket = got.1 } in
      dispatch-IsInvariant q e.fresh got.0 (get_address q inet got.1) c₁ c' (same_map c c₁ refl i)
        (find_handler (get_type q got.0)) r₂

  select-IsInvariant :
      (e : Event) (c c' : BlockClient) → IsInvariant c → select q inet e c ≡ ok c' → IsInvariant c'
  select-IsInvariant e c c' i r =
      select_keeps q inet IsInvariant (λ c c' set disk. same_map c c' set) e c i
        (λ readable c₁ done. process_message-IsInvariant e c c₁ i done) c' r

  run-IsInvariant :
      (events : List Event) (c c' : BlockClient)
      → IsInvariant c
      → run q inet events c ≡ ok c'
      → IsInvariant c'
  unfolding run
  run-IsInvariant [] c c' i r = subst IsInvariant (ok-injective r) i
  run-IsInvariant (e ∷ events) c c' i r =
      let (c₁, r₁, r₂) = >>=-eq-ok (select q inet e c) _ r in
      run-IsInvariant events c₁ c' (select-IsInvariant e c c₁ i r₁) r₂

-- Whatever datagrams reach a client after its start, from whomever, as long as its rounds return:
-- the files that it knows stand in the order of `operator<`, each once, and each status counts
-- exactly the blocks that it has not marked, fewer than 2^32.
pub start-IsInvariant :
    (q : Platform) (inet : Inet) (group : Bytes) (port pid junk : ℕ) (unset : SocketAddress)
    (disk : Disk) (opened : OpenReply) (events : List Event) (c : BlockClient)
    → start q inet opened events (construct q inet group port pid junk unset disk) ≡ ok c
    → IsInvariant c
unfolding start construct
start-IsInvariant q inet group port pid junk unset disk opened events c e =
    let (opens, e₁, e₂) =
      >>=-eq-ok (open_socket opened (Socket.construct q inet group port unset)).0 _ e in
    run-IsInvariant q inet events _ c (record { sorted = tt; valid = tt }) e₂
