-- ===== src/Socket/Polling.antt =====
-- `select`, the life of the descriptor, and the addresses of a socket.
use multisync.Base.{
  ℕ, ◌+◌, ◌^◌, ◌<◌, ◌≡◌, refl, Bool, true, false, ◌&&◌, none, some, ◌∷◌, if◌then◌else◌, arith, ok,
}
use multisync.Platform.{Platform}
use multisync.Platform.Words.{htons-ntohs}
use multisync.Socket.{
  BlockSocket, Inet, Status, read, write, both, none_ready, positive, select_status, OpenReply,
  open_socket, close, destroy, get_address, set_address,
}

abbrev pub bit : Bool → ℕ
bit b = if b then 1 else 0

-- What a status lets the callers do.
abbrev pub can_read : Status → Bool
can_read read = true
can_read write = false
can_read both = true
can_read none_ready = false

abbrev pub can_write : Status → Bool
can_write read = false
can_write write = true
can_write both = true
can_write none_ready = false

-- Where `::select` returns the number of members that it left in the sets it was handed, the status
-- says that the socket can be read exactly if it was left in the set for reading, and that it can
-- be written exactly if writing was polled and it was left in the set for writing.
pub select_status-exact :
    (polled readable writable : Bool)
    → (st : Status) × (select_status polled
          (positive (bit readable + bit (polled && writable)))
          readable
          writable
        ≡ ok st)
      × (can_read st ≡ readable)
      × (can_write st ≡ (polled && writable))
unfolding select_status
select_status-exact true true true = (both, refl, refl, refl)
select_status-exact true true false = (read, refl, refl, refl)
select_status-exact true false true = (write, refl, refl, refl)
select_status-exact true false false = (none_ready, refl, refl, refl)
select_status-exact false true true = (read, refl, refl, refl)
select_status-exact false true false = (read, refl, refl, refl)
select_status-exact false false true = (none_ready, refl, refl, refl)
select_status-exact false false false = (none_ready, refl, refl, refl)

-- A descriptor that `open` got, whether or not a later call failed, is given back exactly once by
-- `close` and the destructor after it, or by the destructor alone.
pub destroy-open_socket :
    (r : OpenReply) (s : BlockSocket) (fd : ℕ)
    → r.descriptor ≡ some fd
    → let s' = (open_socket r s).1 in
      ((destroy (close s')).closed ≡ fd ∷ s.closed)
      × ((destroy s').closed ≡ fd ∷ s.closed)
      × ((destroy (close s')).sock ≡ none)
unfolding open_socket close destroy
destroy-open_socket r s fd e = ground arith

-- Sending to the address that was last received from reaches that address: `set_address` of what
-- `get_address` gives restores the sender's address and port, which have 32 and 16 bits.
pub set_address-get_address :
    (p : Platform) (inet : Inet) (s : BlockSocket)
    → s.from.s_addr < 2 ^ 32
    → s.from.sin_port < 2 ^ 16
    → (set_address p inet (get_address p inet s) s).to ≡ s.from
unfolding set_address get_address
set_address-get_address p inet s ha hp = λ i. record {
  s_addr = inet.inet_addr-ntoa s.from.s_addr ha i;
  sin_port = htons-ntohs p s.from.sin_port hp i;
}
