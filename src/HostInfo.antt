-- ===== src/HostInfo.antt =====
-- src/hostinfo.cpp and include/hostinfo.hpp: the identity of a client host.
use multisync.Base.{
  ℕ, ◌^◌, ◌<◌, ◌≡◌, refl, ap, Bool, true, false, arith, Bytes, length, ltb, ◌==◌, ◌++◌,
}
use multisync.OrderedMap.{Order}
use multisync.Platform.{Platform, store32}
use multisync.Platform.Memory.{Pod, load32}
use multisync.Platform.Words.{wire32, raw_wire32, ntohl-htonl, htonl-injective}

-- `id` is the field as it lies in memory, converted by `htonl`.
pub record HostInfo : Type 0 where
  pub id : ℕ

unfoldable pub construct : Platform → ℕ → HostInfo
construct p id = record { id = p.htonl id }

unfoldable pub get_id : Platform → HostInfo → ℕ
get_id p h = p.ntohl h.id

unfoldable pub equal : HostInfo → HostInfo → Bool
equal h other = h.id == other.id

unfoldable pub less : HostInfo → HostInfo → Bool
less h other = ltb h.id other.id

pub length-store32 :
    (p : Platform) (h : HostInfo) → h.id < 2 ^ 32 → length (store32 p.endian h.id) ≡ 4
length-store32 p h v = refl

-- The object is its one field.
unfoldable pub pod : Platform → Pod HostInfo
pod p = record {
  sizeof = 4;
  object = λ h. store32 p.endian h.id;
  value = λ bs. record { id = load32 p.endian bs 0 };
  IsValue = λ h. h.id < 2 ^ 32;
  length-object = length-store32 p;
}

-- A host id that one host wrote is the same id on every other host.
pub get_id_wire :
    (p q : Platform) (id : ℕ) (rest : Bytes)
    → id < 2 ^ 32
    → get_id q ((pod q).value ((pod p).object (construct p id) ++ rest)) ≡ id
unfolding pod construct get_id
get_id_wire p q id rest h = wire32 p q id h

-- It is the object that the other host makes of the same id.
pub value_wire :
    (p q : Platform) (id : ℕ) (rest : Bytes)
    → id < 2 ^ 32
    → (pod q).value ((pod p).object (construct p id) ++ rest) ≡ construct q id
unfolding pod construct
value_wire p q id rest h = ap (λ n. record { id = n }) (raw_wire32 p q id h)

pub construct-IsValue : (p : Platform) (id : ℕ) → (pod p).IsValue (construct p id)
unfolding pod construct
construct-IsValue p id = p.htonl-lt id

pub construct-injective :
    (p : Platform) (a b : ℕ) → a < 2 ^ 32 → b < 2 ^ 32 → construct p a ≡ construct p b → a ≡ b
unfolding construct
construct-injective p a b ha hb e = htonl-injective p a b ha hb (ap (λ h. h.id) e)

pub get_id-construct : (p : Platform) (id : ℕ) → id < 2 ^ 32 → get_id p (construct p id) ≡ id
unfolding construct get_id
get_id-construct p id h = ntohl-htonl p id h

less_irrefl : (h : HostInfo) → less h h ≡ false
unfolding less
less_irrefl h = ground arith

less_trans : (h i j : HostInfo) → less h i ≡ true → less i j ≡ true → less h j ≡ true
unfolding less
less_trans h i j a b = ground arith

less_total : (h i : HostInfo) → less h i ≡ false → less i h ≡ false → h ≡ i
unfolding less
less_total h i a b = ground arith

-- The order of the server's set of clients.
pub order : Order HostInfo
order = record { less = less; irrefl = less_irrefl; trans = less_trans; total = less_total }
