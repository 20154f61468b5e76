-- ===== src/OrderedMap/Values.antt =====
-- What holds of every value of a map.
use multisync.Base.{◌≡◌, [], ◌∷◌, some, arith}
use multisync.OrderedMap.{OrderedMap, Order, find, insert, assign, erase}

abbrev pub AllValues : {K V : Type 0} → (V → Type 0) → OrderedMap K V → Type 0
AllValues P [] = Unit {0}
AllValues P ((k, v) ∷ m) = P v × AllValues P m

module _ {K V : Type 0} (o : Order K) (P : V → Type 0) where
  pub find-AllValues :
      (k : K) (v : V) (m : OrderedMap K V) → AllValues P m → find o k m ≡ some v → P v
  unfolding find
  find-AllValues k v [] a e = cc e
  find-AllValues k v ((j, w) ∷ m) (h, hs) e = ground (arith, find-AllValues k v m hs)

  pub insert-AllValues :
      (k : K) (v : V) (m : OrderedMap K V) → P v → AllValues P m → AllValues P (insert o k v m)
  unfolding insert
  insert-AllValues k v [] p a = (p, tt)
  insert-AllValues k v ((j, w) ∷ m) p (h, hs) = ground (arith, insert-AllValues k v m p hs)

  pub assign-AllValues :
      (k : K) (v : V) (m : OrderedMap K V) → P v → AllValues P m → AllValues P (assign o k v m)
  unfolding assign
  assign-AllValues k v [] p a = tt
  assign-AllValues k v ((j, w) ∷ m) p (h, hs) = ground (arith, assign-AllValues k v m p hs)

  pub erase-AllValues : (k : K) (m : OrderedMap K V) → AllValues P m → AllValues P (erase o k m)
  unfolding erase
  erase-AllValues k [] a = tt
  erase-AllValues k ((j, w) ∷ m) (h, hs) = ground (arith, erase-AllValues k m hs)
