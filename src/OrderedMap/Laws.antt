-- ===== src/OrderedMap/Laws.antt =====
-- The containers keep their keys sorted, and `find` after each change.
use multisync.Base.{◌≡◌, ◌≢◌, refl, true, [], ◌∷◌, none, some, arith}
use multisync.OrderedMap.{Order, OrderedMap, find, insert, assign, erase, Above, IsSorted}

module _ {K V : Type 0} (o : Order K) where
  open o use {less}

  Above-trans : (i j : K) (m : OrderedMap K V) → less i j ≡ true → Above o j m → Above o i m
  Above-trans i j [] h a = tt
  Above-trans i j ((k, w) ∷ m) h a = (o.trans i j k h a.0, Above-trans i j m h a.1)

  find-Above : (k : K) (m : OrderedMap K V) → Above o k m → find o k m ≡ none
  unfolding find
  find-Above k [] a = refl
  find-Above k ((j, w) ∷ m) a = ground (arith, o.irrefl j, o.trans j k j)

  insert-Above :
      (i k : K) (v : V) (m : OrderedMap K V)
      → less i k ≡ true
      → Above o i m
      → Above o i (insert o k v m)
  unfolding insert
  insert-Above i k v [] h a = (h, tt)
  insert-Above i k v ((j, w) ∷ m) h a = ground (arith, insert-Above i k v m h a.1)

  erase-Above : (i k : K) (m : OrderedMap K V) → Above o i m → Above o i (erase o k m)
  unfolding erase
  erase-Above i k [] a = tt
  erase-Above i k ((j, w) ∷ m) a = ground (arith, erase-Above i k m a.1)

  assign-Above : (i k : K) (v : V) (m : OrderedMap K V) → Above o i m → Above o i (assign o k v m)
  unfolding assign
  assign-Above i k v [] a = tt
  assign-Above i k v ((j, w) ∷ m) a = ground (arith, assign-Above i k v m a.1)

  pub insert-IsSorted :
      (k : K) (v : V) (m : OrderedMap K V) → IsSorted o m → IsSorted o (insert o k v m)
  unfolding insert
  insert-IsSorted k v [] s = (tt, tt)
  insert-IsSorted k v ((j, w) ∷ m) s =
      ground (arith, insert-IsSorted k v m s.1, insert-Above j k v m, Above-trans k j m)

  pub erase-IsSorted : (k : K) (m : OrderedMap K V) → IsSorted o m → IsSorted o (erase o k m)
  unfolding erase
  erase-IsSorted k [] s = tt
  erase-IsSorted k ((j, w) ∷ m) s = ground (arith, erase-IsSorted k m s.1, erase-Above j k m s.0)

  pub assign-IsSorted :
      (k : K) (v : V) (m : OrderedMap K V) → IsSorted o m → IsSorted o (assign o k v m)
  unfolding assign
  assign-IsSorted k v [] s = tt
  assign-IsSorted k v ((j, w) ∷ m) s =
      ground (arith, assign-IsSorted k v m s.1, assign-Above j k v m s.0)

  -- An inserted key is found: with the old value if it was there.
  pub find-insert_new :
      (k : K) (v : V) (m : OrderedMap K V) → find o k m ≡ none → find o k (insert o k v m) ≡ some v
  unfolding find insert
  find-insert_new k v [] e = ground (arith, o.irrefl k)
  find-insert_new k v ((j, w) ∷ m) e = ground (arith, o.irrefl k, find-insert_new k v m)

  pub find-insert_old :
      (k : K) (v w : V) (m : OrderedMap K V)
      → find o k m ≡ some w
      → find o k (insert o k v m) ≡ some w
  unfolding find insert
  find-insert_old k v w [] e = cc
  find-insert_old k v w ((j, u) ∷ m) e = ground (arith, find-insert_old k v w m)

  pub find-insert_ne :
      (k i : K) (v : V) (m : OrderedMap K V) → k ≢ i → find o i (insert o k v m) ≡ find o i m
  unfolding find insert
  find-insert_ne k i v [] h = ground (arith, o.total k i)
  find-insert_ne k i v ((j, w) ∷ m) h = ground (
    arith,
    o.total k i,
    o.total j k,
    o.total j i,
    o.trans k j i,
    o.trans i k j,
    o.trans j k i,
    o.trans i j k,
    o.irrefl i,
    find-insert_ne k i v m h,
  )

  pub find-assign_self :
      (k : K) (v w : V) (m : OrderedMap K V)
      → find o k m ≡ some w
      → find o k (assign o k v m) ≡ some v
  unfolding find assign
  find-assign_self k v w [] e = cc
  find-assign_self k v w ((j, u) ∷ m) e = ground (arith, find-assign_self k v w m)

  pub find-assign_ne :
      (k i : K) (v : V) (m : OrderedMap K V) → k ≢ i → find o i (assign o k v m) ≡ find o i m
  unfolding find assign
  find-assign_ne k i v [] h = refl
  find-assign_ne k i v ((j, w) ∷ m) h =
      ground (arith, o.total j k, o.total j i, find-assign_ne k i v m h)

  pub find-erase_self : (k : K) (m : OrderedMap K V) → IsSorted o m → find o k (erase o k m) ≡ none
  unfolding find erase
  find-erase_self k [] s = refl
  find-erase_self k ((j, w) ∷ m) s =
      ground (arith, o.total j k, find-Above j m s.0, find-erase_self k m s.1)

  pub find-erase_ne :
      (k i : K) (m : OrderedMap K V) → IsSorted o m → k ≢ i → find o i (erase o k m) ≡ find o i m
  unfolding find erase
  find-erase_ne k i [] s h = refl
  find-erase_ne k i ((j, w) ∷ m) s h = ground (
    arith,
    o.total j k,
    o.total j i,
    λ (p : less i j ≡ true). find-Above i m (Above-trans i j m p s.0),
    find-erase_ne k i m s.1 h,
  )
