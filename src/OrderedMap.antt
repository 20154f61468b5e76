-- ===== src/OrderedMap.antt =====
-- What the sources use of `std::map` and `std::set`: entries in the order of `operator<`, where two
-- keys are one if neither is less than the other. A set is a map to the type with one value.
pub mod Laws
pub mod Values
use multisync.Base.{◌≡◌, Bool, true, false, List, [], ◌∷◌, Option, none, some, if◌then◌else◌}

-- A strict total order, as the containers ask of `operator<`.
pub record Order (K : Type 0) : Type 0 where
  pub less : K → K → Bool
  pub irrefl : (k : K) → less k k ≡ false
  pub trans : (i j k : K) → less i j ≡ true → less j k ≡ true → less i k ≡ true
  pub total : (j k : K) → less j k ≡ false → less k j ≡ false → j ≡ k

abbrev pub OrderedMap : Type 0 → Type 0 → Type 0
OrderedMap K V = List (K × V)

module _ {K V : Type 0} (o : Order K) where
  open o use {less}

  unfoldable pub find : K → OrderedMap K V → Option V
  find k [] = none
  find k ((j, w) ∷ m) =
      let later = find k m in if less j k then later else if less k j then none else some w

  -- `insert` keeps the entry of a key that is there.
  unfoldable pub insert : K → V → OrderedMap K V → OrderedMap K V
  insert k v [] = (k, v) ∷ []
  insert k v ((j, w) ∷ m) =
      let later = insert k v m in
      if less j k then (j, w) ∷ later else if less k j then (k, v) ∷ (j, w) ∷ m else (j, w) ∷ m

  -- A write through the reference to the value of a key.
  unfoldable pub assign : K → V → OrderedMap K V → OrderedMap K V
  assign k v [] = []
  assign k v ((j, w) ∷ m) =
      let later = assign k v m in
      if less j k then (j, w) ∷ later else if less k j then (j, w) ∷ m else (j, v) ∷ m

  -- `erase` by key.
  unfoldable pub erase : K → OrderedMap K V → OrderedMap K V
  erase k [] = []
  erase k ((j, w) ∷ m) =
      let later = erase k m in
      if less j k then (j, w) ∷ later else if less k j then (j, w) ∷ m else m

  -- Every key lies above `k`, and the keys rise.
  abbrev pub Above : K → OrderedMap K V → Type 0
  Above k [] = Unit {0}
  Above k ((j, w) ∷ m) = (less k j ≡ true) × Above k m

  abbrev pub IsSorted : OrderedMap K V → Type 0
  IsSorted [] = Unit {0}
  IsSorted ((j, w) ∷ m) = Above j m × IsSorted m
