-- ===== src/BlockClient/Goodbye.antt =====
-- The loop over the clients that a goodbye of the server names.
use mathlib.Core.List.{append-nil, append_assoc}
use multisync.Base.{
  ℕ, zero, suc, ◌+◌, ◌≡◌, refl, sym, ap, ap₂, ◌∙◌, List, [], ◌∷◌, ◌++◌, length, replicate, ok, ◌==◌,
  if◌then◌else◌, Bool-cases, inl, inr,
}
use multisync.Platform.{Platform}
use multisync.Message.{Message, Array, array_elem, empty, type_cgoodbye}
use multisync.SyncStatus.{SyncStatus, set_goodbye_received}
use multisync.BlockClient.{scan_goodbyes}

abbrev pub count : ℕ → List ℕ → ℕ
count id [] = 0
count id (x ∷ xs) = if x == id then suc (count id xs) else count id xs

-- The elements of the array from the `i`-th on.
abbrev pub Elements : Platform → Message → Array → ℕ → List ℕ → Type 0
Elements p m array i [] = Unit {0}
Elements p m array i (x ∷ xs) = (array_elem p m array i ≡ ok x) × Elements p m array (i + 1) xs

-- The status after `n` goodbyes for this client.
abbrev pub after_goodbyes : ℕ → SyncStatus → SyncStatus
after_goodbyes zero s = s
after_goodbyes (suc n) s = set_goodbye_received s

after_one_more :
    (n : ℕ) (s : SyncStatus) → after_goodbyes n (set_goodbye_received s) ≡ set_goodbye_received s
unfolding set_goodbye_received
after_one_more zero s = refl
after_one_more (suc n) s = refl

-- Where the elements of the array can be read, the client marks the goodbye as received exactly if
-- its id is among them, and puts one goodbye of its own at the back of its queue for each time that
-- it is.
pub scan_goodbyes-count :
    (p : Platform) (id : ℕ) (m : Message) (array : Array) (xs : List ℕ) (i : ℕ) (s : SyncStatus)
    (queue : List Message)
    → Elements p m array i xs
    → scan_goodbyes p id m array (length xs) i (s, queue)
      ≡ ok (
        after_goodbyes (count id xs) s,
        queue ++ replicate (count id xs) (empty p id type_cgoodbye),
      )
unfolding scan_goodbyes
scan_goodbyes-count p id m array [] i s queue e = ap (λ q. ok (s, q)) (sym (append-nil queue))
scan_goodbyes-count p id m array (x ∷ xs) i s queue (e, es) =
    let bye = empty p id type_cgoodbye in
    elim (Bool-cases (x == id)) [
      | inl hit ↦
          rw (e, hit)
            (scan_goodbyes-count p id m array xs (i + 1) (set_goodbye_received s)
                (queue ++ (bye ∷ [])) es
              ∙ ap₂ (λ t q. ok (t, q)) (after_one_more (count id xs) s)
                  (append_assoc queue (bye ∷ []) (replicate (count id xs) bye)))
      | inr miss ↦ rw (e, miss) (scan_goodbyes-count p id m array xs (i + 1) s queue es)
    ]
