-- ===== src/SyncStatus/Arrival.antt =====
-- One block of a file arrives at a state that agrees with the file so far.
use Prim.Native.Nat.{max}
use multisync.Base.{
  ℕ, ◌+◌, ◌*◌, ◌<◌, ◌≡◌, ◌≢◌, refl, sym, ap, subst, ◌∙◌, Bool, true, false, none, some, List, Bytes,
  length, get_elem?, set, arith, ok, inl, inr, length-set, set_known, get_elem?-set_self,
  get_elem?-set_ne, get_elem?_some, Option-cases,
}
use native.Mathlib.Decide.{ℕ_discrete}
use multisync.Platform.{Platform}
use multisync.Stream.{file_write}
use multisync.Message.{Message, get_text}
use multisync.SyncStatus.{SyncStatus, write_block}
use multisync.SyncStatus.Progress.{
  IsValid, write_block_known, write_block_missing, write_block-IsValid,
}
use multisync.SyncStatus.Transfer.{
  Holds, block_of, store_block_lem, length-block_of, length-file_write_block, agrees_here,
  agrees_there,
}

-- The blocks that were marked stay marked.
abbrev pub Keeps : List Bool → List Bool → Type 0
Keeps bs cs = (c : ℕ) → get_elem? bs c ≡ some true → get_elem? cs c ≡ some true

set-Keeps : (bs : List Bool) (b : ℕ) → b < length bs → Keeps bs (set bs b true)
set-Keeps bs b h c e = elim (ℕ_discrete b c) [
  | yes p ↦
      subst (λ k. get_elem? (set bs b true) k ≡ some true) p
        (get_elem?-set_self bs b true true (rw p e))
  | no p ↦ get_elem?-set_ne bs b c true p ∙ e
]

was_set :
    (bs : List Bool) (b c : ℕ)
    → c ≢ b
    → get_elem? (set bs b true) c ≡ some true
    → get_elem? bs c ≡ some true
was_set bs b c ne e = sym (get_elem?-set_ne bs b c true (λ k. ne (sym k))) ∙ e

-- A missing block that is stored at its place.
module _ (file : Bytes) (b : ℕ) (s s' : SyncStatus) (v : Holds file s) (h : 1024 * b < length file)
    (w : s'.output.written ≡ file_write s.output.written (1024 * b) (block_of file b))
    (marks : s'.block_array ≡ set s.block_array b true) where
  grows :
      length s'.output.written ≡ max (length s.output.written) (1024 * b + length (block_of file b))
  grows = ap length w ∙ length-file_write_block file s.output.written b h

  stored-reaches :
      (c i : ℕ)
      → get_elem? s'.block_array c ≡ some true
      → i < 1024
      → 1024 * c + i < length file
      → 1024 * c + i < length s'.output.written
  stored-reaches c i e k l = elim (ℕ_discrete c b) [
    | yes p ↦ omega (arith, grows, length-block_of file b)
    | no p ↦ omega (
      arith,
      grows,
      v.reaches c i (was_set s.block_array b c p (sym (ap (λ z. get_elem? z c) marks) ∙ e)) k l,
    )
  ]

  stored-agrees :
      (c i : ℕ)
      → get_elem? s'.block_array c ≡ some true
      → i < 1024
      → 1024 * c + i < length file
      → get_elem? s'.output.written (1024 * c + i) ≡ get_elem? file (1024 * c + i)
  stored-agrees c i e k l = elim (ℕ_discrete c b) [
    | yes p ↦
        subst
          (λ d.
            1024 * d + i < length file
            → get_elem? s'.output.written (1024 * d + i) ≡ get_elem? file (1024 * d + i))
          (sym p) (λ l'. rw w (agrees_here file s.output.written b h i k l')) l
    | no p ↦
        let old = was_set s.block_array b c p (sym (ap (λ z. get_elem? z c) marks) ∙ e) in
        rw w (
          agrees_there file s.output.written b h c i p k (v.reaches c i old k l)
          ∙ v.agrees c i old k l)
  ]

  stored-Holds : s'.output.is_open ≡ true → s'.output.failbit ≡ false → Holds file s'
  stored-Holds o f = record {
    is_open = o;
    works = f;
    within = omega (arith, grows, v.within, length-block_of file b);
    reaches = stored-reaches;
    agrees = stored-agrees;
  }

-- What a delivery of block `b` of the file leads to, from any state that holds what it should.
abbrev pub Delivered : Platform → Bytes → ℕ → Message → SyncStatus → Type 0
Delivered q file b m s =
    (s' : SyncStatus) × (write_block q b m s ≡ ok s')
    × Holds file s'
    × IsValid s'
    × (length s'.block_array ≡ length s.block_array)
    × (s'.path ≡ s.path)
    × (s'.temp ≡ s.temp)
    × (get_elem? s'.block_array b ≡ some true)
    × Keeps s.block_array s'.block_array
    × (s'.block_array ≡ set s.block_array b true)

pub delivered :
    (q : Platform) (file : Bytes) (b : ℕ) (m : Message) (s : SyncStatus)
    → Holds file s
    → IsValid s
    → 1024 * b < length file
    → b < length s.block_array
    → get_text q m ≡ ok (block_of file b)
    → Delivered q file b m s
delivered q file b m s hold v h k e = elim (Option-cases (get_elem? s.block_array b)) [
  | inl n ↦ absurd (past n)
  | inr (true, known) ↦ (
    s,
    write_block_known q b m s known,
    hold,
    v,
    refl,
    refl,
    refl,
    known,
    λ c t. t,
    sym (set_known s.block_array b true known),
  )
  | inr (false, missing) ↦
      let (s', r, w, o, f, marks, p, t) =
        store_block_lem q b m (block_of file b) s e hold.is_open hold.works
          (omega (arith, v.block_count-lt)) in
      let stored = write_block_missing q b m s missing ∙ r in
      let valid = write_block-IsValid q b m s s' v stored in
      (
        s',
        stored,
        stored-Holds file b s s' hold h w marks o f,
        valid.0,
        ap length marks ∙ length-set s.block_array b true,
        p,
        t,
        valid.1,
        λ c u. ap (λ z. get_elem? z c) marks ∙ set-Keeps s.block_array b k c u,
        marks,
      )
]
  where
    past : get_elem? s.block_array b ≡ none → ⊥
    past n = get_elem?_some s.block_array b k n
