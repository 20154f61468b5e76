-- ===== src/Logger/Visible.antt =====
-- What a logger prints of a sequence of calls.
use mathlib.Core.List.{append_assoc, append-nil}
use multisync.Base.{◌≡◌, refl, sym, List, [], ◌∷◌, ◌++◌, leb, if◌then◌else◌, arith}
use multisync.Logger.{
  Logger, Level, Entry, Call, level_call, object_call, tag, object, put_level, put_object, run,
  rank,
}

-- Each call with the level that is in force when it prints: the last one put.
abbrev pub levelled : Level → List Call → List (Level × Entry)
levelled level [] = []
levelled level (level_call now level' ∷ calls) = (level', tag now level') ∷ levelled level' calls
levelled level (object_call text ∷ calls) = (level, object text) ∷ levelled level calls

-- Those that reach the output.
abbrev pub visible : Level → List (Level × Entry) → List Entry
visible out [] = []
visible out ((level, entry) ∷ entries) =
    let rest = visible out entries in if leb (rank out) (rank level) then entry ∷ rest else rest

-- After any calls the output holds what it held, then exactly the entries whose level in force is
-- at least the logger's, in the order of the calls; the logger's own level has not changed.
pub run-visible :
    (calls : List Call) (l : Logger)
    → ((run calls l).output ≡ l.output ++ visible l.output_level (levelled l.message_level calls))
      × ((run calls l).output_level ≡ l.output_level)
unfolding run put_level put_object
run-visible [] l = (sym (append-nil l.output), refl)
run-visible (level_call now level ∷ calls) l = ground (
  arith,
  run-visible calls (put_level now level l),
  append_assoc l.output (tag now level ∷ []) (visible l.output_level (levelled level calls)),
)
run-visible (object_call text ∷ calls) l = ground (
  arith,
  run-visible calls (put_object text l),
  append_assoc l.output (object text ∷ [])
      (visible l.output_level (levelled l.message_level calls)),
)
