-- ===== src/Logger.antt =====
-- src/logger.cpp and include/logger.hpp: a stream of levels and objects, of which those below the
-- logger's level are dropped. The time stamp and the objects are given as the text they print.
pub mod Visible
use multisync.Base.{ℕ, Bool, List, [], ◌∷◌, ◌++◌, Bytes, leb, if◌then◌else◌}

pub data Level : Type 0 where
  finest fine info warning err : Level

-- The value of the enumerator, by which `>=` compares.
abbrev pub rank : Level → ℕ
rank finest = 0
rank fine = 1
rank info = 2
rank warning = 3
rank err = 4

-- What is printed: a time stamp with the tag of a level, or an object.
pub data Entry : Type 0 where
  tag : Bytes → Level → Entry
  object : Bytes → Entry

pub record Logger : Type 0 where
  pub output : List Entry
  pub output_level : Level
  pub message_level : Level

-- `Logger(std::ostream&)`, on a stream that has printed `printed`.
unfoldable pub construct : List Entry → Logger
construct printed = record { output = printed; output_level = info; message_level = info }

-- `message_level >= output_level`.
abbrev pub is_visible : Level → Level → Bool
is_visible out message = leb (rank out) (rank message)

-- `operator<<(const Level&)`, at a time that prints as `now`.
unfoldable pub put_level : Bytes → Level → Logger → Logger
put_level now level l =
    let l' : Logger = record l { message_level = level } in
    if is_visible l.output_level level
    then record l' { output = l.output ++ (tag now level ∷ []) }
    else l'

-- `operator<<(const T)`.
unfoldable pub put_object : Bytes → Logger → Logger
put_object text l =
    if is_visible l.output_level l.message_level
    then record l { output = l.output ++ (object text ∷ []) }
    else l

unfoldable pub set_level : Level → Logger → Logger
set_level level l = record l { output_level = level }

-- The calls between two changes of the logger's level, and their run.
pub data Call : Type 0 where
  level_call : Bytes → Level → Call
  object_call : Bytes → Call

unfoldable pub run : List Call → Logger → Logger
run [] l = l
run (level_call now level ∷ calls) l = run calls (put_level now level l)
run (object_call text ∷ calls) l = run calls (put_object text l)
