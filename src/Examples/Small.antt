-- ===== src/Examples/Small.antt =====
-- Files, addresses and the logger at concrete inputs.
use multisync.Base.{
  ◌≡◌, ◌≢◌, ◌↔◌, ◌⊎◌, refl, true, false, not, ◌&&◌, ◌||◌, none, some, List, [], ◌∷◌, ok,
}
use multisync.FileInfo.{FileInfo, equal, less}
use multisync.FileInfo.Order.{equal_iff, less_laws}
use multisync.Socket.{OpenReply, Status, positive, open_socket, close, destroy, select_status}
use multisync.Socket.Polling.{select_status-exact, destroy-open_socket, can_read, can_write}
use multisync.Logger.{Logger, Level, Call, run, tag, object}
use multisync.Logger.Visible.{run-visible}
use multisync.Examples.{digest, name, socket}

abbrev two : FileInfo
two = record { digest = digest; num_blocks = 2 }

abbrev other : FileInfo
other = record { digest = name; num_blocks = 2 }

equal_iff_example :
    ((equal two other ≡ true) ↔ ((digest ≢ name) × (two.num_blocks ≡ other.num_blocks)))
    × (equal two two ≡ false)
equal_iff_example = equal_iff two other

less_laws_example :
    (less two two ≡ false)
    × ((less two two || not (less two other && less other two)) ≡ true)
    × ((two ≡ other) ⊎ ((less two other || less other two) ≡ true))
less_laws_example = less_laws two other two

select_status-exact_example :
    (st : Status) × (select_status false (positive 1) true true ≡ ok st)
    × (can_read st ≡ true)
    × (can_write st ≡ false)
select_status-exact_example = select_status-exact false true true

-- The socket is bound to no address, as the port is taken.
abbrev refused : OpenReply
refused = record { descriptor = some 4; joined = true; is_bound = false; is_named = true }

destroy-open_socket_example :
    let s' = (open_socket refused socket).1 in
    ((destroy (close s')).closed ≡ 4 ∷ [])
    × ((destroy s').closed ≡ 4 ∷ [])
    × ((destroy (close s')).sock ≡ none)
destroy-open_socket_example = destroy-open_socket refused socket 4 refl

abbrev logger : Logger
logger = record { output = []; output_level = Level.info; message_level = Level.info }

abbrev calls : List Call
calls =
    Call.level_call [] Level.fine
    ∷ Call.object_call name
    ∷ Call.level_call [] Level.err
    ∷ Call.object_call name
    ∷ []

run-visible_example :
    ((run calls logger).output ≡ tag [] Level.err ∷ object name ∷ [])
    × ((run calls logger).output_level ≡ Level.info)
run-visible_example = run-visible calls logger
