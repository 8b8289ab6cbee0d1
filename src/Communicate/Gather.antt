-- ===== src/Communicate/Gather.antt =====
-- `RawCommunicator::read_into` and `read` of src/communicate.rs (Windows).
pub mod Growth
pub mod Receiving
pub mod Owed
pub mod Shares
pub mod Soundness
pub mod Safety
pub mod Totality
pub mod Handing
pub mod Sessions
pub mod Whole
mod Tests
use rust_subprocess.Prelude.{
  ℕ, zero, suc, ◌+◌, ◌-◌, Bool, true, false, not, [], ◌∷◌, ◌++◌, Option, none, some, ◌==◌, leb, ltb,
  if◌then◌else◌, length, take, drop, is_empty, Bytes, Result, ok, err, IoError, Run, returned,
  panicked, unfinished, and_then,
}
use rust_subprocess.Communicate.Raw.{limit_reached}
use rust_subprocess.Communicate.ReadLoop.{Capture, timeout_error}
use rust_subprocess.Communicate.Helpers.{
  StreamIdent, stream_in, stream_out, stream_err, common, remove, Payload, bytes, eof, io_err,
  Message, Receiver, Schedule, Timeout, recv_until, RawCommunicator,
}

-- The variables of `read_into`.
pub record Gather : Type 0 where
  pub comm : RawCommunicator
  pub outvec : Bytes
  pub errvec : Bytes

abbrev pub gathered : Gather → ℕ
gathered g = length g.outvec + length g.errvec

-- The part of a chunk that the limit has room for; the rest becomes the leftover. `none` if the
-- limit is reached already.
unfoldable pub clip : Option ℕ → StreamIdent → Bytes → Gather → Option (Bytes × Gather)
clip none ident chunk g = some (chunk, g)
clip (some size_limit) ident chunk g =
    if leb size_limit (gathered g)
    then none
    else let remaining = size_limit - gathered g in
      if ltb remaining (length chunk)
      then some (
        take remaining chunk,
        record g { comm = record g.comm { leftover = some (ident, drop remaining chunk) } },
      )
      else some (chunk, g)

-- `extend_from_slice`; the input's stream is unreachable.
abbrev pub extend : StreamIdent → Bytes → Gather → Run Gather
extend stream_in chunk g = panicked
extend stream_out chunk g = returned (record g { outvec = g.outvec ++ chunk })
extend stream_err chunk g = returned (record g { errvec = g.errvec ++ chunk })

-- The part goes to its vector, and there may be room for more.
unfoldable pub push_part :
    Option ℕ → StreamIdent → Gather → Option (Bytes × Gather) → Run (Bool × Gather)
push_part size_limit ident g none = returned (false, g)
push_part size_limit ident g (some (part, g')) =
    and_then (extend ident part g')
      λ grown. returned (not (limit_reached size_limit (gathered grown)), grown)

-- `grow_result`: whether there is room for more.
unfoldable pub grow_result : Option ℕ → StreamIdent → Bytes → Gather → Run (Bool × Gather)
grow_result size_limit ident chunk g = push_part size_limit ident g (clip size_limit ident chunk g)

-- `self.leftover.take()`, and its use.
unfoldable pub use_leftover : Option ℕ → Gather → Run (Bool × Gather)
use_leftover size_limit g = elim g.comm.leftover [
  | none ↦ returned (true, g)
  | some (ident, chunk) ↦
      grow_result size_limit ident chunk (record g { comm = record g.comm { leftover = none } })
]

abbrev pub Ending : Type 0
Ending = Result (Unit {0}) IoError × Gather

-- What a turn of the loop does: it goes on, or it leaves the function.
pub data Turn : Type 0 where
  again : Gather → Turn
  leave : Run Ending → Turn

abbrev pub unless_full : Run (Bool × Gather) → Turn
unless_full (returned (true, g)) = again g
unless_full (returned (false, g)) = leave (returned (ok tt, g))
unless_full panicked = leave panicked
unless_full unfinished = leave unfinished

-- The arms of the `match`.
unfoldable pub handle : Option ℕ → Run (Result Message Timeout × Receiver) → Gather → Turn
handle size_limit panicked g = leave panicked
handle size_limit unfinished g = leave unfinished
handle size_limit (returned (err t, rx)) g =
    leave (returned (err timeout_error, record g { comm = record g.comm { rx = rx } }))
handle size_limit (returned (ok (ident, eof), rx)) g =
    again
      (record g { comm = record g.comm { rx = rx; helper_set = remove ident g.comm.helper_set } })
handle size_limit (returned (ok (ident, bytes chunk), rx)) g =
    if is_empty chunk
    then leave panicked
    else unless_full
        (grow_result size_limit ident chunk (record g { comm = record g.comm { rx = rx } }))
handle size_limit (returned (ok (ident, io_err e), rx)) g =
    leave (returned (err e, record g { comm = record g.comm { rx = rx } }))

-- A vector that was asked for; another one has to be empty.
abbrev pub hand_out : StreamIdent → ℕ → Bytes → Run (Option Bytes)
hand_out ident requested v =
    if common ident requested == 0
    then if is_empty v then returned none else panicked
    else returned (some v)

-- `.err()`
abbrev pub error_of : Result (Unit {0}) IoError → Option IoError
error_of (ok _) = none
error_of (err e) = some e

unfoldable pub capture : Ending → Run (Capture × RawCommunicator)
capture (reply, g) = and_then (hand_out stream_out g.comm.requested_streams g.outvec) λ o.
    and_then (hand_out stream_err g.comm.requested_streams g.errvec)
      λ e. returned (record { error = error_of reply; stdout = o; stderr = e }, g.comm)

abbrev pub start : RawCommunicator → Gather
start comm = record { comm = comm; outvec = []; errvec = [] }

module _ (schedule : Schedule) where
  -- The `while` loop; the first argument bounds its turns.
  unfoldable pub receive : ℕ → Option ℕ → Option ℕ → Gather → Run Ending
  receive zero deadline size_limit g = unfinished
  receive (suc fuel) deadline size_limit g = elim (g.comm.helper_set == 0) [
    | true ↦ returned (ok tt, g)
    | false ↦ elim (handle size_limit (recv_until schedule deadline g.comm.rx) g) [
      | again g' ↦ receive fuel deadline size_limit g'
      | leave r ↦ r
    ]
  ]

  unfoldable pub read_into : ℕ → Option ℕ → Option ℕ → Gather → Run Ending
  read_into fuel deadline size_limit g =
      and_then (use_leftover size_limit g)
        λ used. if used.0 then receive fuel deadline size_limit used.1 else returned (ok tt, used.1)

  unfoldable pub read : ℕ → Option ℕ → Option ℕ → RawCommunicator → Run (Capture × RawCommunicator)
  read fuel deadline size_limit comm =
      and_then (read_into fuel deadline size_limit (start comm)) capture
