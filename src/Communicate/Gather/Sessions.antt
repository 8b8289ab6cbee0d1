-- ===== src/Communicate/Gather/Sessions.antt =====
-- The calls of `read` that a Windows communicator serves, one after another (src/communicate.rs).
use rust_subprocess.Prelude.{
  ℕ, ◌<◌, true, Option, none, some, ◌≡◌, ◌≢◌, refl, ap, sym, subst, is_none, Delivers, Delivers-map,
  Delivers-Returns, Returns, and_then-Delivers, ◌⊎◌, inl, inr, Result, ok, err, IoError,
}
use rust_subprocess.Communicate.ReadLoop.{Capture, timeout_error}
use rust_subprocess.Communicate.Helpers.{RawCommunicator, Schedule}
use rust_subprocess.Communicate.Helpers.Arrivals.{AllClose, AllClean, messages}
use rust_subprocess.Communicate.Gather.{Gather, Ending, read_into, start, capture, read}
use rust_subprocess.Communicate.Gather.Soundness.{Asked, GoodEnd}
use rust_subprocess.Communicate.Gather.Shares.{limit_HasRoom}
use rust_subprocess.Communicate.Gather.Totality.{read_into-Ends}
use rust_subprocess.Communicate.Gather.Handing.{
  IsSound, IsSound-Goes, Goes-IsSound, handed, capture-handed,
}

module _ (schedule : Schedule) (fuel : ℕ) (deadline size_limit : Option ℕ) (Cleans : Type 0)
    (comm : RawCommunicator) (sound : IsSound comm) where
  abbrev Well : Ending → Type 0
  Well = GoodEnd deadline size_limit Cleans sound.has_out sound.has_err

  -- What `read` returns comes from an ending of its loop.
  pub record Ended (t : Capture × RawCommunicator) : Type 0 where
    pub reply : Result (Unit {0}) IoError
    pub gather : Gather
    pub well : Well (reply, gather)
    pub captured : t ≡ (handed sound.has_out sound.has_err reply gather, gather.comm)

  Well-Asked :
      (reply : Result (Unit {0}) IoError) (g : Gather)
      → Well (reply, g)
      → Asked sound.has_out sound.has_err g
  Well-Asked (ok t) g well = well.0.asked
  Well-Asked (err e) g well = well.0

  pub read-Ended :
      size_limit ≢ some 0
      → (is_none deadline ≡ true → AllClose comm.rx)
      → (Cleans → AllClean comm.rx)
      → messages comm.rx < fuel
      → Delivers Ended (read schedule fuel deadline size_limit comm)
  unfolding read
  read-Ended positive alive clean enough =
      and_then-Delivers Well Ended (read_into schedule fuel deadline size_limit (start comm))
        capture
        (read_into-Ends schedule fuel deadline size_limit Cleans sound.has_out sound.has_err
          (start comm) (IsSound-Goes deadline size_limit Cleans comm sound alive clean)
          (limit_HasRoom size_limit comm positive) enough)
        λ ending well.
          rw
            (capture-handed sound.has_out sound.has_err ending.0 ending.1
              (Well-Asked ending.0 ending.1 well))
            (record { reply = ending.0; gather = ending.1; well = well; captured = refl })

-- From a sound communicator, with a size limit other than zero, with more fuel than messages, and
-- with a deadline or threads that all end: whatever the order of the messages, `read` returns, so
-- that no receive finds the channel disconnected and no assertion fails.
pub sound_read-Returns :
    (schedule : Schedule) (fuel : ℕ) (deadline size_limit : Option ℕ) (comm : RawCommunicator)
    → IsSound comm
    → size_limit ≢ some 0
    → (is_none deadline ≡ true → AllClose comm.rx)
    → messages comm.rx < fuel
    → Returns (read schedule fuel deadline size_limit comm)
sound_read-Returns schedule fuel deadline size_limit comm sound positive alive enough =
    Delivers-Returns (Ended schedule fuel deadline size_limit ⊥ comm sound)
      (read schedule fuel deadline size_limit comm)
      (read-Ended schedule fuel deadline size_limit ⊥ comm sound positive alive (λ h. absurd h)
        enough)

-- The next call of `read` finds what it needs.
abbrev Serves : Capture × RawCommunicator → Type 0
Serves (c, comm') =
    IsSound comm' × AllClean comm'.rx × ((c.error ≡ none) ⊎ (c.error ≡ some timeout_error))

handed-Serves :
    (schedule : Schedule) (fuel : ℕ) (deadline size_limit : Option ℕ) (comm : RawCommunicator)
    (sound : IsSound comm) (reply : Result (Unit {0}) IoError) (g : Gather)
    → GoodEnd deadline size_limit Unit sound.has_out sound.has_err (reply, g)
    → Serves (handed sound.has_out sound.has_err reply g, g.comm)
handed-Serves schedule fuel deadline size_limit comm sound (ok t) g (h, _) =
    (Goes-IsSound deadline size_limit Unit sound.has_out sound.has_err g h, h.clean tt, inl refl)
handed-Serves schedule fuel deadline size_limit comm sound (err e) g (_, after) =
    let (h, late, _) = after tt in
    (
      Goes-IsSound deadline size_limit Unit sound.has_out sound.has_err g h,
      h.clean tt,
      inr (ap some late),
    )

Ended-Serves :
    (schedule : Schedule) (fuel : ℕ) (deadline size_limit : Option ℕ) (comm : RawCommunicator)
    (sound : IsSound comm) (t : Capture × RawCommunicator)
    → Ended schedule fuel deadline size_limit Unit comm sound t
    → Serves t
Ended-Serves schedule fuel deadline size_limit comm sound t e =
    subst Serves (sym e.captured)
      (handed-Serves schedule fuel deadline size_limit comm sound e.reply e.gather e.well)

-- For a sound communicator whose threads have no error to report, a size limit that is not zero,
-- threads that all end where there is no deadline, and more fuel than there are messages: `read`
-- returns with no error or with a timeout, and leaves a sound communicator whose threads have no
-- error to report.
pub read-IsSound :
    (schedule : Schedule) (fuel : ℕ) (deadline size_limit : Option ℕ) (comm : RawCommunicator)
    → IsSound comm
    → AllClean comm.rx
    → size_limit ≢ some 0
    → (is_none deadline ≡ true → AllClose comm.rx)
    → messages comm.rx < fuel
    → Delivers Serves (read schedule fuel deadline size_limit comm)
read-IsSound schedule fuel deadline size_limit comm sound clean positive alive enough =
    Delivers-map (Ended schedule fuel deadline size_limit Unit comm sound) Serves
      (read schedule fuel deadline size_limit comm)
      (read-Ended schedule fuel deadline size_limit Unit comm sound positive alive (λ _. clean)
        enough)
      (Ended-Serves schedule fuel deadline size_limit comm sound)
