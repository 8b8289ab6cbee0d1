-- ===== src/Communicate/Gather/Whole.antt =====
-- `read` without limits (src/communicate.rs, Windows).
use rust_subprocess.Prelude.{
  ℕ, [], ◌<◌, Bool, false, none, ◌≡◌, refl, ◌∙◌, ap, sym, subst, arith, append-nil, unwrap_or,
  Delivers, Delivers-map, Delivers-Gives, Result, ok, err, IoError,
}
use rust_subprocess.Communicate.ReadLoop.{Capture}
use rust_subprocess.Communicate.Helpers.{
  RawCommunicator, Schedule, Receiver, Reader, reading, is_reading,
}
use rust_subprocess.Communicate.Helpers.Threads.{owed}
use rust_subprocess.Communicate.Helpers.Arrivals.{active, AllClose, AllClean, messages}
use rust_subprocess.Communicate.Gather.{Gather, read}
use rust_subprocess.Communicate.Gather.Growth.{left_out, left_err}
use rust_subprocess.Communicate.Gather.Owed.{owed_out, owed_err}
use rust_subprocess.Communicate.Gather.Soundness.{GoodEnd}
use rust_subprocess.Communicate.Gather.Shares.{Shares, read-Shared}
use rust_subprocess.Communicate.Gather.Handing.{IsSound, handed}
use rust_subprocess.Communicate.Gather.Sessions.{Ended, read-Ended}

owed_left : (r : Reader) → is_reading r ≡ false → owed r ≡ []
owed_left (reading outfile) e = cc
owed_left Reader.left e = refl

inactive :
    (rx : Receiver) → active rx ≡ 0 → (is_reading rx.output ≡ false) × (is_reading rx.error ≡ false)
inactive rx e = (ground (arith, e), ground (arith, e))

-- Nothing is owed where no thread is left.
nothing_owed :
    (comm : RawCommunicator)
    → active comm.rx ≡ 0
    → comm.leftover ≡ none
    → (owed_out comm ≡ []) × (owed_err comm ≡ [])
nothing_owed comm e free =
    let (o, x) = inactive comm.rx e in
    (
      cc (ap left_out free, owed_left comm.rx.output o),
      cc (ap left_err free, owed_left comm.rx.error x),
    )

abbrev Whole : RawCommunicator → Capture × RawCommunicator → Type 0
Whole comm (c, comm') =
    (c.error ≡ none)
    × (unwrap_or c.stdout [] ≡ owed_out comm)
    × (unwrap_or c.stderr [] ≡ owed_err comm)
    × (comm'.helper_set ≡ 0)

handed-Whole :
    (comm : RawCommunicator) (has_out has_err : Bool) (reply : Result (Unit {0}) IoError)
    (g : Gather)
    → GoodEnd none none Unit has_out has_err (reply, g)
    → Shares comm none (handed has_out has_err reply g, g.comm)
    → Whole comm (handed has_out has_err reply g, g.comm)
handed-Whole comm has_out has_err (ok t) g (goes, finished) (out, errs, _) =
    let (over, free) = finished refl in
    let (no_out, no_err) = nothing_owed g.comm (sym goes.announced ∙ over) free in
    let c = handed has_out has_err (ok t) g in
    (
      refl,
      cc (no_out, out, append-nil (unwrap_or c.stdout [])),
      cc (no_err, errs, append-nil (unwrap_or c.stderr [])),
      over,
    )
handed-Whole comm has_out has_err (err e) g (asked, after) shares =
    let (_, _, late) = after tt in cc

-- From a sound communicator whose threads end without an error, with more fuel than messages: in
-- whatever order the messages arrive, a `read` without a deadline and without a size limit returns
-- no error and all that is owed of both outputs, and the set of helpers is empty then.
pub read-Whole :
    (schedule : Schedule) (fuel : ℕ) (comm : RawCommunicator)
    → IsSound comm
    → AllClean comm.rx
    → AllClose comm.rx
    → messages comm.rx < fuel
    → Delivers (Whole comm) (read schedule fuel none none comm)
read-Whole schedule fuel comm sound clean closes enough =
    Delivers-map (λ t. Ended schedule fuel none none Unit comm sound t × Shares comm none t)
      (Whole comm) (read schedule fuel none none comm)
      (Delivers-Gives (Ended schedule fuel none none Unit comm sound) (Shares comm none)
        (read schedule fuel none none comm)
        (read-Ended schedule fuel none none Unit comm sound (λ e. cc) (λ _. closes) (λ _. clean)
          enough)
        (read-Shared schedule fuel none none comm refl))
      λ t (e, shares). subst (Whole comm) (sym e.captured) (
        handed-Whole comm sound.has_out sound.has_err e.reply e.gather e.well
          (subst (Shares comm none) e.captured shares))
