-- ===== src/Communicate/Gather/Shares.antt =====
-- What one call of `read` hands out (src/communicate.rs, Windows).
use rust_subprocess.Prelude.{
  ℕ, ◌+◌, [], ◌∷◌, ◌++◌, Option, none, some, ◌≡◌, ◌≢◌, refl, arith, ◌==◌, Bytes, Result, IoError,
  unwrap_or, returned, Gives, and_then-Gives, Gives-map, length, Bool-cases, inl, inr, suc, zero,
  subst,
}
use rust_subprocess.Communicate.ReadLoop.{Capture}
use rust_subprocess.Communicate.ReadLoop.Limit.{held}
use rust_subprocess.Communicate.Helpers.{
  StreamIdent, stream_out, stream_err, Schedule, RawCommunicator, common,
}
use rust_subprocess.Communicate.Gather.{Gather, read_into, hand_out, capture, start, read, error_of}
use rust_subprocess.Communicate.Gather.Growth.{HasRoom, Within}
use rust_subprocess.Communicate.Gather.Owed.{owed_out, owed_err, HeldEnd, read_into-HeldEnd}

-- A vector as it is handed out.
abbrev pub Hands : Bytes → Option Bytes → Type 0
Hands v o = (unwrap_or o [] ≡ v) × (held o ≡ length v)

pub hand_out-Hands :
    (ident : StreamIdent) (requested : ℕ) (v : Bytes) → Gives (Hands v) (hand_out ident requested v)
hand_out-Hands ident requested [] = elim (Bool-cases (common ident requested == 0)) [
  | inl e ↦ rw e (refl, refl)
  | inr e ↦ rw e (refl, refl)
]
hand_out-Hands ident requested (x ∷ xs) = elim (Bool-cases (common ident requested == 0)) [
  | inl e ↦ rw e tt
  | inr e ↦ rw e (refl, refl)
]

-- The vectors and the communicator of an ending, as they are handed out.
pub record Captured (reply : Result (Unit {0}) IoError) (g : Gather) (t : Capture × RawCommunicator)
    : Type 0 where
  pub out : Hands g.outvec t.0.stdout
  pub errs : Hands g.errvec t.0.stderr
  pub error : t.0.error ≡ error_of reply
  pub same : t.1 ≡ g.comm

pub capture-Captured :
    (reply : Result (Unit {0}) IoError) (g : Gather) → Gives (Captured reply g) (capture (reply, g))
unfolding capture
capture-Captured reply g =
    let requested = g.comm.requested_streams in
    and_then-Gives (Hands g.outvec) (Captured reply g) (hand_out stream_out requested g.outvec) _
      (hand_out-Hands stream_out requested g.outvec)
      λ o ho.
        and_then-Gives (Hands g.errvec) (Captured reply g) (hand_out stream_err requested g.errvec)
          _ (hand_out-Hands stream_err requested g.errvec)
          λ e he. record { out = ho; errs = he; error = refl; same = refl }

abbrev pub Shares : RawCommunicator → Option ℕ → Capture × RawCommunicator → Type 0
Shares comm size_limit (c, comm') =
    (unwrap_or c.stdout [] ++ owed_out comm' ≡ owed_out comm)
    × (unwrap_or c.stderr [] ++ owed_err comm' ≡ owed_err comm)
    × Within size_limit (held c.stdout + held c.stderr)

Captured-Shares :
    (comm : RawCommunicator) (size_limit : Option ℕ) (reply : Result (Unit {0}) IoError)
    (g : Gather) (t : Capture × RawCommunicator)
    → HeldEnd (owed_out comm) (owed_err comm) size_limit (reply, g)
    → Captured reply g t
    → Shares comm size_limit t
Captured-Shares comm size_limit reply g (c, comm') (h, within) cap = (
  rw (cap.same, cap.out.0) h.out,
  rw (cap.same, cap.errs.0) h.errs,
  rw (cap.out.1, cap.errs.1) within,
)

pub read-Shared :
    (schedule : Schedule) (fuel : ℕ) (deadline size_limit : Option ℕ) (comm : RawCommunicator)
    → HasRoom size_limit (start comm)
    → Gives (Shares comm size_limit) (read schedule fuel deadline size_limit comm)
unfolding read
read-Shared schedule fuel deadline size_limit comm room =
    and_then-Gives (HeldEnd (owed_out comm) (owed_err comm) size_limit) (Shares comm size_limit)
      (read_into schedule fuel deadline size_limit (start comm)) _
      (read_into-HeldEnd (owed_out comm) (owed_err comm) size_limit schedule fuel deadline
        (start comm) (record { out = refl; errs = refl }) room)
      λ ending h.
        Gives-map (Captured ending.0 ending.1) (Shares comm size_limit) (capture ending)
          (capture-Captured ending.0 ending.1)
          (λ t. Captured-Shares comm size_limit ending.0 ending.1 t h)

pub limit_HasRoom :
    (size_limit : Option ℕ) (comm : RawCommunicator)
    → size_limit ≢ some 0
    → HasRoom size_limit (start comm)
limit_HasRoom none comm h = refl
limit_HasRoom (some zero) comm h = absurd (h refl)
limit_HasRoom (some (suc n)) comm h = ground arith

-- With any size limit but zero, in whatever order the helper threads' messages arrive and however
-- `read` ends: each output that it returns, followed by what the communicator still owes of that
-- stream, is what it owed before, and the two outputs hold together no more than the limit.
pub read-Shares :
    (schedule : Schedule) (fuel : ℕ) (deadline size_limit : Option ℕ) (comm comm' : RawCommunicator)
    (c : Capture)
    → size_limit ≢ some 0
    → read schedule fuel deadline size_limit comm ≡ returned (c, comm')
    → (unwrap_or c.stdout [] ++ owed_out comm' ≡ owed_out comm)
      × (unwrap_or c.stderr [] ++ owed_err comm' ≡ owed_err comm)
      × Within size_limit (held c.stdout + held c.stderr)
read-Shares schedule fuel deadline size_limit comm comm' c h e =
    subst (Gives (Shares comm size_limit)) e
      (read-Shared schedule fuel deadline size_limit comm (limit_HasRoom size_limit comm h))
