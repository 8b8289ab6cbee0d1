-- ===== src/Communicate/Gather/Soundness.antt =====
-- The streams that a Windows communicator was asked for (src/communicate.rs), beside its threads.
use rust_subprocess.Prelude.{
  ℕ, List, [], ◌∷◌, ◌++◌, Bool, true, false, Option, none, some, ◌≡◌, refl, sym, subst, Bytes,
  is_none, ok, err, append-nil,
}
use rust_subprocess.Communicate.ReadLoop.{timeout_error}
use rust_subprocess.Communicate.Helpers.{
  StreamIdent, stream_in, stream_out, stream_err, Payload, Receiver, bits, is_reading,
}
use rust_subprocess.Communicate.Helpers.Messages.{out_part, err_part, Sent}
use rust_subprocess.Communicate.Helpers.Arrivals.{
  active, AllClose, AllClean, IsFrom, Sent-out_was, Sent-err_was,
}
use rust_subprocess.Communicate.Helpers.Receives.{counted}
use rust_subprocess.Communicate.Gather.{Gather, Ending}
use rust_subprocess.Communicate.Gather.Growth.{left_out, left_err, IsOf, HasRoom, Grown}

nil-of-append : {A : Type 0} (xs ys : List A) → xs ++ ys ≡ [] → xs ≡ []
nil-of-append [] ys e = refl
nil-of-append (x ∷ xs) ys e = cc

module _ (has_out has_err : Bool) where
  -- The stream is one of the requested outputs.
  abbrev pub IsAsked : StreamIdent → Type 0
  IsAsked stream_in = ⊥
  IsAsked stream_out = has_out ≡ true
  IsAsked stream_err = has_err ≡ true

  abbrev pub LeftIsAsked : Option (StreamIdent × Bytes) → Type 0
  LeftIsAsked none = Unit
  LeftIsAsked (some (ident, chunk)) = IsAsked ident

  IsOf-LeftIsAsked :
      (ident : StreamIdent) (leftover : Option (StreamIdent × Bytes))
      → IsOf ident leftover
      → IsAsked ident
      → LeftIsAsked leftover
  IsOf-LeftIsAsked ident none e a = tt
  IsOf-LeftIsAsked ident (some (other, chunk)) e a = subst IsAsked (sym e) a

  -- Threads, leftover and vectors of no other output than a requested one.
  pub record Asked (g : Gather) : Type 0 where
    pub requested : g.comm.requested_streams ≡ bits false has_out has_err
    pub out_asked : is_reading g.comm.rx.output ≡ true → has_out ≡ true
    pub err_asked : is_reading g.comm.rx.error ≡ true → has_err ≡ true
    pub out_empty : has_out ≡ false → g.outvec ≡ []
    pub err_empty : has_err ≡ false → g.errvec ≡ []
    pub left_asked : LeftIsAsked g.comm.leftover

  pub IsFrom-IsAsked :
      (ident : StreamIdent) (g : Gather)
      → Asked g
      → IsFrom ident (counted g.comm.rx)
      → IsAsked ident
  IsFrom-IsAsked stream_in g a f = f
  IsFrom-IsAsked stream_out g a f = a.out_asked f
  IsFrom-IsAsked stream_err g a f = a.err_asked f

  out_none :
      (ident : StreamIdent) (chunk : Bytes)
      → IsAsked ident
      → has_out ≡ false
      → out_part ident chunk ≡ []
  out_none stream_in chunk a e = refl
  out_none stream_out chunk a e = cc
  out_none stream_err chunk a e = refl

  err_none :
      (ident : StreamIdent) (chunk : Bytes)
      → IsAsked ident
      → has_err ≡ false
      → err_part ident chunk ≡ []
  err_none stream_in chunk a e = refl
  err_none stream_out chunk a e = refl
  err_none stream_err chunk a e = cc

  pub Grown-Asked :
      (size_limit : Option ℕ) (ident : StreamIdent) (chunk : Bytes) (g g' : Gather) (more : Bool)
      → Asked g
      → IsAsked ident
      → Grown size_limit ident chunk g more g'
      → Asked g'
  Grown-Asked size_limit ident chunk g g' more a is gr = record {
    requested = cc (gr.same_requested, a.requested);
    out_asked = λ h. a.out_asked (rw gr.same_rx at h);
    err_asked = λ h. a.err_asked (rw gr.same_rx at h);
    out_empty = λ e.
        nil-of-append g'.outvec (left_out g'.comm.leftover)
          (cc (gr.out, a.out_empty e, out_none ident chunk is e, append-nil g.outvec));
    err_empty = λ e.
        nil-of-append g'.errvec (left_err g'.comm.leftover)
          (cc (gr.errs, a.err_empty e, err_none ident chunk is e, append-nil g.errvec));
    left_asked = IsOf-LeftIsAsked ident g'.comm.leftover gr.of_stream is;
  }

  pub Sent-Asked :
      (ident : StreamIdent) (payload : Payload) (g : Gather) (rx : Receiver)
      → Asked g
      → Sent ident payload (counted g.comm.rx) rx
      → Asked (record g { comm = record g.comm { rx = rx } })
  Sent-Asked ident payload g rx a s = record {
    requested = a.requested;
    out_asked = λ h. a.out_asked (Sent-out_was (counted g.comm.rx) rx ident payload s h);
    err_asked = λ h. a.err_asked (Sent-err_was (counted g.comm.rx) rx ident payload s h);
    out_empty = a.out_empty;
    err_empty = a.err_empty;
    left_asked = a.left_asked;
  }

module _ (deadline size_limit : Option ℕ) (Cleans : Type 0) (has_out has_err : Bool) where
  -- What holds whenever `read_into` can go on with the communicator.
  pub record Goes (g : Gather) : Type 0 where
    pub asked : Asked has_out has_err g
    pub announced : g.comm.helper_set ≡ active g.comm.rx
    pub alive : is_none deadline ≡ true → AllClose g.comm.rx
    pub clean : Cleans → AllClean g.comm.rx

  pub record Turning (g : Gather) : Type 0 where
    pub goes : Goes g
    pub free : g.comm.leftover ≡ none
    pub room : HasRoom size_limit g

  -- A success, an error of a thread, or a timeout.
  abbrev pub GoodEnd : Ending → Type 0
  GoodEnd (ok _, g) =
      Goes g × (HasRoom size_limit g → (g.comm.helper_set ≡ 0) × (g.comm.leftover ≡ none))
  GoodEnd (err e, g) =
      Asked has_out has_err g × (Cleans → Goes g × (e ≡ timeout_error) × (is_none deadline ≡ false))
