-- ===== src/Communicate/Gather/Safety.antt =====
-- One turn of the loop of `read_into` (src/communicate.rs, Windows) that is neither stuck nor a panic.
use rust_subprocess.Prelude.{
  ℕ, [], ◌∷◌, ◌<◌, Bool, true, false, Option, none, ◌≡◌, ◌≢◌, refl, ap, subst, Bytes, Run, returned,
  panicked, unfinished, Delivers, Gives-Delivers, Result, ok, err,
}
use rust_subprocess.Communicate.Helpers.{
  StreamIdent, stream_in, Payload, bytes, eof, io_err, Message, Receiver, Timeout, remove,
}
use rust_subprocess.Communicate.Helpers.Messages.{Sent}
use rust_subprocess.Communicate.Helpers.Receives.{Receives, counted}
use rust_subprocess.Communicate.Helpers.Arrivals.{
  active, messages, Sent-AllClose, Sent-AllClean, Sent-no-IsError, Sent-fewer, Sent-eof,
  Sent-proper, Sent-bytes,
}
use rust_subprocess.Communicate.Gather.{Gather, Ending, handle, grow_result, unless_full}
use rust_subprocess.Communicate.Gather.Growth.{
  HasRoom, Grown, GrownAs, grow_result-Grown, grow_result-Returns,
}
use rust_subprocess.Communicate.Gather.Receiving.{Advances}
use rust_subprocess.Communicate.Gather.Soundness.{
  IsAsked, IsFrom-IsAsked, Grown-Asked, Sent-Asked, Goes, Turning, GoodEnd,
}

module _ (deadline size_limit : Option ℕ) (Cleans : Type 0) (has_out has_err : Bool) where
  abbrev pub IsGoing : Gather → Type 0
  IsGoing g = Goes deadline size_limit Cleans has_out has_err g

  abbrev pub IsTurning : Gather → Type 0
  IsTurning g = Turning deadline size_limit Cleans has_out has_err g

  abbrev pub EndsWell : Ending → Type 0
  EndsWell e = GoodEnd deadline size_limit Cleans has_out has_err e

  abbrev pub left_messages : Gather → ℕ
  left_messages g = messages g.comm.rx

  -- What a message changes of the threads.
  Sent-Goes :
      (ident : StreamIdent) (payload : Payload) (g : Gather) (rx : Receiver) (set : ℕ)
      → IsGoing g
      → Sent ident payload (counted g.comm.rx) rx
      → set ≡ active rx
      → IsGoing (record g { comm = record g.comm { rx = rx; helper_set = set } })
  Sent-Goes ident payload g rx set h s e =
      let a = Sent-Asked has_out has_err ident payload g rx h.asked s in
      record {
        asked = record {
          requested = a.requested;
          out_asked = a.out_asked;
          err_asked = a.err_asked;
          out_empty = a.out_empty;
          err_empty = a.err_empty;
          left_asked = a.left_asked;
        };
        announced = e;
        alive = λ n. Sent-AllClose (counted g.comm.rx) rx ident payload s (h.alive n);
        clean = λ c. Sent-AllClean (counted g.comm.rx) rx ident payload s (h.clean c);
      }

  same-Goes :
      (g : Gather) (rx : Receiver)
      → IsGoing g
      → rx.input ≡ g.comm.rx.input
      → rx.output ≡ g.comm.rx.output
      → rx.error ≡ g.comm.rx.error
      → IsGoing (record g { comm = record g.comm { rx = rx } })
  same-Goes g rx h i o x = record {
    asked = record {
      requested = h.asked.requested;
      out_asked = λ r. h.asked.out_asked (rw o at r);
      err_asked = λ r. h.asked.err_asked (rw x at r);
      out_empty = h.asked.out_empty;
      err_empty = h.asked.err_empty;
      left_asked = h.asked.left_asked;
    };
    announced = rw (i, o, x) h.announced;
    alive = λ n. rw (i, o, x) (h.alive n);
    clean = λ c. rw (i, o, x) (h.clean c);
  }

  -- Without its leftover.
  pub taken-Goes :
      (g : Gather) → IsGoing g → IsGoing (record g { comm = record g.comm { leftover = none } })
  taken-Goes g h = record {
    asked = record {
      requested = h.asked.requested;
      out_asked = h.asked.out_asked;
      err_asked = h.asked.err_asked;
      out_empty = h.asked.out_empty;
      err_empty = h.asked.err_empty;
      left_asked = tt;
    };
    announced = h.announced;
    alive = h.alive;
    clean = h.clean;
  }

  Grown-Goes :
      (ident : StreamIdent) (chunk : Bytes) (g g' : Gather) (more : Bool)
      → IsGoing g
      → IsAsked has_out has_err ident
      → Grown size_limit ident chunk g more g'
      → IsGoing g'
  Grown-Goes ident chunk g g' more h is gr = record {
    asked = Grown-Asked has_out has_err size_limit ident chunk g g' more h.asked is gr;
    announced = cc (gr.same_set, h.announced, ap active gr.same_rx);
    alive = λ n. rw gr.same_rx (h.alive n);
    clean = λ c. rw gr.same_rx (h.clean c);
  }

  IsAsked-ne : (ident : StreamIdent) → IsAsked has_out has_err ident → ident ≢ stream_in
  IsAsked-ne ident is e = subst (IsAsked has_out has_err) e is

  -- A growth goes on from a sound state, or it ends well.
  abbrev pub GrownWell : Bool × Gather → Type 0
  GrownWell (true, g) = IsTurning g
  GrownWell (false, g) = EndsWell (ok tt, g)

  pub grow_result-GrownWell :
      (ident : StreamIdent) (chunk : Bytes) (g : Gather)
      → IsGoing g
      → g.comm.leftover ≡ none
      → HasRoom size_limit g
      → IsAsked has_out has_err ident
      → Delivers
          (λ t. GrownWell t × (t.1.comm.rx ≡ g.comm.rx))
          (grow_result size_limit ident chunk g)
  grow_result-GrownWell ident chunk g h free room is = well (grow_result size_limit ident chunk g) (
      Gives-Delivers (GrownAs size_limit ident chunk g) (grow_result size_limit ident chunk g)
        (grow_result-Grown ident chunk g size_limit free room)
        (grow_result-Returns ident chunk g size_limit (IsAsked-ne ident is)))
    where
      well :
          (r : Run (Bool × Gather))
          → Delivers (GrownAs size_limit ident chunk g) r
          → Delivers (λ t. GrownWell t × (t.1.comm.rx ≡ g.comm.rx)) r
      well (returned (true, g')) gr = (
        record {
          goes = Grown-Goes ident chunk g g' true h is gr;
          free = (gr.goes_on refl).0;
          room = (gr.goes_on refl).1;
        },
        gr.same_rx,
      )
      well (returned (false, g')) gr =
          ((Grown-Goes ident chunk g g' false h is gr, λ r. absurd (gr.stops refl r)), gr.same_rx)
      well panicked gr = absurd gr
      well unfinished gr = absurd gr

  grown-Advances :
      (n : ℕ) (g : Gather) (r : Run (Bool × Gather))
      → left_messages g < n
      → Delivers (λ t. GrownWell t × (t.1.comm.rx ≡ g.comm.rx)) r
      → Advances IsTurning EndsWell left_messages n (unless_full r)
  grown-Advances n g (returned (true, g')) h (turning, same) = (turning, rw same h)
  grown-Advances n g (returned (false, g')) h (well, same) = well
  grown-Advances n g panicked h e = absurd e
  grown-Advances n g unfinished h e = absurd e

  pub handle-Advances :
      (g : Gather) (r : Run (Result Message Timeout × Receiver))
      → IsTurning g
      → Delivers (Receives deadline (counted g.comm.rx)) r
      → Advances IsTurning EndsWell left_messages (left_messages g) (handle size_limit r g)
  unfolding handle
  handle-Advances g panicked t h = absurd h
  handle-Advances g unfinished t h = absurd h
  handle-Advances g (returned (err e, rx)) t (i, o, x, timed) =
      let goes = same-Goes g rx t.goes i o x in (goes.asked, λ _. (goes, refl, timed))
  handle-Advances g (returned (ok (ident, eof), rx)) t s = (
    record {
      goes =
          Sent-Goes ident eof g rx (remove ident g.comm.helper_set) t.goes s
            (cc (t.goes.announced, Sent-eof (counted g.comm.rx) rx ident s));
      free = t.free;
      room = t.room;
    },
    Sent-fewer (counted g.comm.rx) rx ident eof s,
  )
  handle-Advances g (returned (ok (ident, io_err e), rx)) t s = (
    Sent-Asked has_out has_err ident (io_err e) g rx t.goes.asked s,
    λ c. absurd (Sent-no-IsError (counted g.comm.rx) rx ident (io_err e) s (t.goes.clean c) tt),
  )
  handle-Advances g (returned (ok (ident, bytes []), rx)) t s =
      absurd (Sent-proper (counted g.comm.rx) rx ident s)
  handle-Advances g (returned (ok (ident, bytes (b ∷ chunk)), rx)) t s =
      let (same, from) = Sent-bytes (counted g.comm.rx) rx ident (b ∷ chunk) s in
      let g' = record g { comm = record g.comm { rx = rx } } in
      grown-Advances (left_messages g) g' (grow_result size_limit ident (b ∷ chunk) g')
        (Sent-fewer (counted g.comm.rx) rx ident (bytes (b ∷ chunk)) s)
        (grow_result-GrownWell ident (b ∷ chunk) g'
          (Sent-Goes ident (bytes (b ∷ chunk)) g rx g.comm.helper_set t.goes s
            (cc (t.goes.announced, same)))
          t.free t.room (IsFrom-IsAsked has_out has_err ident g t.goes.asked from))
