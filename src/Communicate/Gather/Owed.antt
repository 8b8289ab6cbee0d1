-- ===== src/Communicate/Gather/Owed.antt =====
-- `RawCommunicator::read` of src/communicate.rs (Windows): the bytes on their way from the helper
-- threads to the vectors.
use rust_subprocess.Prelude.{
  ℕ, [], ◌++◌, Bool, true, false, Option, none, some, ◌≡◌, ◌∷◌, refl, ap, arith, append_assoc,
  append-nil, Bytes, Result, ok, err, Run, returned, panicked, unfinished, Gives, if◌then◌else◌,
  and_then-Gives,
}
use rust_subprocess.Communicate.Helpers.{
  StreamIdent, Payload, bytes, eof, io_err, Message, Receiver, Schedule, Timeout, RawCommunicator,
  recv_until,
}
use rust_subprocess.Communicate.Helpers.Threads.{owed, carried}
use rust_subprocess.Communicate.Helpers.Messages.{
  out_part, err_part, out_part-nil, err_part-nil, Sent, Sent-out, Sent-err,
}
use rust_subprocess.Communicate.Gather.{
  Gather, gathered, grow_result, use_leftover, Ending, unless_full, handle, receive, read_into,
}
use rust_subprocess.Communicate.Gather.Growth.{
  left_out, left_err, HasRoom, Within, Grown, GrownAs, grow_result-Grown,
}
use rust_subprocess.Communicate.Helpers.Receives.{Receives, counted, recv_until-Receives}
use rust_subprocess.Communicate.Gather.Receiving.{Keeps, receive-Gives}

-- What a communicator has still to hand out of each output.
abbrev pub owed_out : RawCommunicator → Bytes
owed_out comm = left_out comm.leftover ++ owed comm.rx.output

abbrev pub owed_err : RawCommunicator → Bytes
owed_err comm = left_err comm.leftover ++ owed comm.rx.error

module _ (all_out all_err : Bytes) (size_limit : Option ℕ) where
  pub record Held (g : Gather) : Type 0 where
    pub out : g.outvec ++ owed_out g.comm ≡ all_out
    pub errs : g.errvec ++ owed_err g.comm ≡ all_err

  -- Between two turns nothing is left over, and there is room.
  pub record Between (g : Gather) : Type 0 where
    pub held : Held g
    pub free : g.comm.leftover ≡ none
    pub room : HasRoom size_limit g

  abbrev pub HeldEnd : Ending → Type 0
  HeldEnd (reply, g) = Held g × Within size_limit (gathered g)

  -- A chunk whose bytes come before those that the threads owe.
  pub record Comes (ident : StreamIdent) (chunk : Bytes) (g : Gather) : Type 0 where
    pub out : g.outvec ++ out_part ident chunk ++ owed g.comm.rx.output ≡ all_out
    pub errs : g.errvec ++ err_part ident chunk ++ owed g.comm.rx.error ≡ all_err

  Grown-Held :
      (ident : StreamIdent) (chunk : Bytes) (g g' : Gather) (more : Bool)
      → Comes ident chunk g
      → Grown size_limit ident chunk g more g'
      → Held g'
  Grown-Held ident chunk g g' more c gr = record {
    out = cc (
      append_assoc g'.outvec (left_out g'.comm.leftover) (owed g'.comm.rx.output),
      gr.out,
      ap (λ rx. owed rx.output) gr.same_rx,
      c.out,
    );
    errs = cc (
      append_assoc g'.errvec (left_err g'.comm.leftover) (owed g'.comm.rx.error),
      gr.errs,
      ap (λ rx. owed rx.error) gr.same_rx,
      c.errs,
    );
  }

  HasRoom-Within : (limit : Option ℕ) (g : Gather) → HasRoom limit g → Within limit (gathered g)
  HasRoom-Within none g room = tt
  HasRoom-Within (some limit) g room = ground (arith, room)

  -- Of a growth that goes on, or of one that stops.
  grown-Keeps :
      (ident : StreamIdent) (chunk : Bytes) (g : Gather) (r : Run (Bool × Gather))
      → Comes ident chunk g
      → Gives (GrownAs size_limit ident chunk g) r
      → Keeps Between HeldEnd (unless_full r)
  grown-Keeps ident chunk g (returned (true, g')) c gr = record {
    held = Grown-Held ident chunk g g' true c gr;
    free = (gr.goes_on refl).0;
    room = (gr.goes_on refl).1;
  }
  grown-Keeps ident chunk g (returned (false, g')) c gr =
      (Grown-Held ident chunk g g' false c gr, gr.within)
  grown-Keeps ident chunk g panicked c gr = tt
  grown-Keeps ident chunk g unfinished c gr = tt

  -- A message of a thread owes its bytes to the vectors.
  Sent-Comes :
      (ident : StreamIdent) (payload : Payload) (g : Gather) (rx : Receiver)
      → Between g
      → Sent ident payload (counted g.comm.rx) rx
      → Comes ident (carried payload) (record g { comm = record g.comm { rx = rx } })
  Sent-Comes ident payload g rx b s = record {
    out = cc (
      append_assoc g.outvec (out_part ident (carried payload)) (owed rx.output),
      Sent-out ident payload (counted g.comm.rx) rx s,
      ap left_out b.free,
      b.held.out,
    );
    errs = cc (
      append_assoc g.errvec (err_part ident (carried payload)) (owed rx.error),
      Sent-err ident payload (counted g.comm.rx) rx s,
      ap left_err b.free,
      b.held.errs,
    );
  }

  -- A message without bytes leaves the vectors as they are.
  Sent-Held :
      (ident : StreamIdent) (payload : Payload) (g : Gather) (rx : Receiver)
      → carried payload ≡ []
      → Between g
      → Sent ident payload (counted g.comm.rx) rx
      → Held (record g { comm = record g.comm { rx = rx } })
  Sent-Held ident payload g rx e b s =
      let c = Sent-Comes ident payload g rx b s in
      record {
        out = cc (c.out, ap (out_part ident) e, out_part-nil ident, append-nil g.outvec);
        errs = cc (c.errs, ap (err_part ident) e, err_part-nil ident, append-nil g.errvec);
      }

  handle-Keeps :
      (deadline : Option ℕ) (g : Gather) (r : Run (Result Message Timeout × Receiver))
      → Between g
      → Gives (Receives deadline (counted g.comm.rx)) r
      → Keeps Between HeldEnd (handle size_limit r g)
  unfolding handle
  handle-Keeps deadline g panicked b h = tt
  handle-Keeps deadline g unfinished b h = tt
  handle-Keeps deadline g (returned (err t, rx)) b (same_in, same_out, same_err, _) = (
    record { out = rw same_out b.held.out; errs = rw same_err b.held.errs },
    HasRoom-Within size_limit g b.room,
  )
  handle-Keeps deadline g (returned (ok (ident, eof), rx)) b s = record {
    held = let h = Sent-Held ident eof g rx refl b s in record { out = h.out; errs = h.errs };
    free = b.free;
    room = b.room;
  }
  handle-Keeps deadline g (returned (ok (ident, io_err e), rx)) b s =
      (Sent-Held ident (io_err e) g rx refl b s, HasRoom-Within size_limit g b.room)
  handle-Keeps deadline g (returned (ok (ident, bytes []), rx)) b s = tt
  handle-Keeps deadline g (returned (ok (ident, bytes (x ∷ xs)), rx)) b s =
      let g' = record g { comm = record g.comm { rx = rx } } in
      grown-Keeps ident (x ∷ xs) g' (grow_result size_limit ident (x ∷ xs) g')
        (Sent-Comes ident (bytes (x ∷ xs)) g rx b s)
        (grow_result-Grown ident (x ∷ xs) g' size_limit b.free b.room)

  pub receive-HeldEnd :
      (schedule : Schedule) (fuel : ℕ) (deadline : Option ℕ) (g : Gather)
      → Between g
      → Gives HeldEnd (receive schedule fuel deadline size_limit g)
  receive-HeldEnd schedule fuel deadline g b =
      receive-Gives schedule deadline size_limit Between HeldEnd
        (λ g b over. (b.held, HasRoom-Within size_limit g b.room))
        (λ g b more.
          handle-Keeps deadline g (recv_until schedule deadline g.comm.rx) b
            (recv_until-Receives schedule deadline g.comm.rx))
        fuel g b

  abbrev UsedAs : Bool × Gather → Type 0
  UsedAs (true, g) = Between g
  UsedAs (false, g) = HeldEnd (ok tt, g)

  grown-UsedAs :
      (ident : StreamIdent) (chunk : Bytes) (g : Gather) (r : Run (Bool × Gather))
      → Comes ident chunk g
      → Gives (GrownAs size_limit ident chunk g) r
      → Gives UsedAs r
  grown-UsedAs ident chunk g (returned (true, g')) c gr =
      grown-Keeps ident chunk g (returned (true, g')) c gr
  grown-UsedAs ident chunk g (returned (false, g')) c gr =
      grown-Keeps ident chunk g (returned (false, g')) c gr
  grown-UsedAs ident chunk g panicked c gr = tt
  grown-UsedAs ident chunk g unfinished c gr = tt

  use_leftover-UsedAs :
      (g : Gather) → Held g → HasRoom size_limit g → Gives UsedAs (use_leftover size_limit g)
  unfolding use_leftover
  use_leftover-UsedAs g h room = at g.comm.leftover refl
    where
      at :
          (o : Option (StreamIdent × Bytes))
          → g.comm.leftover ≡ o
          → Gives UsedAs (elim o [
            | none ↦ returned (true, g)
            | some (ident, chunk) ↦
                grow_result size_limit ident chunk
                  (record g { comm = record g.comm { leftover = none } })
          ])
      at none e = record { held = h; free = e; room = room }
      at (some (ident, chunk)) e =
          let g' = record g { comm = record g.comm { leftover = none } } in
          grown-UsedAs ident chunk g' (grow_result size_limit ident chunk g')
            (record {
              out = cc (
                h.out,
                ap left_out e,
                append_assoc g.outvec (out_part ident chunk) (owed g.comm.rx.output),
              );
              errs = cc (
                h.errs,
                ap left_err e,
                append_assoc g.errvec (err_part ident chunk) (owed g.comm.rx.error),
              );
            })
            (grow_result-Grown ident chunk g' size_limit refl room)

  pub read_into-HeldEnd :
      (schedule : Schedule) (fuel : ℕ) (deadline : Option ℕ) (g : Gather)
      → Held g
      → HasRoom size_limit g
      → Gives HeldEnd (read_into schedule fuel deadline size_limit g)
  unfolding read_into
  read_into-HeldEnd schedule fuel deadline g h room =
      and_then-Gives UsedAs HeldEnd (use_leftover size_limit g) _ (use_leftover-UsedAs g h room)
        used
    where
      used :
          (u : Bool × Gather)
          → UsedAs u
          → Gives HeldEnd
              (if u.0 then receive schedule fuel deadline size_limit u.1 else returned (ok tt, u.1))
      used (true, g) b = receive-HeldEnd schedule fuel deadline g b
      used (false, g) b = b
