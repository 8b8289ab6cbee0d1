-- ===== src/Communicate/Gather/Totality.antt =====
-- `read` of src/communicate.rs (Windows), from a communicator whose threads are announced.
use rust_subprocess.Prelude.{
  ℕ, ◌<◌, Bool, true, false, Option, none, some, ◌≡◌, refl, ◌∙◌, subst, ==_iff, Bytes, returned,
  Delivers, Gives-Delivers, and_then-Delivers, if◌then◌else◌, ok,
}
use rust_subprocess.Communicate.Helpers.{StreamIdent, Schedule, recv_until}
use rust_subprocess.Communicate.Helpers.Receives.{
  Receives, counted, recv_until-Receives, recv_until-Returns,
}
use rust_subprocess.Communicate.Helpers.Arrivals.{messages}
use rust_subprocess.Communicate.Gather.{
  Gather, Ending, grow_result, use_leftover, receive, read_into,
}
use rust_subprocess.Communicate.Gather.Growth.{HasRoom}
use rust_subprocess.Communicate.Gather.Receiving.{receive-Delivers}
use rust_subprocess.Communicate.Gather.Soundness.{IsAsked, LeftIsAsked}
use rust_subprocess.Communicate.Gather.Safety.{
  IsGoing, IsTurning, EndsWell, left_messages, GrownWell, taken-Goes, grow_result-GrownWell,
  handle-Advances,
}

module _ (schedule : Schedule) (fuel : ℕ) (deadline size_limit : Option ℕ) (Cleans : Type 0)
    (has_out has_err : Bool) where
  abbrev Going : Gather → Type 0
  Going = IsGoing deadline size_limit Cleans has_out has_err

  abbrev Turns : Gather → Type 0
  Turns = IsTurning deadline size_limit Cleans has_out has_err

  abbrev Ends : Ending → Type 0
  Ends = EndsWell deadline size_limit Cleans has_out has_err

  receive-Ends :
      (g : Gather)
      → Turns g
      → messages g.comm.rx < fuel
      → Delivers Ends (receive schedule fuel deadline size_limit g)
  receive-Ends g t h =
      receive-Delivers schedule deadline size_limit Turns Ends
        (λ g t over. (t.goes, λ _. ((==_iff g.comm.helper_set 0).0 over, t.free)))
        (left_messages deadline size_limit Cleans has_out has_err)
        (λ g t more.
          handle-Advances deadline size_limit Cleans has_out has_err g
            (recv_until schedule deadline g.comm.rx) t
            (Gives-Delivers (Receives deadline (counted g.comm.rx))
              (recv_until schedule deadline g.comm.rx)
              (recv_until-Receives schedule deadline g.comm.rx)
              (recv_until-Returns schedule deadline g.comm.rx
                (λ z. let full = (==_iff g.comm.helper_set 0).1 (t.goes.announced ∙ z) in cc)
                t.goes.alive)))
        fuel g t h

  abbrev Used : Gather → Bool × Gather → Type 0
  Used g t = GrownWell deadline size_limit Cleans has_out has_err t × (t.1.comm.rx ≡ g.comm.rx)

  use_leftover-Used :
      (g : Gather) → Going g → HasRoom size_limit g → Delivers (Used g) (use_leftover size_limit g)
  unfolding use_leftover
  use_leftover-Used g h room = at g.comm.leftover refl
    where
      at :
          (o : Option (StreamIdent × Bytes))
          → g.comm.leftover ≡ o
          → Delivers (Used g) (elim o [
            | none ↦ returned (true, g)
            | some (ident, chunk) ↦
                grow_result size_limit ident chunk
                  (record g { comm = record g.comm { leftover = none } })
          ])
      at none e = (record { goes = h; free = e; room = room }, refl)
      at (some (ident, chunk)) e =
          let is : IsAsked has_out has_err ident =
            subst (LeftIsAsked has_out has_err) e h.asked.left_asked in
          grow_result-GrownWell deadline size_limit Cleans has_out has_err ident chunk
            (record g { comm = record g.comm { leftover = none } })
            (taken-Goes deadline size_limit Cleans has_out has_err g h) refl room is

  pub read_into-Ends :
      (g : Gather)
      → Going g
      → HasRoom size_limit g
      → messages g.comm.rx < fuel
      → Delivers Ends (read_into schedule fuel deadline size_limit g)
  unfolding read_into
  read_into-Ends g h room enough =
      and_then-Delivers (Used g) Ends (use_leftover size_limit g) _ (use_leftover-Used g h room)
        used
    where
      used :
          (u : Bool × Gather)
          → Used g u
          → Delivers Ends
              (if u.0 then receive schedule fuel deadline size_limit u.1 else returned (ok tt, u.1))
      used (true, g') (t, same) = receive-Ends g' t (rw same enough)
      used (false, g') (well, same) = well
