-- ===== src/Builder/Pipeline/Starting.antt =====
-- The loop of `Pipeline::popen` (src/builder.rs), seen by its calls of `create`.
use rust_subprocess.Prelude.{
  ℕ, ◌≡◌, refl, ◌∙◌, List, [], ◌∷◌, ◌++◌, append_assoc, Option, none, some, Result, ok, err, Run,
  returned, panicked, unfinished, and_then, Delivers,
}
use rust_subprocess.Popen.State.{Popen, PopenError}
use rust_subprocess.Popen.Streams.{Redirection, no_redirection, pipe, file}
use rust_subprocess.Builder.Exec.{Exec, set_once, Creator, popen, stdin, stdout}
use rust_subprocess.Builder.Pipeline.{Started, pipe_unless_last, prepend, start_rest, start_all}
use rust_subprocess.Builder.Pipeline.Calls.{
  Creations, HasInput, config_of, dressed, processes-more, CreateReply, CreationLaws, LinkedAfter,
}

module _ {os : Creator} (cr : Creations os) where
  open os use {World, create}
  open cr use {log}

  module _ (laws : CreationLaws cr) (err_file : Option ℕ) (final : Redirection) where
    -- The commands as `popen` has prepared them, but for the first one's input.
    unfoldable pub shaped : List Exec → List Exec
    shaped [] = []
    shaped (c ∷ []) = dressed err_file final c ∷ []
    shaped (c ∷ d ∷ cs) = dressed err_file no_redirection c ∷ shaped (d ∷ cs)

    prepended :
        (p : Popen) (c d : Exec) (cs : List Exec) (r : Redirection) (fd : ℕ) (w w1 : World)
        (q : Popen)
        → log w1 ≡ log w ++ (c.command ∷ c.args, config_of err_file c r pipe, q) ∷ []
        → HasInput (config_of err_file c r pipe) q
        → q.stdout ≡ some fd
        → (s : Run (Result (List Popen) PopenError × World))
        → Delivers
            (LinkedAfter cr err_file final (file fd) (d ∷ cs) (record q { stdout = none } ∷ []) w1)
            s
        → Delivers
            (LinkedAfter cr err_file final r (c ∷ d ∷ cs) (p ∷ []) w)
            (and_then s (prepend os p))
    prepended p c d cs r fd w w1 q logged input has (returned (ok ps, w'))
          (calls, more, linked, same) =
        (
          (c.command ∷ c.args, config_of err_file c r pipe, q) ∷ calls,
          more ∙ rw (logged, append_assoc) refl,
          (refl, refl, input, (fd, has, linked)),
          rw
              (
                processes-more err_file final (file fd) d cs
                    (c.command ∷ c.args, config_of err_file c r pipe, q) calls linked,
                same,
              )
              refl,
        )
    prepended p c d cs r fd w w1 q logged input has (returned (err e, w')) h = tt
    prepended p c d cs r fd w w1 q logged input has panicked h = absurd h
    prepended p c d cs r fd w w1 q logged input has unfinished h = absurd h

    last_started :
        (c : Exec) (r : Redirection) (prev : Popen) (w : World)
        (t : Result Popen PopenError × World)
        → CreateReply cr (c.command ∷ c.args) (config_of err_file c r final) w t
        → Delivers
            (LinkedAfter cr err_file final r (c ∷ []) (prev ∷ []) w)
            (elim t.0 as (λ _. Started os) [
              | err e ↦ returned (err e, t.1)
              | ok p ↦ and_then (start_rest os p [] t.1) (prepend os prev)
            ])
    unfolding start_rest
    last_started c r prev w (ok p, w') (logged, input, has) = (
      (c.command ∷ c.args, config_of err_file c r final, p) ∷ [],
      logged,
      (refl, refl, input),
      refl,
    )
    last_started c r prev w (err e, w') h = tt

    next_started :
        (c d : Exec) (cs : List Exec) (r : Redirection) (prev : Popen) (w : World)
        (t : Result Popen PopenError × World)
        → CreateReply cr (c.command ∷ c.args) (config_of err_file c r pipe) w t
        → ((p : Popen) (fd : ℕ) (w1 : World)
            → p.stdout ≡ some fd
            → Delivers
                (LinkedAfter cr err_file final
                  (file fd)
                  (d ∷ cs)
                  (record p { stdout = none } ∷ [])
                  w1)
                (start_rest os p (shaped (d ∷ cs)) w1))
        → Delivers
            (LinkedAfter cr err_file final r (c ∷ d ∷ cs) (prev ∷ []) w)
            (elim t.0 as (λ _. Started os) [
              | err e ↦ returned (err e, t.1)
              | ok p ↦ and_then (start_rest os p (shaped (d ∷ cs)) t.1) (prepend os prev)
            ])
    next_started c d cs r prev w (ok p, w1) (logged, input, has) again =
        let (fd, e) = has refl in
        prepended prev c d cs r fd w w1 p logged input e (start_rest os p (shaped (d ∷ cs)) w1)
          (again p fd w1 e)
    next_started c d cs r prev w (err e, w') h again = tt

    not_last :
        (d : Exec) (cs : List Exec) (runner : Exec)
        → pipe_unless_last os (shaped (d ∷ cs)) runner ≡ stdout runner pipe
    unfolding pipe_unless_last shaped
    not_last d [] runner = refl
    not_last d (c ∷ cs) runner = refl

    start_rest-Linked :
        (cs : List Exec) (c : Exec) (prev : Popen) (fd : ℕ) (w : World)
        → prev.stdout ≡ some fd
        → Delivers
            (LinkedAfter cr err_file final
              (file fd)
              (c ∷ cs)
              (record prev { stdout = none } ∷ [])
              w)
            (start_rest os prev (shaped (c ∷ cs)) w)
    unfolding start_rest pipe_unless_last stdin stdout set_once popen shaped
    start_rest-Linked [] c prev fd w e =
        rw (e, start_rest)
          (last_started c (file fd) (record prev { stdout = none }) w _
            (laws.replies (c.command ∷ c.args) (config_of err_file c (file fd) final) w))
    start_rest-Linked (d ∷ cs) c prev fd w e =
        rw (e, start_rest, not_last d cs)
          (next_started c d cs (file fd) (record prev { stdout = none }) w _
            (laws.replies (c.command ∷ c.args) (config_of err_file c (file fd) pipe) w)
            λ p fd' w1 e'. start_rest-Linked cs d p fd' w1 e')

    followed :
        (c d : Exec) (cs : List Exec) (r : Redirection) (fd : ℕ) (w w1 : World) (q : Popen)
        → log w1 ≡ log w ++ (c.command ∷ c.args, config_of err_file c r pipe, q) ∷ []
        → HasInput (config_of err_file c r pipe) q
        → q.stdout ≡ some fd
        → (s : Run (Result (List Popen) PopenError × World))
        → Delivers
            (LinkedAfter cr err_file final (file fd) (d ∷ cs) (record q { stdout = none } ∷ []) w1)
            s
        → Delivers (LinkedAfter cr err_file final r (c ∷ d ∷ cs) [] w) s
    followed c d cs r fd w w1 q logged input has (returned (ok ps, w'))
          (calls, more, linked, same) =
        (
          (c.command ∷ c.args, config_of err_file c r pipe, q) ∷ calls,
          more ∙ rw (logged, append_assoc) refl,
          (refl, refl, input, (fd, has, linked)),
          rw
              (
                processes-more err_file final (file fd) d cs
                    (c.command ∷ c.args, config_of err_file c r pipe, q) calls linked,
                same,
              )
              refl,
        )
    followed c d cs r fd w w1 q logged input has (returned (err e, w')) h = tt
    followed c d cs r fd w w1 q logged input has panicked h = absurd h
    followed c d cs r fd w w1 q logged input has unfinished h = absurd h

    first_started :
        (c d : Exec) (cs : List Exec) (r : Redirection) (w : World)
        (t : Result Popen PopenError × World)
        → CreateReply cr (c.command ∷ c.args) (config_of err_file c r pipe) w t
        → Delivers
            (LinkedAfter cr err_file final r (c ∷ d ∷ cs) [] w)
            (elim t.0 as (λ _. Started os) [
              | err e ↦ returned (err e, t.1)
              | ok p ↦ start_rest os p (shaped (d ∷ cs)) t.1
            ])
    first_started c d cs r w (ok p, w1) (logged, input, has) =
        let (fd, e) = has refl in
        followed c d cs r fd w w1 p logged input e (start_rest os p (shaped (d ∷ cs)) w1)
          (start_rest-Linked cs d p fd w1 e)
    first_started c d cs r w (err e, w') h = tt

    -- The first command's input is set before.
    unfoldable pub with_input : Redirection → List Exec → List Exec
    with_input r [] = []
    with_input r (c ∷ cs) = record c { config = record c.config { stdin = r } } ∷ cs

    pub start_all-Linked :
        (c d : Exec) (cs : List Exec) (r : Redirection) (w : World)
        → Delivers
            (LinkedAfter cr err_file final r (c ∷ d ∷ cs) [] w)
            (start_all os (with_input r (shaped (c ∷ d ∷ cs))) w)
    unfolding start_all with_input shaped stdout set_once popen
    start_all-Linked c d cs r w = rw (not_last d cs) (
        first_started c d cs r w _
          (laws.replies (c.command ∷ c.args) (config_of err_file c r pipe) w))
