-- ===== src/Builder/Pipeline/Linking.antt =====
-- `Pipeline::popen` of src/builder.rs on commands that have no redirections of their own.
use rust_subprocess.Prelude.{
  ℕ, ◌≡◌, refl, false, List, [], ◌∷◌, map, Option, none, some, arith, ltb, length, returned,
  and_then, Delivers,
}
use rust_subprocess.Popen.Streams.{Redirection, no_redirection}
use rust_subprocess.Builder.Exec.{
  Exec, as_redirection, into_input, set_once, Creator, stdin, stdout, stderr,
}
use rust_subprocess.Builder.Pipeline.Calls.{Creations, CreationLaws, LinkedAfter, plain, dressed}
use rust_subprocess.Builder.Pipeline.Starting.{shaped, with_input, start_all-Linked}
use rust_subprocess.Builder.Pipeline.{
  Pipeline, share_stderr, set_first, set_last, prepare_cmds, start_pipeline,
}

share_stderr-dressed :
    (err_file : Option ℕ) (cs : List Exec)
    → share_stderr err_file (map plain cs) ≡ returned (map (dressed err_file no_redirection) cs)
unfolding share_stderr stderr set_once
share_stderr-dressed none cs = refl
share_stderr-dressed (some f) [] = refl
share_stderr-dressed (some f) (c ∷ cs) = rw (share_stderr-dressed (some f) cs) refl

module _ {os : Creator} (cr : Creations os) where
  open os use {World}

  module _ (laws : CreationLaws cr) (err_file : Option ℕ) (final : Redirection) where
    set_last-shaped :
        (c : Exec) (cs : List Exec)
        → set_last final (map (dressed err_file no_redirection) (c ∷ cs))
          ≡ returned (shaped cr laws err_file final (c ∷ cs))
    unfolding set_last shaped stdout set_once
    set_last-shaped c [] = refl
    set_last-shaped c (d ∷ cs) = rw (set_last-shaped d cs) refl

    -- What `popen` makes of the commands before it starts the first.
    prepared :
        (c d : Exec) (cs : List Exec) (r : Redirection)
        → into_input r ≡ returned (as_redirection r)
        → and_then
            (share_stderr err_file (map plain (c ∷ d ∷ cs)))
            (λ shared_cmds. and_then (set_first r shared_cmds) (set_last final))
          ≡ returned
              (with_input cr laws err_file final r (shaped cr laws err_file final (c ∷ d ∷ cs)))
    unfolding set_first stdin set_once shaped with_input set_last
    prepared c d cs r e =
        rw (share_stderr-dressed err_file (c ∷ d ∷ cs), e, set_last-shaped d cs) refl

  -- If `create` gives the parent an end for an output to a pipe, and for an input exactly if it is
  -- from a pipe: a pipeline of two commands or more
  -- that have no redirections and no input data of their own is started without a panic, unless its
  -- own input is a merge or data. If all calls of `create` succeed, these are one for each command,
  -- in order and with its arguments: the first has the pipeline's input, each other the output of
  -- the one before it, all but the last write to a pipe, the last has the pipeline's output, and
  -- all have its stderr file. The processes are those of the calls, in order, the parent's ends of the
  -- pipes between them taken out.
  pub start_pipeline-Linked :
      CreationLaws cr
      → (p : Pipeline) (c d : Exec) (cs : List Exec) (w : World) → p.stdin_data ≡ none
      → p.cmds ≡ map plain (c ∷ d ∷ cs)
      → into_input p.stdin ≡ returned (as_redirection p.stdin)
      → Delivers
          (LinkedAfter cr p.stderr_file p.stdout p.stdin (c ∷ d ∷ cs) [] w)
          (start_pipeline os p w)
  unfolding start_pipeline prepare_cmds
  start_pipeline-Linked laws p c d cs w no_data same no_merge =
      let ready : prepare_cmds p
          ≡ returned (
              with_input cr laws p.stderr_file p.stdout p.stdin
                (shaped cr laws p.stderr_file p.stdout (c ∷ d ∷ cs))) =
        rw same (prepared laws p.stderr_file p.stdout c d cs p.stdin no_merge) in
      let enough : ltb (length p.cmds) 2 ≡ false = rw same (ground arith) in
      rw (no_data, enough, ready) (start_all-Linked cr laws p.stderr_file p.stdout c d cs p.stdin w)
