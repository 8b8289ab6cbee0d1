-- ===== src/Builder/Session/Gathering.antt =====
-- `setup_communicate` of `Pipeline` in src/builder.rs.
use rust_subprocess.Prelude.{
  ℕ, ◌≡◌, refl, sym, ap, ◌∙◌, false, List, [], ◌∷◌, ◌++◌, map, Option, none, some, arith, is_some,
  ltb, length, Bytes, Result, ok, err, IoError, Run, returned, panicked, unfinished, and_then,
  Delivers,
}
use rust_subprocess.Popen.State.{Popen, PopenError, io_error}
use rust_subprocess.Popen.Streams.{Redirection, pipe}
use rust_subprocess.Communicate.Communicator.{Communicator}
use rust_subprocess.Builder.Exec.{Exec, as_redirection, into_input}
use rust_subprocess.Builder.Pipeline.{Pipeline, pipeline_stdout, stderr_to}
use rust_subprocess.Builder.Pipeline.Calls.{
  Call, Creations, CreationLaws, Linked, LinkedAfter, processes, plain, is_pipe,
}
use rust_subprocess.Builder.Pipeline.Linking.{start_pipeline-Linked}
use rust_subprocess.Builder.Session.{Session, creator}
use rust_subprocess.Builder.Session.Connecting.{unlimited, communicate_paired}
use rust_subprocess.Builder.Session.Pipelines.{
  take_stdin, take_stdout, connect, start_with, setup_communicate,
}

-- The parent's ends of the first call's input and the last one's output.
abbrev pub first_input : List Call → Option ℕ
first_input [] = none
first_input (k ∷ ks) = k.2.stdin

abbrev pub last_output : List Call → Option ℕ
last_output [] = none
last_output (k ∷ []) = k.2.stdout
last_output (k ∷ l ∷ ks) = last_output (l ∷ ks)

abbrev pub without_output : Call → Popen
without_output k = record k.2 { stdout = none }

-- The processes of the calls without these ends and without those of the pipes between them.
abbrev pub parted : List Call → List Popen
parted [] = []
parted (k ∷ ks) = record k.2 { stdin = none; stdout = none } ∷ map without_output ks

take_stdout-processes :
    (p : Popen) (k : Call) (ks : List Call)
    → take_stdout (p ∷ processes (k ∷ ks))
      ≡ returned (last_output (k ∷ ks), p ∷ map without_output (k ∷ ks))
unfolding take_stdout
take_stdout-processes p k [] = refl
take_stdout-processes p k (l ∷ ks) = rw (take_stdout-processes (without_output k) l ks) refl

module _ (s : Session) (cr : Creations (creator s)) where
  open s use {World, make_pipe}
  open cr use {log}

  -- The communicator has the ends and the data.
  abbrev pub Gathers : ℕ → Option Bytes → List Call → Communicator × List Popen → Type 0
  Gathers err_read input_data calls t =
      (t.0 ≡ unlimited (first_input calls) (last_output calls) (some err_read) input_data)
      × (t.1 ≡ parted calls)

  -- What `setup_communicate` has done when it returns.
  abbrev pub GatheredAfter :
      Pipeline → List Exec → World → Result (Communicator × List Popen) PopenError × World → Type 0
  GatheredAfter p cmds w (ok t, w') =
      (err_read : ℕ) × (err_write : ℕ) × (w1 : World) × (calls : List Call) × (make_pipe w
        ≡ (ok (err_read, err_write), w1))
      × (log w' ≡ log w1 ++ calls)
      × Linked (some err_write) pipe p.stdin cmds calls
      × Gathers err_read p.stdin_data calls t
  GatheredAfter p cmds w (err e, w') = Unit

  connect-processes :
      (err_read : ℕ) (err_file : Option ℕ) (r : Redirection) (c d : Exec) (cs : List Exec)
      (input_data : Option Bytes) (calls : List Call) (w : World)
      → Linked err_file pipe r (c ∷ d ∷ cs) calls
      → is_some input_data ≡ is_pipe r
      → connect s err_read input_data (processes calls) w
        ≡ returned (
          ok (
            unlimited (first_input calls) (last_output calls) (some err_read) input_data,
            parted calls,
          ),
          w,
        )
  unfolding connect take_stdin
  connect-processes err_read err_file r c d cs input_data [] w linked same = absurd linked
  connect-processes err_read err_file r c d [] input_data (k ∷ []) w linked same = absurd linked.3.2
  connect-processes err_read err_file r c d (e ∷ cs) input_data (k ∷ []) w linked same =
      absurd linked.3.2
  connect-processes err_read err_file r c d cs input_data (k ∷ l ∷ ks) w linked same =
      let paired : is_some k.2.stdin ≡ is_some input_data =
        linked.2 ∙ ap (λ x. is_pipe x.stdin) linked.1 ∙ sym same in
      rw
        (
          take_stdout-processes (record k.2 { stdin = none; stdout = none }) l ks,
          communicate_paired k.2.stdin (last_output (l ∷ ks)) (some err_read) input_data paired,
        )
        refl

  gathered :
      (p : Pipeline) (c d : Exec) (cs : List Exec) (w w1 : World) (err_read err_write : ℕ)
      (r : Run (Result (List Popen) PopenError × World))
      → make_pipe w ≡ (ok (err_read, err_write), w1)
      → is_some p.stdin_data ≡ is_pipe p.stdin
      → Delivers (LinkedAfter cr (some err_write) pipe p.stdin (c ∷ d ∷ cs) [] w1) r
      → Delivers (GatheredAfter p (c ∷ d ∷ cs) w) (
          and_then r λ t. elim t.0 [
            | err e ↦ returned (err e, s.file_close err_read t.1)
            | ok v ↦ connect s err_read p.stdin_data v t.1
          ])
  gathered p c d cs w w1 err_read err_write (returned (err e, w')) made same h = tt
  gathered p c d cs w w1 err_read err_write (returned (ok v, w')) made same
        (calls, logged, linked, taken) =
      rw
        (
          taken,
          connect-processes err_read (some err_write) p.stdin c d cs p.stdin_data calls w' linked
              same,
        )
        (err_read, err_write, w1, calls, made, logged, linked, (refl, refl))
  gathered p c d cs w w1 err_read err_write panicked made same h = absurd h
  gathered p c d cs w w1 err_read err_write unfinished made same h = absurd h

  -- If an input from a pipe and no other gives the parent its end, and so does an output to a pipe: for a
  -- pipeline of two commands or more without redirections and input data of their own, whose own input
  -- is no merge, and is a pipe exactly if it has input data, `setup_communicate` does not panic. If it
  -- succeeds it has made a pipe, and then created the commands, linked, all writing their errors to
  -- that pipe and the last one its output to another; the communicator has the parent's end of the
  -- first one's input, that of the last one's output, the reading end of the pipe for the errors, and
  -- the input data; none of these ends is left in the processes.
  pub setup_communicate-GatheredAfter :
      CreationLaws cr
      → (p : Pipeline) (c d : Exec) (cs : List Exec) (w : World) → p.cmds ≡ map plain (c ∷ d ∷ cs)
      → into_input p.stdin ≡ returned (as_redirection p.stdin)
      → is_some p.stdin_data ≡ is_pipe p.stdin
      → Delivers (GatheredAfter p (c ∷ d ∷ cs) w) (setup_communicate s p w)
  unfolding setup_communicate start_with stderr_to pipeline_stdout
  setup_communicate-GatheredAfter laws p c d cs w same no_merge paired =
      let enough : ltb (length p.cmds) 2 ≡ false = rw same (ground arith) in
      rw enough (at (make_pipe w) refl)
    where
      at :
          (ends : Result (ℕ × ℕ) IoError × World)
          → make_pipe w ≡ ends
          → Delivers (GatheredAfter p (c ∷ d ∷ cs) w) (elim ends.0 [
            | err e ↦ returned (err (io_error e), ends.1)
            | ok ends' ↦ start_with s ends' p ends.1
          ])
      at (err e, w1) made = tt
      at (ok (err_read, err_write), w1) made =
          gathered p c d cs w w1 err_read err_write _ made paired (
            start_pipeline-Linked cr laws
              (record p { stdout = pipe; stderr_file = some err_write; stdin_data = none }) c d cs
              w1 refl same no_merge)
