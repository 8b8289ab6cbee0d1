-- ===== src/Builder/Session/Connecting.antt =====
-- `setup_communicate` of `Exec` in src/builder.rs.
use rust_subprocess.Prelude.{
  ℕ, ◌≡◌, refl, sym, ◌∙◌, List, ◌∷◌, Option, none, some, is_some, Bytes, Result, ok, err, returned,
  and_then, Delivers, and_then-Delivers,
}
use rust_subprocess.Popen.State.{Popen, PopenError}
use rust_subprocess.Popen.Streams.{Redirection, no_redirection, pipe, merge, file, rc_file}
use rust_subprocess.Communicate.Communicator.{Communicator, communicate}
use rust_subprocess.Communicate.Raw.{new}
use rust_subprocess.Builder.Exec.{Exec, PopenConfig, popen, stdout, set_once}
use rust_subprocess.Builder.Pipeline.Calls.{is_pipe, HasInput}
use rust_subprocess.Builder.Session.{
  Session, attempt, communicate_start, pipe_output, setup_communicate,
}

-- The output for two that are asked for.
abbrev pub some_output : Redirection → Redirection → Redirection
some_output no_redirection no_redirection = pipe
some_output out errors = out

-- The caller's configuration, with the output piped if no output is redirected.
abbrev pub readable : PopenConfig → PopenConfig
readable c = record c { stdout = some_output c.stdout c.stderr }

-- The communicator of three ends, which has no limits.
abbrev pub unlimited : Option ℕ → Option ℕ → Option ℕ → Option Bytes → Communicator
unlimited stdin stdout stderr input_data = record {
  inner = new stdin stdout stderr input_data;
  size_limit = none;
  time_limit = none;
}

-- Input data is given exactly for a redirected input.
pub communicate_paired :
    (stdin stdout stderr : Option ℕ) (input_data : Option Bytes)
    → is_some stdin ≡ is_some input_data
    → communicate stdin stdout stderr input_data
      ≡ returned (unlimited stdin stdout stderr input_data)
unfolding communicate
communicate_paired none stdout stderr none same = refl
communicate_paired none stdout stderr (some data_given) same = cc
communicate_paired (some f) stdout stderr none same = cc
communicate_paired (some f) stdout stderr (some data_given) same = refl

-- The communicator has the parent's ends and the input data, and the process none.
abbrev pub Holds : Popen → Option Bytes → Communicator × Popen → Type 0
Holds p input_data t =
    (t.0 ≡ unlimited p.stdin p.stdout p.stderr input_data)
    × (t.1 ≡ record p { stdin = none; stdout = none; stderr = none })

abbrev pub argv : Exec → List Bytes
argv e = e.command ∷ e.args

pipe_output-readable :
    (e : Exec) → pipe_output e ≡ returned (record e { config = readable e.config })
unfolding pipe_output stdout set_once
pipe_output-readable e = at e.config.stdout e.config.stderr
  where
    with_streams : Redirection → Redirection → Exec
    with_streams out errors = record e {
      config = record e.config { stdout = out; stderr = errors };
    }

    at :
        (out errors : Redirection)
        → pipe_output (with_streams out errors)
          ≡ returned (with_streams (some_output out errors) errors)
    at no_redirection no_redirection = refl
    at no_redirection pipe = refl
    at no_redirection merge = refl
    at no_redirection (file f) = refl
    at no_redirection (rc_file f) = refl
    at pipe errors = refl
    at merge errors = refl
    at (file f) errors = refl
    at (rc_file f) errors = refl

module _ (s : Session) where
  open s use {World, create}

  -- The parent has an end for its input exactly if that is a pipe.
  abbrev pub InputReply : PopenConfig → Result Popen PopenError → Type 0
  InputReply config (ok p) = HasInput config p
  InputReply config (err e) = Unit

  pub record InputLaws : Type 0 where
    pub replies :
        (args : List Bytes) (config : PopenConfig) (w : World)
        → InputReply config (create args config w).0

  -- What `setup_communicate` has done when it returns.
  abbrev pub Connected : Exec → World → Result (Communicator × Popen) PopenError × World → Type 0
  Connected e w (ok t, w') =
      (p : Popen) × (create (argv e) (readable e.config) w ≡ (ok p, w')) × Holds p e.stdin_data t
  Connected e w (err error, w') = create (argv e) (readable e.config) w ≡ (err error, w')

  communicate_start-Holds :
      (p : Popen) (input_data : Option Bytes)
      → is_some p.stdin ≡ is_some input_data
      → Delivers (Holds p input_data) (communicate_start p input_data)
  unfolding communicate_start
  communicate_start-Holds p input_data same =
      rw (communicate_paired p.stdin p.stdout p.stderr input_data same) (refl, refl)

  started :
      (e : Exec) (w : World) (t : Result Popen PopenError × World)
      → create (argv e) (readable e.config) w ≡ t
      → InputReply (readable e.config) t.0
      → is_some e.stdin_data ≡ is_pipe e.config.stdin
      → Delivers (Connected e w) (
          attempt
            (returned t)
            λ p w1. and_then (communicate_start p e.stdin_data) λ c. returned (ok c, w1))
  started e w (ok p, w1) made ends same =
      and_then-Delivers (Holds p e.stdin_data) (Connected e w) (communicate_start p e.stdin_data)
        (λ c. returned (ok c, w1)) (communicate_start-Holds p e.stdin_data (ends ∙ sym same))
        λ c holds. (p, made, holds)
  started e w (err error, w1) made ends same = made

  -- If the parent has an end for its input exactly when that is a pipe, and input data is given exactly
  -- for a pipe: `setup_communicate` does not panic. It creates the command with its arguments and the
  -- caller's configuration, the output piped if no output is redirected. An error of that is its
  -- error. Otherwise the communicator has exactly the parent's ends of the process and the input data,
  -- without limits, and none of the ends is left in the process.
  pub setup_communicate-Connected :
      InputLaws
      → (e : Exec) (w : World) → is_some e.stdin_data ≡ is_pipe e.config.stdin
      → Delivers (Connected e w) (setup_communicate s e w)
  unfolding setup_communicate popen
  setup_communicate-Connected laws e w same =
      rw (pipe_output-readable (record e { stdin_data = none }))
        (started e w _ refl (laws.replies (argv e) (readable e.config) w) same)
