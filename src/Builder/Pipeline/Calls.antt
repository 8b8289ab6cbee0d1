-- ===== src/Builder/Pipeline/Calls.antt =====
-- The calls of `create` that `Pipeline::popen` (src/builder.rs) makes, and how they are linked.
use rust_subprocess.Prelude.{
  ℕ, Bool, true, false, is_some, ◌≡◌, refl, List, [], ◌∷◌, ◌++◌, Option, none, some, Bytes, Result,
  ok, err,
}
use rust_subprocess.Popen.State.{Popen, PopenError}
use rust_subprocess.Popen.Streams.{Redirection, no_redirection, pipe, merge, file, rc_file}
use rust_subprocess.Builder.Exec.{Exec, PopenConfig, Creator}

-- A call of `Popen::create` that succeeded.
abbrev pub Call : Type 0
Call = List Bytes × PopenConfig × Popen

pub record Creations (os : Creator) : Type 0 where
  pub log : os.World → List Call

-- The command with no redirection and no input data of its own.
abbrev pub plain : Exec → Exec
plain c = record c {
  config = record c.config {
    stdin = no_redirection;
    stdout = no_redirection;
    stderr = no_redirection;
  };
  stdin_data = none;
}

abbrev pub is_pipe : Redirection → Bool
is_pipe pipe = true
is_pipe no_redirection = false
is_pipe merge = false
is_pipe (file f) = false
is_pipe (rc_file f) = false

-- The parent has an end for the input exactly if that is a pipe.
abbrev pub HasInput : PopenConfig → Popen → Type 0
HasInput config p = is_some p.stdin ≡ is_pipe config.stdin

-- A stderr file of the pipeline's is shared.
abbrev pub shared : Option ℕ → Redirection
shared none = no_redirection
shared (some f) = rc_file f

abbrev pub config_of : Option ℕ → Exec → Redirection → Redirection → PopenConfig
config_of err_file c r o = record c.config { stdin = r; stdout = o; stderr = shared err_file }

-- The command with the shared stderr file and an output.
abbrev pub dressed : Option ℕ → Redirection → Exec → Exec
dressed err_file o c = record (plain c) { config = config_of err_file c no_redirection o }

-- The calls for the commands: the first one's input is `r`, the last one's output is `final`, and
-- between two there is the pipe of which the first call has returned the parent's end.
abbrev pub Linked : Option ℕ → Redirection → Redirection → List Exec → List Call → Type 0
Linked err_file final r [] [] = Unit
Linked err_file final r (c ∷ []) (k ∷ []) =
    (k.0 ≡ c.command ∷ c.args) × (k.1 ≡ config_of err_file c r final) × HasInput k.1 k.2
Linked err_file final r (c ∷ d ∷ cs) (k ∷ ks) =
    (k.0 ≡ c.command ∷ c.args)
    × (k.1 ≡ config_of err_file c r pipe)
    × HasInput k.1 k.2
    × ((fd : ℕ) × (k.2.stdout ≡ some fd) × Linked err_file final (file fd) (d ∷ cs) ks)
Linked err_file final r _ _ = ⊥

-- The processes of the calls: the output of each but the last has become the next one's input.
abbrev pub processes : List Call → List Popen
processes [] = []
processes (k ∷ []) = k.2 ∷ []
processes (k ∷ l ∷ ks) = record k.2 { stdout = none } ∷ processes (l ∷ ks)

pub processes-more :
    (err_file : Option ℕ) (final r : Redirection) (c : Exec) (cs : List Exec) (k : Call)
    (calls : List Call)
    → Linked err_file final r (c ∷ cs) calls
    → processes (k ∷ calls) ≡ record k.2 { stdout = none } ∷ processes calls
processes-more err_file final r c [] k [] linked = absurd linked
processes-more err_file final r c (d ∷ cs) k [] linked = absurd linked
processes-more err_file final r c cs k (l ∷ calls) linked = refl

module _ {os : Creator} (cr : Creations os) where
  open os use {World, create}
  open cr use {log}

  -- A call that succeeds is logged. An input from a pipe and no other gives the parent its end, and so
  -- does an output to a pipe.
  abbrev pub CreateReply :
      List Bytes → PopenConfig → World → Result Popen PopenError × World → Type 0
  CreateReply argv config w (ok p, w') =
      (log w' ≡ log w ++ (argv, config, p) ∷ [])
      × HasInput config p
      × (config.stdout ≡ pipe → (fd : ℕ) × (p.stdout ≡ some fd))
  CreateReply argv config w (err e, w') = Unit

  pub record CreationLaws : Type 0 where
    pub replies :
        (argv : List Bytes) (config : PopenConfig) (w : World)
        → CreateReply argv config w (create argv config w)

  -- What a pipeline's start has done when it returns.
  abbrev pub LinkedAfter :
      Option ℕ
      → Redirection
      → Redirection
      → List Exec
      → List Popen
      → World
      → Result (List Popen) PopenError × World
      → Type 0
  LinkedAfter err_file final r cmds before w (ok ps, w') =
      (calls : List Call) × (log w' ≡ log w ++ calls)
      × Linked err_file final r cmds calls
      × (ps ≡ before ++ processes calls)
  LinkedAfter err_file final r cmds before w (err e, w') = Unit
