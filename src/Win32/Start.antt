-- ===== src/Win32/Start.antt =====
-- The start of a process in src/popen.rs (Windows), behind `setup_streams`: the standard streams, the
-- command line, the search of the program and `CreateProcess`. A `File` is its handle.
pub mod Standard
pub mod Launching
mod Tests
use rust_subprocess.Prelude.{
  ℕ, Bool, true, List, [], ◌∷◌, Option, none, some, Result, ok, err, IoError, if◌then◌else◌,
}
use mathlib.Core.Option
use rust_subprocess.OsCommon.{StandardStream, input, output, error}
use rust_subprocess.Popen.State.{PopenError, io_error}
use rust_subprocess.Popen.Streams.{Streams}
use rust_subprocess.Popen.Environment.{Entry, format_env_block}
use rust_subprocess.Win32.Cmdline.{Units, assemble_cmdline}
use rust_subprocess.Win32.Calls.{
  WinOs, make_standard_stream, create_process, create_pipe, set_handle_information,
  handle_flag_inherit,
}
use rust_subprocess.Win32.Child.{Popen, running}

-- What the search of a program uses of the standard library.
pub record Paths (os : WinOs) : Type 0 where
  -- `env::var_os("PATH")`
  pub path : Option Units
  pub split_paths : Units → List Units
  -- `path.join(executable).with_extension(EXE_EXTENSION)`
  pub program_in : Units → Units → Units
  -- `fs::metadata(path).is_ok()`
  pub exists : Units → os.World → Bool

-- `executable`, `env` and `cwd` of `PopenConfig`.
pub record Program : Type 0 where
  pub executable : Option Units
  pub env : Option (List Entry)
  pub cwd : Option Units

pub record Context (os : WinOs) : Type 0 where
  pub world : os.World
  pub streams : Streams

-- A statement that may return from the function with an error.
abbrev pub Act : WinOs → Type 0 → Type 0
Act os A = Context os → Result A PopenError × Context os

infixl 5 ◌>>=◌
abbrev pub ◌>>=◌ : {os : WinOs} {A B : Type 0} → Act os A → (A → Act os B) → Act os B
(m >>= f) c = let (reply, c') = m c in elim reply [ ok a ↦ f a c' | err e ↦ (err e, c') ]

abbrev pub pure : {os : WinOs} {A : Type 0} → A → Act os A
pure a c = (ok a, c)

-- A value with an error of its own.
abbrev pub lift : {os : WinOs} {A : Type 0} → Result A IoError → Act os A
lift reply c = (elim reply [ ok a ↦ ok a | err e ↦ err (io_error e) ], c)

abbrev pub call : {os : WinOs} {A : Type 0} → (os.World → Result A IoError × os.World) → Act os A
call f c = let (reply, w) = f c.world in lift reply (record c { world = w })

abbrev pub startf_usestdhandles : ℕ
startf_usestdhandles = 0x100

-- The thread's stream, and the thread's streams with that one.
abbrev pub kept : StandardStream → Streams → Option ℕ
kept input s = s.stdin
kept output s = s.stdout
kept error s = s.stderr

abbrev pub keeping : StandardStream → ℕ → Streams → Streams
keeping input f s = record s { stdin = some f }
keeping output f s = record s { stdout = some f }
keeping error f s = record s { stderr = some f }

module _ (os : WinOs) where
  open os use {World}

  unfoldable pub make_pipe : World → Result (ℕ × ℕ) IoError × World
  make_pipe w = create_pipe os true w

  unfoldable pub set_inheritable : ℕ → Bool → World → Result (Unit {0}) IoError × World
  set_inheritable f inheritable w =
      set_handle_information os f handle_flag_inherit (if inheritable then 1 else 0) w

  unfoldable pub get_standard_stream : StandardStream → Act os ℕ
  get_standard_stream which c = elim (kept which c.streams) [
    | some stream ↦ (ok stream, c)
    | none ↦
        (do
          stream ← call (make_standard_stream os which)
          λ c'. (ok stream, record c' { streams = keeping which stream c'.streams }))
          c
  ]

  unfoldable pub ensure_child_stream : Option ℕ → StandardStream → Act os ℕ
  ensure_child_stream none which = get_standard_stream which
  ensure_child_stream (some stream) which = pure stream

  module _ (paths : Paths os) where
    open paths use {path, split_paths, program_in, exists}

    -- The `for` over the directories.
    unfoldable pub search : Units → World → List Units → Units
    search executable w [] = executable
    search executable w (dir ∷ dirs) =
        let rest = search executable w dirs in
        if exists (program_in dir executable) w then program_in dir executable else rest

    unfoldable pub locate_in_path : World → Units → Units
    locate_in_path w executable = elim path [
      | none ↦ executable
      | some path ↦ search executable w (split_paths path)
    ]

    -- The call of `CreateProcess`, with the child's ends for its standard streams.
    unfoldable pub start_process : Units → Program → ℕ → ℕ → ℕ → Act os (ℕ × ℕ)
    start_process cmdline program stdin stdout stderr c =
        call
          (create_process os (Option.map (locate_in_path c.world) program.executable) cmdline
            (Option.map format_env_block program.env) program.cwd true 0 (some stdin) (some stdout)
            (some stderr) startf_usestdhandles)
          c

    -- `os_start` behind `setup_streams`, which has given the child's ends.
    unfoldable pub launch :
        List Units → Program → Option ℕ → Option ℕ → Option ℕ → Popen → Act os Popen
    launch argv program child_stdin child_stdout child_stderr p = do
      stdin ← ensure_child_stream child_stdin input
      stdout ← ensure_child_stream child_stdout output
      stderr ← ensure_child_stream child_stderr error
      cmdline ← lift (assemble_cmdline argv)
      child ← start_process cmdline program stdin stdout stderr
      pure (record p { child_state = running child.1 child.0 })
