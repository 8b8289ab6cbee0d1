-- ===== src/Popen/Streams.antt =====
-- `Redirection`, `setup_streams`, `get_standard_stream` and `set_inheritable` of src/popen.rs (Unix):
-- which files the child gets as its standard streams, and which ends the parent keeps. An `Rc<File>`
-- is its descriptor. The files that an error drops are not modelled.
mod Tests
pub mod Descriptors
pub mod Wiring
use Prim.Native.String.{String}
use rust_subprocess.Prelude.{
  ℕ, bit_or, Bool, true, false, Option, none, some, Result, ok, err, IoError, if◌then◌else◌,
}
use rust_subprocess.OsCommon.{StandardStream, input, output, error, stream_fd}
use rust_subprocess.Popen.State.{PopenError, io_error, logic_error, Popen}

pub data Redirection : Type 0 where
  no_redirection : Redirection
  pipe : Redirection
  merge : Redirection
  file : ℕ → Redirection
  rc_file : ℕ → Redirection

pub data MergeKind : Type 0 where
  err_to_out out_to_err no_merge : MergeKind

pub record StreamsOs : Type 1 where
  pub World : Type 0
  -- `pipe(2)`: the end to read from and the end to write to.
  pub sys_pipe : World → Result (ℕ × ℕ) IoError × World
  -- `fcntl(2)` with `F_GETFD` and `F_SETFD`.
  pub sys_getfd : ℕ → World → Result ℕ IoError × World
  pub sys_setfd : ℕ → ℕ → World → Result (Unit {0}) IoError × World
  pub fd_cloexec : ℕ

-- The thread's `STREAMS`.
pub record Streams : Type 0 where
  pub stdin : Option ℕ
  pub stdout : Option ℕ
  pub stderr : Option ℕ

pub record Context (os : StreamsOs) : Type 0 where
  pub world : os.World
  pub streams : Streams

-- A statement that may return from the function with an error.
abbrev pub Act : StreamsOs → Type 0 → Type 0
Act os A = Context os → Result A PopenError × Context os

abbrev pub pure : {os : StreamsOs} {A : Type 0} → A → Act os A
pure a c = (ok a, c)

abbrev pub bound :
    {os : StreamsOs} {A B : Type 0}
    → (A → Act os B)
    → Result A PopenError × Context os
    → Result B PopenError × Context os
bound f (ok a, c) = f a c
bound f (err e, c) = (err e, c)

infixl 5 ◌>>=◌
abbrev pub ◌>>=◌ : {os : StreamsOs} {A B : Type 0} → Act os A → (A → Act os B) → Act os B
(m >>= f) c = bound f (m c)

-- A system call, whose error is a `PopenError`.
abbrev pub call :
    {os : StreamsOs} {A : Type 0} → (os.World → Result A IoError × os.World) → Act os A
call f c =
    let (reply, w) = f c.world in
    (elim reply [ ok a ↦ ok a | err e ↦ err (io_error e) ], record c { world = w })

-- The merge that the two `match`es leave; the one on `stderr` is the second.
unfoldable pub merge_kind : Redirection → Redirection → MergeKind
merge_kind stdout merge = err_to_out
merge_kind merge stderr = out_to_err
merge_kind stdout stderr = no_merge

-- What `setup_streams` leaves in the object and returns.
pub record Setup : Type 0 where
  pub popen : Popen
  pub child_stdin : Option ℕ
  pub child_stdout : Option ℕ
  pub child_stderr : Option ℕ

-- The parent's end and the child's, of the end to read from and the end to write to.
abbrev pub ends : Bool → ℕ × ℕ → ℕ × ℕ
ends true (read_end, write_end) = (write_end, read_end)
ends false (read_end, write_end) = (read_end, write_end)

infixl 5 ◌>>◌
abbrev pub ◌>>◌ : {os : StreamsOs} {A B : Type 0} → Act os A → Act os B → Act os B
m >> k = m >>= λ _. k

module _ {os : StreamsOs} where
  open os use {sys_pipe, sys_getfd, sys_setfd, fd_cloexec}

  unfoldable pub set_inheritable : ℕ → Bool → Act os (Unit {0})
  set_inheritable f true = pure tt
  set_inheritable f false = do old ← call (sys_getfd f); call (sys_setfd f (bit_or old fd_cloexec))

  -- `make_standard_stream` wraps the descriptor, and the thread keeps it.
  unfoldable pub get_standard_stream : StandardStream → Act os ℕ
  get_standard_stream input c = elim c.streams.stdin [
    | some f ↦ (ok f, c)
    | none ↦ (
      ok (stream_fd input),
      record c { streams = record c.streams { stdin = some (stream_fd input) } },
    )
  ]
  get_standard_stream output c = elim c.streams.stdout [
    | some f ↦ (ok f, c)
    | none ↦ (
      ok (stream_fd output),
      record c { streams = record c.streams { stdout = some (stream_fd output) } },
    )
  ]
  get_standard_stream error c = elim c.streams.stderr [
    | some f ↦ (ok f, c)
    | none ↦ (
      ok (stream_fd error),
      record c { streams = record c.streams { stderr = some (stream_fd error) } },
    )
  ]

  -- The parent's end and the child's.
  unfoldable pub prepare_pipe : Bool → Act os (ℕ × ℕ)
  prepare_pipe parent_writes = do
    t ← call sys_pipe
    set_inheritable (ends parent_writes t).0 false
    pure (ends parent_writes t)

  -- `prepare_file` and `prepare_rc_file`
  unfoldable pub prepare_file : ℕ → Act os ℕ
  prepare_file f = set_inheritable f true >>= λ _. pure f

  -- What a redirection makes of the parent's field and of the child's.
  unfoldable pub prepare : Bool → Redirection → Option ℕ → Act os (Option ℕ × Option ℕ)
  prepare parent_writes no_redirection field = pure (field, none)
  prepare parent_writes pipe field = prepare_pipe parent_writes >>= λ t. pure (some t.0, some t.1)
  prepare parent_writes merge field = pure (field, none)
  prepare parent_writes (file f) field = prepare_file f >>= λ f. pure (field, some f)
  prepare parent_writes (rc_file f) field = prepare_file f >>= λ f. pure (field, some f)

  -- The destination and the source, as it leaves them.
  unfoldable pub reuse_stream : Option ℕ → StandardStream → Act os (Option ℕ × Option ℕ)
  reuse_stream none src_id = get_standard_stream src_id >>= λ f. pure (some f, some f)
  reuse_stream (some f) src_id = pure (some f, some f)

  unfoldable pub merge_streams : MergeKind → Option ℕ → Option ℕ → Act os (Option ℕ × Option ℕ)
  merge_streams err_to_out child_stdout child_stderr =
      reuse_stream child_stdout output >>= λ t. pure (t.1, t.0)
  merge_streams out_to_err child_stdout child_stderr =
      reuse_stream child_stderr error >>= λ t. pure (t.0, t.1)
  merge_streams no_merge child_stdout child_stderr = pure (child_stdout, child_stderr)

  unfoldable pub setup_outputs :
      Popen → Option ℕ → Option ℕ → Redirection → Redirection → Act os Setup
  setup_outputs p parent_stdin child_stdin stdout stderr = do
    o ← prepare false stdout p.stdout
    e ← prepare false stderr p.stderr
    m ← merge_streams (merge_kind stdout stderr) o.1 e.1
    pure (record {
      popen = record p { stdin = parent_stdin; stdout = o.0; stderr = e.0 };
      child_stdin = child_stdin;
      child_stdout = m.0;
      child_stderr = m.1;
    })

  unfoldable pub setup_streams : Popen → Redirection → Redirection → Redirection → Act os Setup
  setup_streams p merge stdout stderr c =
      (err (logic_error "Redirection::Merge not valid for stdin"), c)
  setup_streams p stdin stdout stderr c =
      (prepare true stdin p.stdin >>= λ i. setup_outputs p i.0 i.1 stdout stderr) c
