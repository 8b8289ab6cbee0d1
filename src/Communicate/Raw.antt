-- ===== src/Communicate/Raw.antt =====
-- `RawCommunicator` of src/communicate.rs (Unix), and what one turn of its loop does to each stream.
use rust_subprocess.Prelude.{
  ℕ, ◌+◌, ◌-◌, min, Bool, false, [], ◌∷◌, ◌++◌, Option, none, some, ◌==◌, leb, ltb, if◌then◌else◌,
  length, take, drop, Bytes, Result, ok, err, IoError, unwrap_or, Run, returned, panicked,
  unfinished,
}
use rust_subprocess.Posix.Os.{Os}

pub record RawCommunicator : Type 0 where
  pub stdin : Option ℕ
  pub stdout : Option ℕ
  pub stderr : Option ℕ
  pub input_data : Bytes
  pub input_pos : ℕ

unfoldable pub new : Option ℕ → Option ℕ → Option ℕ → Option Bytes → RawCommunicator
new stdin stdout stderr input_data = record {
  stdin = stdin;
  stdout = stdout;
  stderr = stderr;
  input_data = unwrap_or input_data [];
  input_pos = 0;
}

-- The chunk size for writing, smaller than a pipe's buffer.
abbrev pub write_size : ℕ
write_size = 4096

-- The streams' size limit has been reached.
abbrev pub limit_reached : Option ℕ → ℕ → Bool
limit_reached none total = false
limit_reached (some size_limit) total = leb size_limit total

-- The length of the buffer of one read.
abbrev pub buffer_length : Option ℕ → ℕ → ℕ
buffer_length none total = 4096
buffer_length (some size_limit) total =
    if ltb (size_limit - total) 4096 then size_limit - total else 4096

-- The variables of `read_into`.
pub record Loop (os : Os) : Type 0 where
  pub comm : RawCommunicator
  pub stdout_ref : Option ℕ
  pub stderr_ref : Option ℕ
  pub outvec : Bytes
  pub errvec : Bytes
  pub world : os.World

-- How `read_into` ends. `Err` carries the error.
abbrev pub Ending : Os → Type 0
Ending os = Result (Unit {0}) IoError × Loop os

-- What a statement does: it goes on, or it leaves the function.
pub data Flow (os : Os) : Type 0 where
  next : Loop os → Flow os
  leave : Run (Ending os) → Flow os

infixl 5 ◌>>=◌
abbrev pub ◌>>=◌ : {os : Os} → Flow os → (Loop os → Flow os) → Flow os
next l >>= f = f l
leave r >>= f = leave r

module _ (os : Os) where
  open os use {World, sys_read, sys_write, sys_close}

  -- The reply of `do_read`, with the stream and the vector as it leaves them. A stream that is
  -- `None` is a panic of `unwrap`.
  unfoldable pub do_read :
      Option ℕ
      → Bytes
      → Option ℕ
      → ℕ
      → World
      → Run (Result (Unit {0}) IoError × Option ℕ × Bytes × World)
  do_read source dest size_limit total_read w =
      if limit_reached size_limit total_read
      then returned (ok tt, source, dest, w)
      else elim source [
        | none ↦ panicked
        | some fd ↦
            let (reply, w') = sys_read fd (buffer_length size_limit total_read) w in
            elim reply [
              | err e ↦ returned (err e, some fd, dest, w')
              | ok [] ↦ returned (ok tt, none, dest, w')
              | ok (b ∷ buf) ↦ returned (ok tt, some fd, dest ++ b ∷ buf, w')
            ]
      ]

  -- `if in_ready`: write a chunk, and close the stream behind the last one.
  unfoldable pub feed_stdin : Loop os → Flow os
  feed_stdin l =
      if ltb (length l.comm.input_data) l.comm.input_pos
      then leave panicked
      else let input = drop l.comm.input_pos l.comm.input_data in
        let chunk = take (min write_size (length input)) input in
        elim l.comm.stdin [
          | none ↦ leave panicked
          | some fd ↦
              let (reply, w) = sys_write fd chunk l.world in
              elim reply [
                | err e ↦ leave (returned (err e, record l { world = w }))
                | ok n ↦
                    let pos = l.comm.input_pos + n in
                    if pos == length l.comm.input_data
                    then next (record l {
                      comm = record l.comm { stdin = none; input_data = []; input_pos = pos };
                      world = sys_close fd w;
                    })
                    else next (record l { comm = record l.comm { input_pos = pos }; world = w })
              ]
        ]

  -- `do_read(...)?` on one of the two outputs.
  unfoldable pub drain_stdout : Option ℕ → Loop os → Flow os
  drain_stdout size_limit l =
      elim (do_read l.stdout_ref l.outvec size_limit (length l.outvec + length l.errvec) l.world) [
        | returned (reply, source, dest, w) ↦
            let l' = record l { stdout_ref = source; outvec = dest; world = w } in
            elim reply [ ok _ ↦ next l' | err e ↦ leave (returned (err e, l')) ]
        | panicked ↦ leave panicked
        | unfinished ↦ leave unfinished
      ]

  unfoldable pub drain_stderr : Option ℕ → Loop os → Flow os
  drain_stderr size_limit l =
      elim (do_read l.stderr_ref l.errvec size_limit (length l.outvec + length l.errvec) l.world) [
        | returned (reply, source, dest, w) ↦
            let l' = record l { stderr_ref = source; errvec = dest; world = w } in
            elim reply [ ok _ ↦ next l' | err e ↦ leave (returned (err e, l')) ]
        | panicked ↦ leave panicked
        | unfinished ↦ leave unfinished
      ]
