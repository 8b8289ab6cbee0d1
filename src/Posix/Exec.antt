-- ===== src/Posix/Exec.antt =====
-- `split_path`, `CVec`, `PrepExec` and `prep_exec` of src/posix.rs: which files a child tries to
-- execute, in a buffer that was allocated before the fork. Strings are byte lists, a C string ends
-- with a zero.
mod Tests
pub mod Preparation
pub mod SearchPath
pub mod Attempts
use rust_subprocess.Prelude.{
  ℕ, zero, suc, ◌+◌, max, Bool, true, false, not, List, [], ◌∷◌, ◌++◌, Option, none, some, ◌==◌,
  leb, if◌then◌else◌, length, take, drop, is_empty, any, Bytes, Result, ok, err, ◌>>=◌, IoError,
  os_error, pos, Run, returned, panicked, unfinished, and_then,
}

abbrev pub colon : ℕ
colon = b':'

abbrev pub slash : ℕ
slash = b'/'

-- `iter().position(|&c| c == b':')`
unfoldable pub position : Bytes → Option ℕ
position [] = none
position (c ∷ path) =
    let rest = position path in
    if c == colon then some 0 else elim rest [ none ↦ none | some n ↦ some (suc n) ]

-- One call of the iterator's closure: a piece, and the path that is left. The first argument bounds
-- the rounds of the `while`.
unfoldable pub next_piece : ℕ → Bytes → Option (Bytes × Bytes)
next_piece zero path = none
next_piece (suc fuel) path = elim (position path) [
  | some n ↦
      let piece = take n path in
      let rest = drop (suc n) path in
      let again = next_piece fuel rest in if not (is_empty piece) then some (piece, rest) else again
  | none ↦ if not (is_empty path) then some (path, []) else none
]

-- All that the iterator gives.
unfoldable pub pieces : ℕ → Bytes → List Bytes
pieces zero path = []
pieces (suc fuel) path = elim (next_piece (suc (length path)) path) [
  | none ↦ []
  | some (piece, rest) ↦ piece ∷ pieces fuel rest
]

unfoldable pub split_path : Bytes → List Bytes
split_path path = pieces (suc (length path)) path

-- `EINVAL`
abbrev pub einval : IoError
einval = os_error (pos 22)

unfoldable pub os_to_cstring : Bytes → Result Bytes IoError
os_to_cstring s = if any (λ c. c == 0) s then err einval else ok (s ++ 0 ∷ [])

-- `CVec::new`: the C strings, of which the vector holds the pointers.
unfoldable pub cvec : List Bytes → Result (List Bytes) IoError
cvec [] = ok []
cvec (s ∷ slice) = do c ← os_to_cstring s; strings ← cvec slice; ok (c ∷ strings)

pub record PrepExec : Type 0 where
  pub cmd : Bytes
  pub argvec : List Bytes
  pub envvec : Option (List Bytes)
  pub search_path : Option Bytes
  -- The capacity of `prealloc_exe`.
  pub max_exe_len : ℕ

-- `split_path(search_path).map(OsStr::len).max().unwrap_or(0)`
unfoldable pub longest : List Bytes → ℕ
longest [] = 0
longest (dir ∷ dirs) = max (length dir) (longest dirs)

-- `PrepExec::new`
unfoldable pub new : Bytes → List Bytes → Option (List Bytes) → Option Bytes → PrepExec
new cmd argvec envvec search_path = record {
  cmd = cmd;
  argvec = argvec;
  envvec = envvec;
  search_path = search_path;
  max_exe_len = elim search_path [
    | none ↦ length cmd + 1
    | some path ↦ length cmd + 1 + (1 + longest (split_path path))
  ];
}

-- `assemble_exe`: the components and the zero.
abbrev pub assemble_exe : List Bytes → Bytes
assemble_exe [] = 0 ∷ []
assemble_exe (comp ∷ components) = comp ++ assemble_exe components

-- The environment that `exec` runs in: `execve` or `execv` of a file, which comes back only if it
-- fails, with `errno`; and the `PATH` of `env::var_os`.
pub record ExecOs : Type 1 where
  pub World : Type 0
  pub sys_exec : Bytes → List Bytes → Option (List Bytes) → World → Option (IoError × World)
  pub path : Option Bytes

-- How `exec` ends: another program runs, with the file that it was loaded from, or it comes back.
pub data Executed (os : ExecOs) : Type 0 where
  replaced : Bytes → Executed os
  came_back : Result (Unit {0}) IoError → os.World → Executed os

module _ (os : ExecOs) where
  open os use {World, sys_exec}

  -- `for dir in split_path(...)`, from the last result on.
  unfoldable pub try_dirs : PrepExec → List Bytes → Result (Unit {0}) IoError → World → Executed os
  try_dirs prep [] last w = came_back last w
  try_dirs prep (dir ∷ dirs) last w =
      let exe = assemble_exe (dir ∷ (slash ∷ []) ∷ prep.cmd ∷ []) in
      elim (sys_exec exe prep.argvec prep.envvec w) [
        | none ↦ replaced exe
        | some (e, w') ↦ try_dirs prep dirs (err e) w'
      ]

  unfoldable pub exec : PrepExec → World → Executed os
  exec prep w = elim prep.search_path [
    | some path ↦ try_dirs prep (split_path path) (ok tt) w
    | none ↦
        let exe = assemble_exe (prep.cmd ∷ []) in
        elim (sys_exec exe prep.argvec prep.envvec w) [
          | none ↦ replaced exe
          | some (e, w') ↦ came_back (err e) w'
        ]
  ]

  -- The `PATH`, unless the command has a slash or the path is empty.
  abbrev pub path_for : Bytes → Option Bytes
  path_for cmd =
      if not (any (λ b. b == slash) cmd)
      then elim os.path [ none ↦ none | some p ↦ if length p == 0 then none else some p ]
      else none

  -- `prep_exec`: the closure is what `exec` needs.
  unfoldable pub prep_exec : Bytes → List Bytes → Option (List Bytes) → Result PrepExec IoError
  prep_exec cmd args env = do
    argvec ← cvec args
    envvec ← elim env [ none ↦ ok none | some env ↦ (cvec env >>= λ v. ok (some v)) ]
    ok (new cmd argvec envvec (path_for cmd))
