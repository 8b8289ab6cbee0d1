-- ===== src/Builder/Exec.antt =====
-- `PopenConfig` of src/popen.rs and the builder `Exec` of src/builder.rs (Unix). A method that panics
-- is a `Run`; a `File` that is given for a stream is its descriptor.
mod Tests
pub mod Variables
use rust_subprocess.Prelude.{
  ℕ, Bool, true, false, List, [], ◌∷◌, ◌++◌, Option, none, some, if◌then◌else◌, Bytes, codes,
  Result, Run, returned, panicked, and_then,
}
use rust_subprocess.Popen.State.{Popen, PopenError}
use rust_subprocess.Popen.Streams.{Redirection, no_redirection, pipe, merge, file, rc_file}
use rust_subprocess.Popen.Environment.{Entry, same_bytes}

pub record PopenConfig : Type 0 where
  pub stdin : Redirection
  pub stdout : Redirection
  pub stderr : Redirection
  pub detached : Bool
  pub executable : Option Bytes
  pub env : Option (List Entry)
  pub cwd : Option Bytes
  pub setuid : Option ℕ
  pub setgid : Option ℕ
  pub setpgid : Bool

-- `PopenConfig::default`
abbrev pub default_config : PopenConfig
default_config = record {
  stdin = no_redirection;
  stdout = no_redirection;
  stderr = no_redirection;
  detached = false;
  executable = none;
  env = none;
  cwd = none;
  setuid = none;
  setgid = none;
  setpgid = false;
}

pub record Exec : Type 0 where
  pub command : Bytes
  pub args : List Bytes
  pub config : PopenConfig
  pub stdin_data : Option Bytes

pub data InputRedirection : Type 0 where
  as_redirection : Redirection → InputRedirection
  feed_data : Bytes → InputRedirection

-- `From<Redirection> for InputRedirection`
unfoldable pub into_input : Redirection → Run InputRedirection
into_input merge = panicked
into_input r = returned (as_redirection r)

unfoldable pub cmd : Bytes → Exec
cmd command = record { command = command; args = []; config = default_config; stdin_data = none }

unfoldable pub arg : Exec → Bytes → Exec
arg e a = record e { args = e.args ++ a ∷ [] }

unfoldable pub args : Exec → List Bytes → Exec
args e more = record e { args = e.args ++ more }

unfoldable pub shell : Bytes → Exec
shell cmdstr = arg (args (cmd (codes "sh")) (codes "-c" ∷ [])) cmdstr

unfoldable pub detached : Exec → Exec
detached e = record e { config = record e.config { detached = true } }

-- `ensure_env`, the environment of the parent being an argument.
unfoldable pub ensure_env : List Entry → Exec → List Entry
ensure_env current e = elim e.config.env [ none ↦ current | some env ↦ env ]

abbrev with_env : Exec → List Entry → Exec
with_env e vars = record e { config = record e.config { env = some vars } }

unfoldable pub env_clear : Exec → Exec
env_clear e = with_env e []

unfoldable pub env : List Entry → Exec → Bytes → Bytes → Exec
env current e key value = with_env e (ensure_env current e ++ (key, value) ∷ [])

unfoldable pub env_extend : List Entry → Exec → List Entry → Exec
env_extend current e vars = with_env e (ensure_env current e ++ vars)

-- `retain(|(k, _)| k != key)`
unfoldable pub retain_others : Bytes → List Entry → List Entry
retain_others key [] = []
retain_others key (entry ∷ vars) =
    let rest = retain_others key vars in if same_bytes entry.0 key then rest else entry ∷ rest

unfoldable pub env_remove : List Entry → Exec → Bytes → Exec
env_remove current e key = with_env e (retain_others key (ensure_env current e))

unfoldable pub cwd : Exec → Bytes → Exec
cwd e dir = record e { config = record e.config { cwd = some dir } }

unfoldable pub setuid : Exec → ℕ → Exec
setuid e uid = record e { config = record e.config { setuid = some uid } }

unfoldable pub setgid : Exec → ℕ → Exec
setgid e gid = record e { config = record e.config { setgid = some gid } }

-- The stream's redirection behind a call that sets it to `new`; only an unset one can be set, but a
-- pipe may be asked for twice.
unfoldable pub set_once : Redirection → Redirection → Run Redirection
set_once no_redirection new = returned new
set_once pipe pipe = returned pipe
set_once old new = panicked

unfoldable pub stdin : Exec → InputRedirection → Run Exec
stdin e (as_redirection new) =
    and_then (set_once e.config.stdin new)
      λ r. returned (record e { config = record e.config { stdin = r } })
stdin e (feed_data bytes) = elim e.config.stdin [
  | no_redirection ↦
      returned (record e { config = record e.config { stdin = pipe }; stdin_data = some bytes })
  | pipe ↦ panicked
  | merge ↦ panicked
  | file f ↦ panicked
  | rc_file f ↦ panicked
]

unfoldable pub stdout : Exec → Redirection → Run Exec
stdout e new =
    and_then (set_once e.config.stdout new)
      λ r. returned (record e { config = record e.config { stdout = r } })

unfoldable pub stderr : Exec → Redirection → Run Exec
stderr e new =
    and_then (set_once e.config.stderr new)
      λ r. returned (record e { config = record e.config { stderr = r } })

-- `Popen::create`, which the builders only call.
pub record Creator : Type 1 where
  pub World : Type 0
  pub create : List Bytes → PopenConfig → World → Result Popen PopenError × World

unfoldable pub popen : (os : Creator) → Exec → os.World → Run (Result Popen PopenError × os.World)
popen os e w = elim e.stdin_data [
  | some bytes ↦ panicked
  | none ↦ returned (os.create (e.command ∷ e.args) e.config w)
]
