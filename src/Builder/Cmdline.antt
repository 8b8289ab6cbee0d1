-- ===== src/Builder/Cmdline.antt =====
-- `Exec::to_cmdline_lossy` of src/builder.rs: a command line with the changes of the environment, for
-- a shell. A string is the list of its code points.
mod Tests
pub mod Words
pub mod Line
use rust_subprocess.Prelude.{
  ℕ, Bool, true, false, List, [], ◌∷◌, ◌++◌, Option, none, some, if◌then◌else◌, Bytes,
}
use rust_subprocess.Popen.Environment.{Entry, same_bytes}
use rust_subprocess.Builder.Exec.{Exec}
use rust_subprocess.Builder.Display.{display_escape}

-- `get` of a `HashMap` that is collected from a list: the last entry of a key counts.
unfoldable pub get : Bytes → List Entry → Option Bytes
get key [] = none
get key ((k, v) ∷ vars) = elim (get key vars) [
  | some later ↦ some later
  | none ↦ if same_bytes k key then some v else none
]

-- `current_map.get(&k) == Some(&&v)`
unfoldable pub is_current : List Entry → Entry → Bool
is_current current (k, v) = elim (get k current) [ none ↦ false | some value ↦ same_bytes value v ]

unfoldable pub contains_key : Bytes → List Entry → Bool
contains_key key vars = elim (get key vars) [ none ↦ false | some v ↦ true ]

abbrev pub equals : ℕ
equals = b'='

abbrev pub space : ℕ
space = b' '

-- The variables that the command has and the parent has not, or has with another value.
unfoldable pub show_set : List Entry → List Entry → Bytes
show_set current [] = []
show_set current ((k, v) ∷ cmd_env) =
    let rest = show_set current cmd_env in
    if is_current current (k, v)
    then rest
    else display_escape k ++ equals ∷ (display_escape v ++ space ∷ rest)

-- The variables that the parent has and the command has not.
unfoldable pub show_unset : List Entry → List Entry → Bytes
show_unset cmd_env [] = []
show_unset cmd_env ((k, v) ∷ current) =
    let rest = show_unset cmd_env current in
    if contains_key k cmd_env then rest else display_escape k ++ equals ∷ space ∷ rest

unfoldable pub show_env : List Entry → Option (List Entry) → Bytes
show_env current none = []
show_env current (some cmd_env) = show_set current cmd_env ++ show_unset cmd_env current

unfoldable pub show_args : List Bytes → Bytes
show_args [] = []
show_args (arg ∷ args) = space ∷ (display_escape arg ++ show_args args)

-- `current` is `env::vars_os()`.
unfoldable pub to_cmdline_lossy : List Entry → Exec → Bytes
to_cmdline_lossy current e =
    show_env current e.config.env ++ (display_escape e.command ++ show_args e.args)
