-- ===== src/Builder/Exec/Variables.antt =====
-- The environment that a child of an `Exec` (src/builder.rs) finds.
use rust_subprocess.Prelude.{
  ◌≡◌, refl, true, List, [], ◌∷◌, ◌++◌, Option, none, some, arith, ==_iff, if◌then◌else◌, Bytes,
}
use rust_subprocess.Popen.Environment.{Entry, same_bytes}
use rust_subprocess.Popen.Environment.LastEntries.{
  same_bytes-eq, first_value, last_value, pruned, first_value-pruned,
}
use rust_subprocess.Builder.Exec.{Exec, ensure_env, env, env_remove, retain_others}

abbrev same_name : Bytes → Bytes
same_name key = key

-- The value that the child finds for a name, in what `format_env` keeps of the variables.
abbrev pub seen : Bytes → List Entry → Option Bytes
seen key vars = first_value same_name key (pruned same_name vars)

-- The variables of the command, the parent's if it has none of its own.
abbrev pub variables : List Entry → Exec → List Entry
variables current e = ensure_env current e

last_value-snoc :
    (key name value : Bytes) (vars : List Entry)
    → last_value same_name key (vars ++ (name, value) ∷ [])
      ≡ (if same_bytes key name then some value else last_value same_name key vars)
last_value-snoc key name value [] = refl
last_value-snoc key name value (entry ∷ vars) = ground (arith, last_value-snoc key name value vars)

pub env-seen :
    (current : List Entry) (e : Exec) (name value key : Bytes)
    → seen key (variables current (env current e name value))
      ≡ (if same_bytes key name then some value else seen key (variables current e))
unfolding env ensure_env
env-seen current e name value key =
    rw
      (
        first_value-pruned same_name key (variables current e ++ (name, value) ∷ []),
        first_value-pruned same_name key (variables current e),
      )
      (last_value-snoc key name value (variables current e))

same_bytes_refl : (xs : Bytes) → same_bytes xs xs ≡ true
same_bytes_refl [] = refl
same_bytes_refl (x ∷ xs) = ground (arith, (==_iff x x).1 refl, same_bytes_refl xs)

last_value-retain_others :
    (key name : Bytes) (vars : List Entry)
    → last_value same_name key (retain_others name vars)
      ≡ (if same_bytes key name then none else last_value same_name key vars)
unfolding retain_others
last_value-retain_others key name [] = ground arith
last_value-retain_others key name (entry ∷ vars) = ground (
  arith,
  last_value-retain_others key name vars,
  same_bytes-eq key name,
  same_bytes-eq key entry.0,
  same_bytes-eq entry.0 name,
  same_bytes_refl name,
)

pub env_remove-seen :
    (current : List Entry) (e : Exec) (name key : Bytes)
    → seen key (variables current (env_remove current e name))
      ≡ (if same_bytes key name then none else seen key (variables current e))
unfolding env_remove ensure_env
env_remove-seen current e name key =
    rw
      (
        first_value-pruned same_name key (retain_others name (variables current e)),
        first_value-pruned same_name key (variables current e),
      )
      (last_value-retain_others key name (variables current e))
