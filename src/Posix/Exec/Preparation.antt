-- ===== src/Posix/Exec/Preparation.antt =====
-- `CVec::new` and `prep_exec` of src/posix.rs.
use rust_subprocess.Prelude.{
  ◌≡◌, refl, Bool, false, ◌||◌, List, [], ◌∷◌, ◌++◌, map, Option, none, some, arith, ◌==◌,
  if◌then◌else◌, any, Bytes, ok, err,
}
use rust_subprocess.Posix.Exec.{os_to_cstring, cvec, new, ExecOs, path_for, prep_exec, einval}

abbrev pub has_nul : Bytes → Bool
has_nul s = any (λ c. c == 0) s

abbrev pub terminated : Bytes → Bytes
terminated s = s ++ 0 ∷ []

cvec-eq :
    (slice : List Bytes)
    → cvec slice ≡ (if any has_nul slice then err einval else ok (map terminated slice))
unfolding cvec os_to_cstring
cvec-eq [] = refl
cvec-eq (s ∷ slice) = ground (arith, cvec-eq slice)

abbrev pub env_has_nul : Option (List Bytes) → Bool
env_has_nul none = false
env_has_nul (some env) = any has_nul env

abbrev pub terminated_env : Option (List Bytes) → Option (List Bytes)
terminated_env none = none
terminated_env (some env) = some (map terminated env)

-- `prep_exec` refuses a NUL in an argument or in the environment with EINVAL, and otherwise prepares
-- the C strings of all of them, with the search path; a NUL in the command is not looked for.
pub prep_exec-new :
    (os : ExecOs) (cmd : Bytes) (args : List Bytes) (env : Option (List Bytes))
    → prep_exec os cmd args env ≡ (
        if any has_nul args || env_has_nul env
        then err einval
        else ok (new cmd (map terminated args) (terminated_env env) (path_for os cmd)))
unfolding prep_exec
prep_exec-new os cmd args none = rw (cvec-eq args) (ground arith)
prep_exec-new os cmd args (some env) = rw (cvec-eq args, cvec-eq env) (ground arith)
