-- ===== src/Posix/Exec/Tests.antt =====
-- A command that stands in the second directory of the path, on a system that executes one file.
use rust_subprocess.Prelude.{
  ℕ, ◌+◌, ◌≤◌, ◌≡◌, ◌↔◌, refl, Bool, true, false, ◌&&◌, [], ◌∷◌, ◌++◌, none, some, ◌==◌,
  if◌then◌else◌, length, Bytes, codes, All, ok, os_error, pos,
}
use rust_subprocess.Prelude.{◌||◌, map, any, err}
use rust_subprocess.Posix.Exec.Preparation.{
  has_nul, terminated, env_has_nul, terminated_env, prep_exec-new,
}
use rust_subprocess.Posix.Exec.{prep_exec, path_for, einval}
use rust_subprocess.Posix.Exec.{
  colon, split_path, pieces, next_piece, position, PrepExec, new, ExecOs, replaced, try_dirs, exec,
}
use rust_subprocess.Posix.Exec.SearchPath.{split_on_colons, nonempty, split_path-nonempty}
use rust_subprocess.Posix.Exec.Attempts.{
  candidates, in_order, is_ok, exec-in_order, new-fits, exec_no_directory,
}

abbrev same_bytes : Bytes → Bytes → Bool
same_bytes [] [] = true
same_bytes (x ∷ xs) (y ∷ ys) = x == y && same_bytes xs ys
same_bytes _ _ = false

-- The world counts the attempts.
abbrev system : ExecOs
system = record {
  World = ℕ;
  sys_exec = λ exe argv env w.
      if same_bytes exe (codes "/bin/ls" ++ 0 ∷ []) then none else some (os_error (pos 2), w + 1);
  path = some (codes "/usr:/bin");
}

ls : PrepExec
ls = new (codes "ls") [] none (some (codes "/usr::/bin:"))

splits : split_path (codes ":a::::b:") ≡ codes "a" ∷ codes "b" ∷ []
unfolding split_path pieces next_piece position
splits = refl

found : exec system ls 0 ≡ replaced (codes "/bin/ls" ++ 0 ∷ [])
unfolding exec try_dirs ls new split_path pieces next_piece position
found = refl

split_path-nonempty_example : split_path (codes "::a:") ≡ nonempty (split_on_colons (codes "::a:"))
split_path-nonempty_example = split_path-nonempty (codes "::a:")

exec-in_order_example :
    exec system (new (codes "ls") [] none (some (codes "/usr::/bin:"))) 0
    ≡ in_order system
        (new (codes "ls") [] none (some (codes "/usr::/bin:")))
        (candidates (codes "ls") (some (codes "/usr::/bin:")))
        (ok tt)
        0
exec-in_order_example = exec-in_order system (codes "ls") [] none (some (codes "/usr::/bin:")) 0

new-fits_example :
    All
      (λ exe. length exe ≤ (new (codes "ls") [] none (some (codes "/usr::/bin:"))).max_exe_len)
      (candidates (codes "ls") (some (codes "/usr::/bin:")))
new-fits_example = new-fits (codes "ls") [] none (some (codes "/usr::/bin:"))

exec_no_directory_example :
    (is_ok (exec system (new (codes "ls") [] none (some (codes "::"))) 0) ≡ true)
    ↔ (All (λ c. c ≡ colon) (codes "::"))
exec_no_directory_example = exec_no_directory system (codes "ls") [] none (codes "::") 0

prep_exec-new_example :
    prep_exec system (codes "ls") (codes "ls" ∷ (97 ∷ 0 ∷ []) ∷ []) (some (codes "A=1" ∷ [])) ≡ (
      if any has_nul (codes "ls" ∷ (97 ∷ 0 ∷ []) ∷ []) || env_has_nul (some (codes "A=1" ∷ []))
      then err einval
      else ok (
          new
            (codes "ls")
            (map terminated (codes "ls" ∷ (97 ∷ 0 ∷ []) ∷ []))
            (terminated_env (some (codes "A=1" ∷ [])))
            (path_for system (codes "ls"))))
prep_exec-new_example =
    prep_exec-new system (codes "ls") (codes "ls" ∷ (97 ∷ 0 ∷ []) ∷ []) (some (codes "A=1" ∷ []))
