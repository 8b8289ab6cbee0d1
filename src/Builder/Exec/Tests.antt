-- ===== src/Builder/Exec/Tests.antt =====
-- A command with a variable set and one removed.
use rust_subprocess.Prelude.{◌≡◌, List, [], ◌∷◌, none, some, if◌then◌else◌, codes}
use rust_subprocess.Popen.Environment.{Entry, same_bytes}
use rust_subprocess.Builder.Exec.{Exec, default_config, env, env_remove}
use rust_subprocess.Builder.Exec.Variables.{seen, variables, env-seen, env_remove-seen}

abbrev current : List Entry
current = (codes "A", codes "1") ∷ (codes "B", codes "2") ∷ []

abbrev ls : Exec
ls = record { command = codes "ls"; args = []; config = default_config; stdin_data = none }

env-seen_example : seen (codes "A") (variables current (env current ls (codes "A") (codes "9"))) ≡ (
    if same_bytes (codes "A") (codes "A")
    then some (codes "9")
    else seen (codes "A") (variables current ls))
env-seen_example = env-seen current ls (codes "A") (codes "9") (codes "A")

env_remove-seen_example :
    seen (codes "B") (variables current (env_remove current ls (codes "A")))
    ≡ (if same_bytes (codes "B") (codes "A") then none else seen (codes "B") (variables current ls))
env_remove-seen_example = env_remove-seen current ls (codes "A") (codes "B")
