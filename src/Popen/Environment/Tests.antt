-- ===== src/Popen/Environment/Tests.antt =====
-- An environment in which a name is set twice.
use rust_subprocess.Prelude.{◌≡◌, refl, List, [], ◌∷◌, map, codes, All, some}
use rust_subprocess.Popen.Environment.{
  Entry, keep, format_entry, format_env, to_uppercase, format_env_block,
}
use rust_subprocess.Popen.Environment.Blocks.{
  HasNoNul, overriding, read_block, assigned, read_block-format_env_block,
}
use rust_subprocess.Popen.Environment.LastEntries.{
  first_value, last_value, last_entries, pruned, first_value-pruned, format_env-last_entries,
}

abbrev env : List Entry
env =
    (codes "A", codes "1")
    ∷ (codes "b", codes "2")
    ∷ (codes "A", codes "3")
    ∷ (codes "a", codes "4")
    ∷ []

formatted : format_env env ≡ codes "b=2" ∷ codes "A=3" ∷ codes "a=4" ∷ []
unfolding format_env keep
formatted = refl

format_env-last_entries_example : format_env env ≡ map format_entry (last_entries (λ k. k) env)
format_env-last_entries_example = format_env-last_entries env

has_no_nul : All HasNoNul env
has_no_nul = ((refl, refl), ((refl, refl), ((refl, refl), ((refl, refl), tt))))

kept : overriding env ≡ (codes "b", codes "2") ∷ (codes "a", codes "4") ∷ []
unfolding overriding
kept = refl

read_block-format_env_block_example :
    read_block [] (format_env_block env) ≡ some (map assigned (overriding env))
read_block-format_env_block_example = read_block-format_env_block env has_no_nul

first_value-pruned_example :
    first_value to_uppercase (codes "A") (pruned to_uppercase env)
    ≡ last_value to_uppercase (codes "A") env
first_value-pruned_example = first_value-pruned to_uppercase (codes "A") env
