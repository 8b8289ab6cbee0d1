-- ===== src/Builder/Cmdline/Line.antt =====
-- The line of `to_cmdline_lossy` (src/builder.rs) as its words.
use rust_subprocess.Prelude.{
  ℕ, ◌≤◌, ◌≡◌, ◌≢◌, not, none, some, Option, List, [], ◌∷◌, ◌++◌, map, append_assoc, Bool-cases,
  inl, inr, Bytes, length, keep_if, All, Bool, true, false, refl, arith,
}
use rust_subprocess.Popen.Environment.{Entry, same_bytes, format_entry}
use rust_subprocess.Popen.Environment.LastEntries.{last_value}
use rust_subprocess.Builder.Exec.{Exec}
use rust_subprocess.Builder.Display.{display_escape}
use rust_subprocess.Builder.Cmdline.{
  get, is_current, contains_key, show_set, show_unset, show_env, show_args, to_cmdline_lossy,
}
use rust_subprocess.Builder.Cmdline.Words.{
  split_words, Splits, IsNonempty, IsBoundary-show_args, Splits-printed, Splits-show_args,
  Splits-assignment, Splits-unset,
}

abbrev is_value : Bytes → Option Bytes → Bool
is_value v none = false
is_value v (some value) = same_bytes value v

-- The entry is the parent's: the last one of that name there has this value.
abbrev pub unchanged : List Entry → Entry → Bool
unchanged current (k, v) = is_value v (last_value (λ n. n) k current)

-- The name is set at all.
abbrev pub is_set : List Entry → Entry → Bool
is_set env (k, v) = elim (last_value (λ n. n) k env) [ none ↦ false | some value ↦ true ]

-- The assignments of a command: of its variables that the parent has not with the same value, and
-- of nothing to the parent's variables that it has not.
abbrev pub assignments : List Entry → Option (List Entry) → List Bytes
assignments current none = []
assignments current (some cmd_env) =
    map format_entry (keep_if (λ entry. not (unchanged current entry)) cmd_env)
    ++ map (λ (entry : Entry). format_entry (entry.0, []))
        (keep_if (λ entry. not (is_set cmd_env entry)) current)

same_bytes_sym : (xs ys : Bytes) → same_bytes xs ys ≡ same_bytes ys xs
same_bytes_sym [] [] = refl
same_bytes_sym [] (y ∷ ys) = refl
same_bytes_sym (x ∷ xs) [] = refl
same_bytes_sym (x ∷ xs) (y ∷ ys) = ground (arith, same_bytes_sym xs ys)

get-last_value : (k : Bytes) (env : List Entry) → get k env ≡ last_value (λ n. n) k env
unfolding get
get-last_value k [] = refl
get-last_value k ((n, v) ∷ env) = ground (arith, get-last_value k env, same_bytes_sym n k)

is_current-unchanged :
    (current : List Entry) (k v : Bytes) → is_current current (k, v) ≡ unchanged current (k, v)
unfolding is_current
is_current-unchanged current k v = ground (arith, get-last_value k current)

contains_key-is_set :
    (cmd_env : List Entry) (k v : Bytes) → contains_key k cmd_env ≡ is_set cmd_env (k, v)
unfolding contains_key
contains_key-is_set cmd_env k v = ground (arith, get-last_value k cmd_env)

Splits-show_set :
    (current cmd_env : List Entry) (line : Bytes) (words : List Bytes)
    → Splits line words
    → Splits
        (show_set current cmd_env ++ line)
        (map format_entry (keep_if (λ entry. not (unchanged current entry)) cmd_env) ++ words)
unfolding show_set
Splits-show_set current [] line words next = next
Splits-show_set current ((k, v) ∷ cmd_env) line words next =
    let later = Splits-show_set current cmd_env line words next in
    let same = is_current-unchanged current k v in
    elim (Bool-cases (unchanged current (k, v))) [
      | inl e ↦ rw (same, e, not) later
      | inr e ↦
          rw (same, e, not, append_assoc, append_assoc)
            (Splits-assignment k v (show_set current cmd_env ++ line) _ later)
    ]

Splits-show_unset :
    (cmd_env current : List Entry) (line : Bytes) (words : List Bytes)
    → Splits line words
    → Splits (show_unset cmd_env current ++ line) (
        map
          (λ (entry : Entry). format_entry (entry.0, []))
          (keep_if (λ entry. not (is_set cmd_env entry)) current)
        ++ words)
unfolding show_unset
Splits-show_unset cmd_env [] line words next = next
Splits-show_unset cmd_env ((k, v) ∷ current) line words next =
    let later = Splits-show_unset cmd_env current line words next in
    let same = contains_key-is_set cmd_env k v in
    elim (Bool-cases (is_set cmd_env (k, v))) [
      | inl e ↦ rw (same, e, not) later
      | inr e ↦
          rw (same, e, not, append_assoc)
            (Splits-unset k (show_unset cmd_env current ++ line) _ later)
    ]

Splits-show_env :
    (current : List Entry) (env : Option (List Entry)) (line : Bytes) (words : List Bytes)
    → Splits line words
    → Splits (show_env current env ++ line) (assignments current env ++ words)
unfolding show_env
Splits-show_env current none line words next = next
Splits-show_env current (some cmd_env) line words next =
    rw (append_assoc, append_assoc)
      (Splits-show_set current cmd_env _ _ (Splits-show_unset cmd_env current line words next))

pub split_words-to_cmdline_lossy :
    (current : List Entry) (e : Exec) (fuel : ℕ)
    → e.command ≢ []
    → All IsNonempty e.args
    → length (to_cmdline_lossy current e) ≤ fuel
    → split_words fuel (to_cmdline_lossy current e)
      ≡ some (assignments current e.config.env ++ e.command ∷ e.args)
unfolding to_cmdline_lossy
split_words-to_cmdline_lossy current e fuel command args enough =
    let printed =
      Splits-printed e.command (show_args e.args) e.args command (IsBoundary-show_args e.args)
        (Splits-show_args e.args args) in
    Splits-show_env current e.config.env (display_escape e.command ++ show_args e.args)
      (e.command ∷ e.args) printed fuel enough
