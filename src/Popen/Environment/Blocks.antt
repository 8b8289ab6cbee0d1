-- ===== src/Popen/Environment/Blocks.antt =====
-- The environment block of `format_env_block` (src/popen.rs) beside a reader of such blocks, and
-- beside names that are compared unit by unit.
use mathlib.Core.Option
use rust_subprocess.Prelude.{
  ℕ, ◌+◌, ◌≡◌, refl, ◌∙◌, Bool, true, false, ◌&&◌, ◌||◌, List, [], ◌∷◌, ◌++◌, append_assoc, map,
  Option, none, some, All, any, arith, ◌==◌, leb, ◌-◌, if◌then◌else◌, is_empty, Bytes, Bool-cases,
  inl, inr, append-nil,
}
use rust_subprocess.Popen.Environment.{
  Entry, same_bytes, format_entry, to_uppercase, block, format_env_block,
}
use rust_subprocess.Popen.Environment.LastEntries.{
  has_key, last_entries, format_env_block-last_entries,
}

-- The same unit, or the capital and the small form of one ASCII letter.
abbrev pub same_unit : ℕ → ℕ → Bool
same_unit c d =
    c == d || (leb b'a' c && leb c b'z' && c == d + 32) || (leb b'a' d && leb d b'z' && d == c + 32)

abbrev pub same_name : Bytes → Bytes → Bool
same_name [] [] = true
same_name (c ∷ k) (d ∷ l) = same_unit c d && same_name k l
same_name _ _ = false

-- The entries behind which there is none of the same name.
unfoldable pub overriding : List Entry → List Entry
overriding [] = []
overriding (entry ∷ env) =
    let rest = overriding env in
    if any (λ (later : Entry). same_name entry.0 later.0) env then rest else entry ∷ rest

abbrev pub assigned : Entry → Bytes
assigned (k, v) = k ++ b'=' ∷ v

-- The strings of a block: each ends in a NUL, and an empty one, with nothing behind it, ends them.
unfoldable pub read_block : Bytes → Bytes → Option (List Bytes)
read_block cur [] = none
read_block cur (c ∷ s) =
    let next = read_block [] s in
    let more = read_block (cur ++ c ∷ []) s in
    if c == 0
    then (if is_empty cur
        then (if is_empty s then some [] else none)
        else Option.map (◌∷◌ cur) next)
    else more

abbrev pub HasNoNul : Entry → Type 0
HasNoNul (k, v) = (any (λ c. c == 0) k ≡ false) × (any (λ c. c == 0) v ≡ false)

same_unit_lem :
    (c d : ℕ)
    → ((if leb b'a' c && leb c b'z' then c - 32 else c)
        == (if leb b'a' d && leb d b'z' then d - 32 else d))
      ≡ same_unit c d
same_unit_lem c d = ground arith

same_bytes-to_uppercase :
    (k l : Bytes) → same_bytes (to_uppercase k) (to_uppercase l) ≡ same_name k l
unfolding to_uppercase
same_bytes-to_uppercase [] [] = refl
same_bytes-to_uppercase [] (d ∷ l) = refl
same_bytes-to_uppercase (c ∷ k) [] = refl
same_bytes-to_uppercase (c ∷ k) (d ∷ l) = rw (same_unit_lem c d, same_bytes-to_uppercase k l) refl

has_key-to_uppercase :
    (k : Bytes) (env : List Entry)
    → has_key to_uppercase (to_uppercase k) env ≡ any (λ (later : Entry). same_name k later.0) env
has_key-to_uppercase k [] = refl
has_key-to_uppercase k (entry ∷ env) =
    rw (same_bytes-to_uppercase k entry.0, has_key-to_uppercase k env) refl

last_entries-overriding : (env : List Entry) → last_entries to_uppercase env ≡ overriding env
unfolding last_entries overriding
last_entries-overriding [] = refl
last_entries-overriding (entry ∷ env) =
    rw (has_key-to_uppercase entry.0 env, last_entries-overriding env) refl

overriding-HasNoNul : (env : List Entry) → All HasNoNul env → All HasNoNul (overriding env)
unfolding overriding
overriding-HasNoNul [] h = tt
overriding-HasNoNul (entry ∷ env) (h, hs) =
    elim (Bool-cases (any (λ (later : Entry). same_name entry.0 later.0) env)) [
      | inl e ↦ rw e (overriding-HasNoNul env hs)
      | inr e ↦ rw e (h, overriding-HasNoNul env hs)
    ]

read_block_string :
    (text cur s : Bytes)
    → any (λ c. c == 0) text ≡ false
    → read_block cur (text ++ s) ≡ read_block (cur ++ text) s
unfolding read_block
read_block_string [] cur s h = rw append-nil refl
read_block_string (c ∷ text) cur s h =
    let plain : (c == 0) ≡ false = ground arith in
    rw plain (read_block_string text (cur ++ c ∷ []) s (ground arith) ∙ rw append_assoc refl)

read_block_entry :
    (entry : Entry) (s : Bytes)
    → HasNoNul entry
    → read_block [] ((format_entry entry ++ 0 ∷ []) ++ s)
      ≡ Option.map (◌∷◌ (assigned entry)) (read_block [] s)
unfolding read_block
read_block_entry (k, v) s (h, h') =
    rw (append_assoc, append_assoc)
      (read_block_string k [] (b'=' ∷ (v ++ 0 ∷ s)) h
        ∙ read_block_string v (k ++ b'=' ∷ []) (0 ∷ s) h'
        ∙ ended k)
  where
    ended :
        (k : Bytes)
        → read_block ((k ++ b'=' ∷ []) ++ v) (0 ∷ s)
          ≡ Option.map (◌∷◌ (k ++ b'=' ∷ v)) (read_block [] s)
    ended [] = refl
    ended (c ∷ k) = rw append_assoc refl

read_block-block :
    (env : List Entry) → All HasNoNul env → read_block [] (block env) ≡ some (map assigned env)
unfolding block
read_block-block [] h = unfold read_block in refl
read_block-block (entry ∷ env) (h, hs) =
    read_block_entry entry (block env) h ∙ rw (read_block-block env hs) refl

pub read_block-format_env_block :
    (env : List Entry)
    → All HasNoNul env
    → read_block [] (format_env_block env) ≡ some (map assigned (overriding env))
read_block-format_env_block env h =
    rw (format_env_block-last_entries env, last_entries-overriding env)
      (read_block-block (overriding env) (overriding-HasNoNul env h))
