-- ===== src/Popen/Environment.antt =====
-- `format_env` (Unix) and `format_env_block` (Windows) of src/popen.rs: the environment that a child
-- gets. A string is a list of bytes, or of UTF-16 units; a `HashSet` is the list of what is in it.
mod Tests
pub mod LastEntries
pub mod Blocks
use rust_subprocess.Prelude.{
  ℕ, ◌-◌, Bool, true, false, ◌&&◌, ◌||◌, List, [], ◌∷◌, ◌++◌, map, reverse, ◌==◌, ltb, leb,
  if◌then◌else◌, any, Bytes,
}

abbrev pub Entry : Type 0
Entry = Bytes × Bytes

abbrev pub same_bytes : Bytes → Bytes → Bool
same_bytes [] [] = true
same_bytes (x ∷ xs) (y ∷ ys) = x == y && same_bytes xs ys
same_bytes _ _ = false

abbrev pub has : Bytes → List Bytes → Bool
has key seen = any (same_bytes key) seen

-- `.filter(|&(k, _)| seen.insert(norm(k)))`
unfoldable pub keep : (Bytes → Bytes) → List Bytes → List Entry → List Entry
keep norm seen [] = []
keep norm seen (entry ∷ env) =
    let known = keep norm seen env in
    let fresh = keep norm (norm entry.0 ∷ seen) env in
    if has (norm entry.0) seen then known else entry ∷ fresh

abbrev pub equals : ℕ
equals = b'='

-- `key=value`
abbrev pub format_entry : Entry → Bytes
format_entry (k, v) = k ++ equals ∷ v

unfoldable pub format_env : List Entry → List Bytes
format_env env = reverse (map format_entry (keep (λ k. k) [] (reverse env)))

-- `to_uppercase`, of ASCII letters only.
unfoldable pub to_uppercase : Bytes → Bytes
to_uppercase [] = []
to_uppercase (c ∷ s) = (if leb b'a' c && leb c b'z' then c - 32 else c) ∷ to_uppercase s

-- `for (k, v) in pruned`
unfoldable pub block : List Entry → Bytes
block [] = 0 ∷ []
block (entry ∷ env) = (format_entry entry ++ 0 ∷ []) ++ block env

unfoldable pub format_env_block : List Entry → Bytes
format_env_block env = block (reverse (keep to_uppercase [] (reverse env)))
