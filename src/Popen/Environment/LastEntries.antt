-- ===== src/Popen/Environment/LastEntries.antt =====
-- The entries that `format_env` and `format_env_block` of src/popen.rs keep.
use mathlib.Core.List.{reverse-cons, reverse-append}
use rust_subprocess.Prelude.{
  ◌≡◌, refl, ap, ◌∙◌, Bool, true, false, ◌||◌, List, [], ◌∷◌, ◌++◌, append-nil, map, reverse,
  Option, none, some, arith, if◌then◌else◌, Bytes, Bool-cases, inl, inr,
}
use rust_subprocess.Popen.Environment.{
  Entry, same_bytes, has, keep, format_entry, format_env, to_uppercase, block, format_env_block,
}

pub same_bytes-eq : (xs ys : Bytes) → same_bytes xs ys ≡ true → xs ≡ ys
same_bytes-eq [] [] h = refl
same_bytes-eq [] (y ∷ ys) h = cc
same_bytes-eq (x ∷ xs) [] h = cc
same_bytes-eq (x ∷ xs) (y ∷ ys) h = ground (arith, h, same_bytes-eq xs ys)

abbrev is_some : Option Bytes → Bool
is_some none = false
is_some (some value) = true

module _ (norm : Bytes → Bytes) where
  abbrev pub has_key : Bytes → List Entry → Bool
  has_key key [] = false
  has_key key (entry ∷ env) = same_bytes key (norm entry.0) || has_key key env

  -- The entries behind which there is none of the same name, in their order.
  unfoldable pub last_entries : List Entry → List Entry
  last_entries [] = []
  last_entries (entry ∷ env) =
      let rest = last_entries env in if has_key (norm entry.0) env then rest else entry ∷ rest

  abbrev unless : Bool → Entry → List Entry
  unless true entry = []
  unless false entry = entry ∷ []

  keep-snoc :
      (env : List Entry) (seen : List Bytes) (entry : Entry)
      → keep norm seen (env ++ entry ∷ [])
        ≡ keep norm seen env ++ unless (has (norm entry.0) seen || has_key (norm entry.0) env) entry
  unfolding keep
  keep-snoc [] seen entry = ground arith
  keep-snoc (first ∷ env) seen entry = elim (Bool-cases (has (norm first.0) seen)) [
    | inl e ↦
        ground (arith, e, keep-snoc env seen entry, same_bytes-eq (norm entry.0) (norm first.0))
    | inr e ↦ ground (arith, e, keep-snoc env (norm first.0 ∷ seen) entry)
  ]

  has_key-append :
      (key : Bytes) (xs ys : List Entry)
      → has_key key (xs ++ ys) ≡ (has_key key xs || has_key key ys)
  has_key-append key [] ys = refl
  has_key-append key (x ∷ xs) ys = ground (arith, has_key-append key xs ys)

  has_key-reverse : (key : Bytes) (env : List Entry) → has_key key (reverse env) ≡ has_key key env
  has_key-reverse key [] = refl
  has_key-reverse key (entry ∷ env) =
      rw (reverse-cons entry env, has_key-append key (reverse env) (entry ∷ []))
        (ground (arith, has_key-reverse key env))

  abbrev pub pruned : List Entry → List Entry
  pruned env = reverse (keep norm [] (reverse env))

  reverse-unless :
      (b : Bool) (env : List Entry) (entry : Entry)
      → reverse (env ++ unless b entry) ≡ (if b then reverse env else entry ∷ reverse env)
  reverse-unless true env entry = rw append-nil refl
  reverse-unless false env entry = reverse-append env (entry ∷ [])

  pub pruned-last_entries : (env : List Entry) → pruned env ≡ last_entries env
  unfolding last_entries
  pruned-last_entries [] = unfold keep in refl
  pruned-last_entries (entry ∷ env) =
      rw
        (
          reverse-cons entry env,
          keep-snoc (reverse env) [] entry,
          has_key-reverse (norm entry.0) env,
        )
        (rw⁻¹ (pruned-last_entries env)
          (reverse-unless (has_key (norm entry.0) env) (keep norm [] (reverse env)) entry))

  -- The value of the first entry of a name, and of the last one.
  abbrev pub first_value : Bytes → List Entry → Option Bytes
  first_value key [] = none
  first_value key (entry ∷ env) =
      if same_bytes key (norm entry.0) then some entry.1 else first_value key env

  abbrev pub last_value : Bytes → List Entry → Option Bytes
  last_value key [] = none
  last_value key (entry ∷ env) = elim (last_value key env) [
    | some value ↦ some value
    | none ↦ if same_bytes key (norm entry.0) then some entry.1 else none
  ]

  has_key-last_value :
      (key : Bytes) (env : List Entry) → has_key key env ≡ is_some (last_value key env)
  has_key-last_value key [] = refl
  has_key-last_value key (entry ∷ env) = ground (arith, has_key-last_value key env)

  first_value-last_entries :
      (key : Bytes) (env : List Entry) → first_value key (last_entries env) ≡ last_value key env
  unfolding last_entries
  first_value-last_entries key [] = refl
  first_value-last_entries key (entry ∷ env) = ground (
    arith,
    first_value-last_entries key env,
    has_key-last_value (norm entry.0) env,
    has_key-last_value key env,
    same_bytes-eq key (norm entry.0),
  )

  -- In the entries that are kept, the first of any name has the value that the last one had in all of
  -- them: a later setting overrides an earlier one, and no name is lost.
  pub first_value-pruned :
      (key : Bytes) (env : List Entry) → first_value key (pruned env) ≡ last_value key env
  first_value-pruned key env = rw (pruned-last_entries env) (first_value-last_entries key env)

map-snoc :
    (env : List Entry) (entry : Entry)
    → map format_entry (env ++ entry ∷ []) ≡ map format_entry env ++ format_entry entry ∷ []
map-snoc [] entry = refl
map-snoc (e ∷ env) entry = rw (map-snoc env entry)

reverse-map : (env : List Entry) → reverse (map format_entry env) ≡ map format_entry (reverse env)
reverse-map [] = refl
reverse-map (entry ∷ env) = rw (
  reverse-cons entry env,
  reverse-cons (format_entry entry) (map format_entry env),
  map-snoc (reverse env) entry,
  reverse-map env,
)

-- The child gets `key=value` for the last entry of each name, in the order of these entries.
pub format_env-last_entries :
    (env : List Entry) → format_env env ≡ map format_entry (last_entries (λ k. k) env)
unfolding format_env
format_env-last_entries env =
    reverse-map (keep (λ k. k) [] (reverse env))
    ∙ ap (map format_entry) (pruned-last_entries (λ k. k) env)

pub format_env_block-last_entries :
    (env : List Entry) → format_env_block env ≡ block (last_entries to_uppercase env)
unfolding format_env_block
format_env_block-last_entries env = ap block (pruned-last_entries to_uppercase env)
