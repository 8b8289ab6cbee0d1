-- ===== src/Posix/Exec/SearchPath.antt =====
-- `split_path` of src/posix.rs beside a description without indices.
use rust_subprocess.Prelude.{
  ℕ, zero, suc, ◌<◌, ◌≡◌, refl, ap, sym, ◌∙◌, List, [], ◌∷◌, Option, none, some, arith, ◌==◌,
  if◌then◌else◌, Option-cases, inl, inr, length, take, drop, is_empty, Bytes, length-drop,
}
use rust_subprocess.Posix.Exec.{colon, position, next_piece, pieces, split_path}

abbrev pub onto : ℕ → List Bytes → List Bytes
onto c [] = (c ∷ []) ∷ []
onto c (piece ∷ rest) = (c ∷ piece) ∷ rest

-- What stands before, between and behind the colons.
unfoldable pub split_on_colons : Bytes → List Bytes
split_on_colons [] = [] ∷ []
split_on_colons (c ∷ path) =
    let rest = split_on_colons path in if c == colon then [] ∷ rest else onto c rest

unfoldable pub nonempty : List Bytes → List Bytes
nonempty [] = []
nonempty (piece ∷ rest) =
    let others = nonempty rest in if is_empty piece then others else piece ∷ others

split_on_colons-none : (path : Bytes) → position path ≡ none → split_on_colons path ≡ path ∷ []
unfolding position split_on_colons
split_on_colons-none [] h = refl
split_on_colons-none (c ∷ path) h = ground (arith, h, split_on_colons-none path)

split_on_colons-some :
    (path : Bytes) (n : ℕ)
    → position path ≡ some n
    → (split_on_colons path ≡ take n path ∷ split_on_colons (drop (suc n) path)) × (0 < length path)
unfolding position split_on_colons
split_on_colons-some [] n h = cc
split_on_colons-some (c ∷ path) zero h = ground (arith, h)
split_on_colons-some (c ∷ path) (suc n) h = ground (arith, h, split_on_colons-some path n)

-- What one call of the iterator does to the list of directories.
abbrev Advances : Bytes → Option (Bytes × Bytes) → Type 0
Advances path none = nonempty (split_on_colons path) ≡ []
Advances path (some (piece, rest)) =
    (nonempty (split_on_colons path) ≡ piece ∷ nonempty (split_on_colons rest))
    × (length rest < length path)

next_piece-Advances :
    (fuel : ℕ) (path : Bytes) → length path < fuel → Advances path (next_piece fuel path)
unfolding next_piece nonempty split_on_colons
next_piece-Advances zero path h = absurd (omega arith)
next_piece-Advances (suc fuel) path h = elim (Option-cases (position path)) [
  | inl e ↦ ground (arith, e, split_on_colons-none path e)
  | inr (n, e) ↦ ground (
    arith,
    e,
    split_on_colons-some path n e,
    length-drop (suc n) path,
    next_piece-Advances fuel (drop (suc n) path),
  )
]

gather :
    (fuel : ℕ) (path : Bytes) (piece : Option (Bytes × Bytes))
    → length path < suc fuel
    → Advances path piece
    → ((rest : Bytes) → length rest < fuel → pieces fuel rest ≡ nonempty (split_on_colons rest))
    → elim piece [ none ↦ [] | some (piece, rest) ↦ piece ∷ pieces fuel rest ]
      ≡ nonempty (split_on_colons path)
gather fuel path none h a again = sym a
gather fuel path (some (piece, rest)) h (e, shorter) again =
    ap (◌∷◌ piece) (again rest (omega (arith, shorter, h))) ∙ sym e

pieces-nonempty :
    (fuel : ℕ) (path : Bytes)
    → length path < fuel
    → pieces fuel path ≡ nonempty (split_on_colons path)
unfolding pieces
pieces-nonempty zero path h = absurd (omega arith)
pieces-nonempty (suc fuel) path h =
    gather fuel path (next_piece (suc (length path)) path) h
      (next_piece-Advances (suc (length path)) path (omega arith))
      λ rest shorter. pieces-nonempty fuel rest shorter

-- The iterator gives the pieces between the colons of `PATH`, in their order, without the empty ones.
pub split_path-nonempty : (path : Bytes) → split_path path ≡ nonempty (split_on_colons path)
unfolding split_path
split_path-nonempty path = pieces-nonempty (suc (length path)) path (omega arith)
