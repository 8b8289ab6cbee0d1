-- ===== src/Communicate/Helpers/Bitset.antt =====
-- `StreamIdent` of src/communicate.rs (Windows), and the sets of streams that a `u8` holds.
use rust_subprocess.Prelude.{ℕ, ◌+◌, ◌-◌, Bool, true, false, ◌≡◌, refl, bit_and, if◌then◌else◌}

pub data StreamIdent : Type 0 where
  stream_in stream_out stream_err : StreamIdent

-- `ident as u8`
abbrev pub bit : StreamIdent → ℕ
bit stream_in = 1
bit stream_out = 2
bit stream_err = 4

-- `set &= !(ident as u8)`
unfoldable pub remove : StreamIdent → ℕ → ℕ
remove ident set = bit_and set (255 - bit ident)

-- `set & ident as u8`
abbrev pub common : StreamIdent → ℕ → ℕ
common ident set = bit_and set (bit ident)

-- The set of the three streams that are marked.
abbrev pub bits : Bool → Bool → Bool → ℕ
bits has_in has_out has_err =
    (if has_in then 1 else 0) + (if has_out then 2 else 0) + (if has_err then 4 else 0)

abbrev without : StreamIdent → Bool → Bool → Bool → ℕ
without stream_in i o e = bits false o e
without stream_out i o e = bits i false e
without stream_err i o e = bits i o false

pub remove-bits :
    (ident : StreamIdent) (i o e : Bool) → remove ident (bits i o e) ≡ without ident i o e
unfolding remove
remove-bits stream_in true true true = refl
remove-bits stream_in true true false = refl
remove-bits stream_in true false true = refl
remove-bits stream_in true false false = refl
remove-bits stream_in false true true = refl
remove-bits stream_in false true false = refl
remove-bits stream_in false false true = refl
remove-bits stream_in false false false = refl
remove-bits stream_out true true true = refl
remove-bits stream_out true true false = refl
remove-bits stream_out true false true = refl
remove-bits stream_out true false false = refl
remove-bits stream_out false true true = refl
remove-bits stream_out false true false = refl
remove-bits stream_out false false true = refl
remove-bits stream_out false false false = refl
remove-bits stream_err true true true = refl
remove-bits stream_err true true false = refl
remove-bits stream_err true false true = refl
remove-bits stream_err true false false = refl
remove-bits stream_err false true true = refl
remove-bits stream_err false true false = refl
remove-bits stream_err false false true = refl
remove-bits stream_err false false false = refl
