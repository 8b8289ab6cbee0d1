-- ===== src/Builder/Display.antt =====
-- `display_escape` of src/builder.rs, by which a command line is printed for a shell. A string is the
-- list of its code points.
mod Tests
pub mod Shell
use rust_subprocess.Prelude.{
  ℕ, Bool, true, false, ◌&&◌, ◌||◌, List, [], ◌∷◌, ◌++◌, ◌==◌, leb, if◌then◌else◌, Bytes,
}

abbrev pub apostrophe : ℕ
apostrophe = b'\''

abbrev pub backslash : ℕ
backslash = b'\\'

abbrev pub within : ℕ → ℕ → ℕ → Bool
within low high c = leb low c && leb c high

-- `c.is_ascii_alphanumeric()` is the last line.
unfoldable pub nice_char : ℕ → Bool
nice_char c =
    (c == b'-' || c == b'_' || c == b'.' || c == b',' || c == b'/')
    || (within b'0' b'9' c || within b'A' b'Z' c || within b'a' b'z' c)

unfoldable pub all_nice : Bytes → Bool
all_nice [] = true
all_nice (c ∷ s) = nice_char c && all_nice s

-- `s.replace("'", r#"'\''"#)`
unfoldable pub replace_apostrophes : Bytes → Bytes
replace_apostrophes [] = []
replace_apostrophes (c ∷ s) =
    let rest = replace_apostrophes s in
    if c == apostrophe then apostrophe ∷ backslash ∷ apostrophe ∷ apostrophe ∷ rest else c ∷ rest

unfoldable pub display_escape : Bytes → Bytes
display_escape s = if all_nice s then s else apostrophe ∷ (replace_apostrophes s ++ apostrophe ∷ [])
