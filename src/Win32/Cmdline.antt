-- ===== src/Win32/Cmdline.antt =====
-- `assemble_cmdline` and `append_quoted` of src/popen.rs (Windows): an argument vector becomes one
-- command line. Strings are lists of UTF-16 units.
mod Tests
pub mod Quoting
pub mod Splitting
pub mod ProgramName
pub mod RoundTrip
pub mod Nuls
use rust_subprocess.Prelude.{
  ℕ, zero, suc, ◌+◌, ◌*◌, ◌<◌, ◌≡◌, refl, Bool, true, false, not, ◌&&◌, ◌||◌, List, [], ◌∷◌, ◌++◌,
  arith, ◌==◌, if◌then◌else◌, length, replicate, is_empty, any, Result, ok, err, IoError, os_error,
  pos,
}

-- A Windows string, in UTF-16 units.
abbrev pub Units : Type 0
Units = List ℕ

abbrev pub backslash : ℕ
backslash = b'\\'

abbrev pub quote : ℕ
quote = b'"'

abbrev pub space : ℕ
space = b' '

-- The units that force an argument into quotes.
abbrev pub is_special : ℕ → Bool
is_special c = c == space || c == b'\t' || c == b'\n' || c == 0x0b || c == quote

-- `while i < arg.len() && arg[i] == '\\'`: the count of backslashes, and what follows them.
skip_backslashes : Units → ℕ → ℕ × Units
skip_backslashes [] n = (n, [])
skip_backslashes (c ∷ arg) n =
    let rest = skip_backslashes arg (n + 1) in if c == backslash then rest else (n, c ∷ arg)

-- One round of the loop over the argument: what it appends after `n` backslashes, before `rest`.
chunk : ℕ → ℕ → Units
chunk n c =
    if c == quote
    then replicate (n * 2 + 1) backslash ++ c ∷ []
    else replicate n backslash ++ c ∷ []

-- `while i < arg.len()`: a round skips backslashes and copies one unit. The first argument bounds
-- the rounds.
pub quote_loop : ℕ → Units → Units → Units
quote_loop zero arg cmdline = cmdline
quote_loop (suc fuel) [] cmdline = cmdline
quote_loop (suc fuel) (a ∷ arg) cmdline =
    let (n, found) = skip_backslashes (a ∷ arg) 0 in
    elim found [
      | [] ↦ cmdline ++ replicate (n * 2) backslash
      | c ∷ rest ↦ quote_loop fuel rest (cmdline ++ chunk n c)
    ]

pub append_quoted : Units → Units → Units
unfolding quote_loop
append_quoted arg cmdline =
    if not (is_empty arg) && not (any is_special arg)
    then cmdline ++ arg
    else quote_loop (suc (length arg)) arg (cmdline ++ quote ∷ []) ++ quote ∷ []

-- `ERROR_BAD_PATHNAME`
abbrev pub bad_pathname : IoError
bad_pathname = os_error (pos 161)

-- `for arg in argv`
pub assemble_loop : List Units → Bool → Units → Result Units IoError
unfolding append_quoted
assemble_loop [] is_first cmdline = ok cmdline
assemble_loop (arg ∷ argv) is_first cmdline =
    let cmdline' = if not is_first then cmdline ++ space ∷ [] else cmdline in
    let rest = assemble_loop argv false (append_quoted arg cmdline') in
    if any (λ c. c == 0) arg then err bad_pathname else rest

pub assemble_cmdline : List Units → Result Units IoError
unfolding assemble_loop
assemble_cmdline argv = assemble_loop argv true []
