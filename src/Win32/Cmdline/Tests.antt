-- ===== src/Win32/Cmdline/Tests.antt =====
-- Command lines of small argument vectors.
use rust_subprocess.Prelude.{[], ◌∷◌, ◌≡◌, refl, ok, err, codes, List, All}
use rust_subprocess.Win32.Cmdline.{Units, skip_backslashes, chunk, bad_pathname, assemble_cmdline}
use rust_subprocess.Win32.Cmdline.Splitting.{split_args, read_program, split_command}
use rust_subprocess.Win32.Cmdline.RoundTrip.{HasNoNul, split_command-assemble_cmdline}

plain_and_empty : assemble_cmdline (codes "x" ∷ [] ∷ codes "a b" ∷ []) ≡ ok (codes "x \"\" \"a b\"")
unfolding assemble_cmdline skip_backslashes chunk
plain_and_empty = refl

backslashes :
    assemble_cmdline (codes " \\\\" ∷ codes "\\\"x" ∷ []) ≡ ok (codes "\" \\\\\\\\\" \"\\\\\\\"x\"")
unfolding assemble_cmdline skip_backslashes chunk
backslashes = refl

abbrev argv : List Units
argv = codes "x" ∷ [] ∷ codes "a\\\"b\\" ∷ []

no_nul : All HasNoNul argv
no_nul = (refl, (refl, (refl, tt)))

split_command-assemble_cmdline_example :
    (cmdline : Units) × (assemble_cmdline argv ≡ ok cmdline) × (split_command cmdline ≡ argv)
split_command-assemble_cmdline_example =
    split_command-assemble_cmdline (codes "x") ([] ∷ codes "a\\\"b\\" ∷ []) (refl, refl) no_nul

-- Two marks inside of quotes are one mark, and nothing is escaped in the program's name.
marks :
    split_command (codes "\"a b\\\" \"c\"\" d\" e") ≡ codes "a b\\" ∷ codes "c\" d" ∷ codes "e" ∷ []
unfolding read_program split_args
marks = refl

-- A name with a blank that ends in a backslash is read back with two backslashes.
doubled :
    (assemble_cmdline (codes "a b\\" ∷ []) ≡ ok (codes "\"a b\\\\\""))
    × (split_command (codes "\"a b\\\\\"") ≡ codes "a b\\\\" ∷ [])
unfolding assemble_cmdline skip_backslashes chunk read_program
doubled = (refl, refl)

nul_refused : assemble_cmdline (codes "x" ∷ (97 ∷ 0 ∷ []) ∷ []) ≡ err bad_pathname
unfolding assemble_cmdline
nul_refused = refl
