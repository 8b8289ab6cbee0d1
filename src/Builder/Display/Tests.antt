-- ===== src/Builder/Display/Tests.antt =====
-- A word that needs quoting.
use rust_subprocess.Prelude.{◌≡◌, refl, [], ◌++◌, codes, some}
use rust_subprocess.Builder.Display.{display_escape, all_nice, nice_char, replace_apostrophes}
use rust_subprocess.Builder.Display.Shell.{bare, read_word, at_space, read_word-display_escape}

printed : display_escape (codes "it's") ≡ codes "'it'\\''s'"
unfolding display_escape all_nice nice_char replace_apostrophes
printed = refl

-- Nothing is printed for an empty argument.
empty_vanishes : display_escape [] ≡ []
unfolding display_escape all_nice
empty_vanishes = refl

read_word-display_escape_example :
    read_word bare [] (display_escape (codes "a 'b\\") ++ codes " c")
    ≡ some (codes "a 'b\\", codes " c")
read_word-display_escape_example =
    read_word-display_escape (codes "a 'b\\") (codes " c") (at_space (codes "c"))
