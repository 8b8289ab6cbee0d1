-- ===== src/Builder/Cmdline/Tests.antt =====
-- A command line with a changed, an added and a removed variable.
use rust_subprocess.Prelude.{◌≡◌, refl, some, List, [], ◌∷◌, codes, arith}
use rust_subprocess.Popen.Environment.{Entry}
use rust_subprocess.Builder.Exec.{Exec, cmd}
use rust_subprocess.Builder.Display.{display_escape, all_nice, nice_char, replace_apostrophes}
use rust_subprocess.Builder.Cmdline.{
  get, is_current, contains_key, show_set, show_unset, show_env, show_args, to_cmdline_lossy,
}
use rust_subprocess.Builder.Cmdline.Words.{split_words}
use rust_subprocess.Builder.Cmdline.Line.{split_words-to_cmdline_lossy}

abbrev current : List Entry
current = (codes "HOME", codes "/root") ∷ (codes "LANG", codes "C") ∷ []

abbrev printing : Exec
printing = record (cmd (codes "echo")) {
  args = codes "a b" ∷ codes "it's" ∷ [];
  config = record (cmd (codes "echo")).config {
    env = some ((codes "LANG", codes "C") ∷ (codes "X", codes "1 2") ∷ []);
  };
}

printed_line : to_cmdline_lossy current printing ≡ codes "X='1 2' HOME= echo 'a b' 'it'\\''s'"
unfolding to_cmdline_lossy show_env show_set show_unset show_args get is_current contains_key
    display_escape all_nice nice_char replace_apostrophes cmd
printed_line = refl

split_words-to_cmdline_lossy_example :
    split_words 40 (to_cmdline_lossy current printing)
    ≡ some (codes "X=1 2" ∷ codes "HOME=" ∷ codes "echo" ∷ codes "a b" ∷ codes "it's" ∷ [])
unfolding cmd
split_words-to_cmdline_lossy_example =
    split_words-to_cmdline_lossy current printing 40 (λ e. cc) ((λ e. cc), ((λ e. cc), tt))
      (rw printed_line (omega arith))
