-- ===== src/Builder/Cmdline/Words.antt =====
-- The words that a POSIX shell makes of the line of `to_cmdline_lossy` (src/builder.rs).
use rust_subprocess.Prelude.{
  ℕ, zero, suc, ◌≤◌, ◌<◌, ◌≡◌, ◌≢◌, refl, ◌∙◌, ap, false, List, [], ◌∷◌, ◌++◌, ◌&&◌, ◌⊎◌,
  append_assoc, arith, ◌==◌, if◌then◌else◌, Bool-cases, inl, inr, Bytes, length, length-append, All,
  Option, none, some,
}
use rust_subprocess.Popen.Environment.{format_entry}
use rust_subprocess.Builder.Display.{nice_char, all_nice, display_escape}
use rust_subprocess.Builder.Display.Shell.{
  bare, read_word, read_word_printed, read_word_boundary, IsBoundary, at_end, at_space,
  nice_char_plain,
}
use rust_subprocess.Builder.Cmdline.{equals, space, show_args}

-- A word before the others, if there are any.
abbrev pub before : Bytes → Option (List Bytes) → Option (List Bytes)
before word none = none
before word (some words) = some (word ∷ words)

-- A line is split at its spaces, and each word is read as the shell reads it.
unfoldable pub split_words : ℕ → Bytes → Option (List Bytes)
split_words zero [] = some []
split_words zero (c ∷ s) = none
split_words (suc fuel) [] = some []
split_words (suc fuel) (c ∷ s) =
    let skipped = split_words fuel s in
    let taken : Option (List Bytes) = elim (read_word bare [] (c ∷ s)) [
      | none ↦ none
      | some (word, rest) ↦ before word (split_words fuel rest)
    ] in
    if c == space then skipped else taken

abbrev StartsWord : Bytes → Type 0
StartsWord [] = ⊥
StartsWord (c ∷ s) = (c == space) ≡ false

-- With fuel for each of its characters a line is split into the words.
abbrev pub Splits : Bytes → List Bytes → Type 0
Splits line words = (fuel : ℕ) → length line ≤ fuel → split_words fuel line ≡ some words

Splits-nil : Splits [] []
unfolding split_words
Splits-nil zero h = refl
Splits-nil (suc fuel) h = refl

Splits-space : (line : Bytes) (words : List Bytes) → Splits line words → Splits (space ∷ line) words
unfolding split_words
Splits-space line words s zero h = absurd (omega arith)
Splits-space line words s (suc fuel) h = s fuel (omega arith)

Splits-word :
    (line word rest : Bytes) (words : List Bytes)
    → StartsWord line
    → read_word bare [] line ≡ some (word, rest)
    → length rest < length line
    → Splits rest words
    → Splits line (word ∷ words)
unfolding split_words
Splits-word [] word rest words starts read shorter s fuel h = absurd starts
Splits-word (c ∷ line) word rest words starts read shorter s zero h = absurd (omega arith)
Splits-word (c ∷ line) word rest words starts read shorter s (suc fuel) h =
    rw (starts, read) (ap (before word) (s fuel (omega arith)))

StartsWord-printed :
    (s rest : Bytes) → (s ≢ []) ⊎ StartsWord rest → StartsWord (display_escape s ++ rest)
unfolding display_escape all_nice
StartsWord-printed [] rest (inl n) = absurd (n refl)
StartsWord-printed [] rest (inr h) = h
StartsWord-printed (c ∷ s) rest h = elim (Bool-cases (nice_char c && all_nice s)) [
  | inl e ↦ rw e (nice_char_plain c (ground (arith, e))).0
  | inr e ↦ rw e refl
]

length-display_escape : (s : Bytes) → s ≢ [] → 0 < length (display_escape s)
unfolding display_escape
length-display_escape [] n = absurd (n refl)
length-display_escape (c ∷ s) n = ground arith

pub IsBoundary-show_args : (args : List Bytes) → IsBoundary (show_args args)
unfolding show_args
IsBoundary-show_args [] = at_end
IsBoundary-show_args (arg ∷ args) = at_space (display_escape arg ++ show_args args)

abbrev pub IsNonempty : Bytes → Type 0
IsNonempty s = s ≢ []

pub Splits-printed :
    (s rest : Bytes) (words : List Bytes)
    → s ≢ []
    → IsBoundary rest
    → Splits rest words
    → Splits (display_escape s ++ rest) (s ∷ words)
Splits-printed s rest words n b next =
    Splits-word (display_escape s ++ rest) s rest words (StartsWord-printed s rest (inl n))
      (read_word_printed s [] rest ∙ read_word_boundary s b)
      (omega (arith, length-append (display_escape s) rest, length-display_escape s n)) next

pub Splits-show_args : (args : List Bytes) → All IsNonempty args → Splits (show_args args) args
unfolding show_args
Splits-show_args [] h = Splits-nil
Splits-show_args (arg ∷ args) (n, h) =
    Splits-space (display_escape arg ++ show_args args) (arg ∷ args) (
      Splits-printed arg (show_args args) args n (IsBoundary-show_args args)
        (Splits-show_args args h))

-- An assignment before the rest of the line.
pub Splits-assignment :
    (k v line : Bytes) (words : List Bytes)
    → Splits line words
    → Splits
        (display_escape k ++ equals ∷ (display_escape v ++ space ∷ line))
        (format_entry (k, v) ∷ words)
Splits-assignment k v line words next =
    Splits-word (display_escape k ++ equals ∷ (display_escape v ++ space ∷ line))
      (format_entry (k, v)) (space ∷ line) words
      (StartsWord-printed k (equals ∷ (display_escape v ++ space ∷ line)) (inr refl))
      (read_word_printed k [] (equals ∷ (display_escape v ++ space ∷ line))
        ∙ unfold read_word in
          (read_word_printed v (k ++ equals ∷ []) (space ∷ line) ∙ rw append_assoc refl))
      (omega (
        arith,
        length-append (display_escape k) (equals ∷ (display_escape v ++ space ∷ line)),
        length-append (display_escape v) (space ∷ line),
      ))
      (Splits-space line words next)

-- A variable that is unset is shown as one without a value.
pub Splits-unset :
    (k line : Bytes) (words : List Bytes)
    → Splits line words
    → Splits (display_escape k ++ equals ∷ space ∷ line) (format_entry (k, []) ∷ words)
Splits-unset k line words next =
    Splits-word (display_escape k ++ equals ∷ space ∷ line) (format_entry (k, [])) (space ∷ line)
      words (StartsWord-printed k (equals ∷ space ∷ line) (inr refl))
      (read_word_printed k [] (equals ∷ space ∷ line) ∙ unfold read_word in refl)
      (omega (arith, length-append (display_escape k) (equals ∷ space ∷ line)))
      (Splits-space line words next)
