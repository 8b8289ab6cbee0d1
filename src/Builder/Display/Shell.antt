-- ===== src/Builder/Display/Shell.antt =====
-- How a POSIX shell reads a word, and what it makes of the words that
-- `display_escape` of src/builder.rs prints.
use rust_subprocess.Prelude.{
  ℕ, ◌≡◌, refl, ◌∙◌, true, false, [], ◌∷◌, ◌++◌, append-nil, append_assoc, arith, ◌==◌, ==_iff,
  if◌then◌else◌, Bool-cases, inl, inr, Bytes, Option, none, some, Bool, ◌||◌,
}
use rust_subprocess.Builder.Display.{
  within, apostrophe, backslash, nice_char, all_nice, replace_apostrophes, display_escape,
}

-- Where the shell stands: outside of apostrophes, behind a backslash there, or between apostrophes.
pub data Mode : Type 0 where
  bare escaped quoted : Mode

abbrev pub space : ℕ
space = b' '

abbrev pub newline : ℕ
newline = b'\n'

-- The other characters that mean something to a POSIX shell where they are not quoted: tab and newline,
-- `"#$%&`, `()*`, `;<`, `>?`, and five more. A `=` only makes a word an assignment.
abbrev pub is_operator : ℕ → Bool
is_operator c =
    within b'\t' newline c
    || within b'"' b'&' c
    || within b'(' b'*' c
    || within b';' b'<' c
    || within b'>' b'?' c
    || (c == b'[' || c == b'`' || c == b'|' || c == b'~' || c == b'!')

-- The word that stands at the beginning, behind what was read of it, and what follows it. There is
-- none where a quote is not closed, or where anything that is not quoted means more than itself.
unfoldable pub read_word : Mode → Bytes → Bytes → Option (Bytes × Bytes)
read_word bare word [] = some (word, [])
read_word escaped word [] = none
read_word quoted word [] = none
read_word bare word (c ∷ s) =
    let escape = read_word escaped word s in
    let quote = read_word quoted word s in
    let take = read_word bare (word ++ c ∷ []) s in
    if c == space
    then some (word, c ∷ s)
    else if c == backslash
    then escape
    else if c == apostrophe
    then quote
    else if is_operator c
    then none
    else take
read_word escaped word (c ∷ s) =
    let continued = read_word bare word s in
    let take = read_word bare (word ++ c ∷ []) s in if c == newline then continued else take
read_word quoted word (c ∷ s) =
    let close = read_word bare word s in
    let take = read_word quoted (word ++ c ∷ []) s in if c == apostrophe then close else take

-- What may follow a word: the end, or a space.
pub data IsBoundary : Bytes → Type 0 where
  at_end : IsBoundary []
  at_space : (s : Bytes) → IsBoundary (space ∷ s)

pub read_word_boundary :
    (word : Bytes) {rest : Bytes} → IsBoundary rest → read_word bare word rest ≡ some (word, rest)
unfolding read_word
read_word_boundary word at_end = refl
read_word_boundary word (at_space s) = refl

pub nice_char_plain :
    (c : ℕ)
    → nice_char c ≡ true
    → ((c == space) ≡ false)
      × ((c == backslash) ≡ false)
      × ((c == apostrophe) ≡ false)
      × (is_operator c ≡ false)
unfolding nice_char
nice_char_plain c h = (ground (arith, h), ground (arith, h), ground (arith, h), ground (arith, h))

read_word_nice :
    (s word rest : Bytes)
    → all_nice s ≡ true
    → read_word bare word (s ++ rest) ≡ read_word bare (word ++ s) rest
unfolding read_word all_nice
read_word_nice [] word rest h = rw append-nil refl
read_word_nice (c ∷ s) word rest h =
    let (not_space, not_backslash, not_apostrophe, no_operator) =
      nice_char_plain c (ground (arith, h)) in
    rw (not_space, not_backslash, not_apostrophe, no_operator)
      (read_word_nice s (word ++ c ∷ []) rest (ground (arith, h)) ∙ rw append_assoc refl)

read_word-quoted :
    (s word rest : Bytes)
    → read_word quoted word (replace_apostrophes s ++ apostrophe ∷ rest)
      ≡ read_word bare (word ++ s) rest
unfolding read_word replace_apostrophes
read_word-quoted [] word rest = rw append-nil refl
read_word-quoted (c ∷ s) word rest = elim (Bool-cases (c == apostrophe)) [
  | inl e ↦
      let same : c ≡ apostrophe = (==_iff c apostrophe).0 e in
      rw same (read_word-quoted s (word ++ apostrophe ∷ []) rest ∙ rw append_assoc refl)
  | inr e ↦ rw (e, e) (read_word-quoted s (word ++ c ∷ []) rest ∙ rw append_assoc refl)
]

-- What is printed for a string is read as the string, whatever follows.
pub read_word_printed :
    (s word rest : Bytes)
    → read_word bare word (display_escape s ++ rest) ≡ read_word bare (word ++ s) rest
unfolding display_escape
read_word_printed s word rest = elim (Bool-cases (all_nice s)) [
  | inl e ↦ rw e (read_word_nice s word rest e)
  | inr e ↦ rw (e, append_assoc) (unfold read_word in (read_word-quoted s word rest))
]

pub read_word-display_escape :
    (s rest : Bytes)
    → IsBoundary rest
    → read_word bare [] (display_escape s ++ rest) ≡ some (s, rest)
read_word-display_escape s rest b = read_word_printed s [] rest ∙ read_word_boundary s b
