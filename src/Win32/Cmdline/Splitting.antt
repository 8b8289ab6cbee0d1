-- ===== src/Win32/Cmdline/Splitting.antt =====
-- The rules by which a C program splits its command line into arguments, as Microsoft documents
-- them ("Parsing C command-line arguments"), and what they make of quoted and of plain units.
use native.Mathlib.Numerals.{add-one}
use rust_subprocess.Prelude.{
  ℕ, zero, suc, ◌+◌, ◌*◌, ◌/◌, ◌%◌, ◌≡◌, refl, ap, ◌∙◌, Bool, true, false, not, ◌&&◌, ◌||◌, List,
  [], ◌∷◌, ◌++◌, append_assoc, append-nil, arith, ◌==◌, if◌then◌else◌, Bool-cases, ==_iff, inl, inr,
  replicate,
}
use rust_subprocess.Win32.Cmdline.{Units, backslash, quote, space, chunk}
use rust_subprocess.Win32.Cmdline.Quoting.{escape}

-- Where the reader stands: between two arguments, or in one, inside or outside of quotes, behind a
-- run of backslashes whose meaning the next unit decides; or behind a quotation mark that closes the
-- quotes, unless another one follows.
pub data Mode : Type 0 where
  between : Mode
  within : Bool → ℕ → Units → Mode
  closing : Units → Mode

abbrev pub is_blank : ℕ → Bool
is_blank c = c == space || c == b'\t'

-- A quotation mark behind `n` backslashes: every two stand for one; an odd one makes the mark
-- literal, and otherwise the mark opens or closes the quotes.
abbrev pub at_quote : Bool → ℕ → Units → Mode
at_quote quoted n cur =
    if n % 2 == 1
    then within quoted 0 (cur ++ (replicate (n / 2) backslash ++ quote ∷ []))
    else if quoted
    then closing (cur ++ replicate (n / 2) backslash)
    else within true 0 (cur ++ replicate (n / 2) backslash)

-- What one unit does in an argument, unless it ends it.
abbrev pub advance : Bool → ℕ → Units → ℕ → Mode
advance quoted n cur c =
    if c == backslash
    then within quoted (n + 1) cur
    else if c == quote
    then at_quote quoted n cur
    else within quoted 0 (cur ++ (replicate n backslash ++ c ∷ []))

-- The arguments that a command line spells. Two quotation marks inside of quotes are a literal one.
unfoldable pub split_args : Mode → Units → List Units
split_args between [] = []
split_args between (c ∷ s) =
    let blank = split_args between s in
    let start = split_args (advance false 0 [] c) s in if is_blank c then blank else start
split_args (within quoted n cur) [] = (cur ++ replicate n backslash) ∷ []
split_args (within quoted n cur) (c ∷ s) =
    let stop = (cur ++ replicate n backslash) ∷ split_args between s in
    let go = split_args (advance quoted n cur c) s in if not quoted && is_blank c then stop else go
split_args (closing cur) [] = cur ∷ []
split_args (closing cur) (c ∷ s) =
    let literal = split_args (within true 0 (cur ++ quote ∷ [])) s in
    let stop = cur ∷ split_args between s in
    let go = split_args (advance false 0 cur c) s in
    if c == quote then literal else if is_blank c then stop else go

-- The program's name comes first: quotation marks group and are left out, and nothing is escaped.
unfoldable pub read_program : Bool → Units → Units → List Units
read_program quoted cur [] = cur ∷ []
read_program quoted cur (c ∷ s) =
    let mark = read_program (not quoted) cur s in
    let go = read_program quoted (cur ++ c ∷ []) s in
    if c == quote then mark else if not quoted && is_blank c then cur ∷ split_args between s else go

abbrev pub split_command : Units → List Units
split_command = read_program false []

-- What may follow an argument: the end, or a space.
pub data IsBoundary : Units → Type 0 where
  at_end : IsBoundary []
  at_space : (s : Units) → IsBoundary (space ∷ s)

pub split_args_boundary :
    (n : ℕ) (cur : Units) {s : Units}
    → IsBoundary s
    → split_args (within false n cur) s ≡ (cur ++ replicate n backslash) ∷ split_args between s
unfolding split_args
split_args_boundary n cur at_end = refl
split_args_boundary n cur (at_space s) = refl

pub closing_boundary :
    (cur : Units) {s : Units}
    → IsBoundary s
    → split_args (closing cur) s ≡ cur ∷ split_args between s
unfolding split_args
closing_boundary cur at_end = refl
closing_boundary cur (at_space s) = refl

pub replicate_shift :
    (n : ℕ) (s : Units) → replicate (n + 1) backslash ++ s ≡ replicate n backslash ++ backslash ∷ s
replicate_shift n s = rw add-one (shift n)
  where
    shift : (n : ℕ) → replicate (suc n) backslash ++ s ≡ replicate n backslash ++ backslash ∷ s
    shift zero = refl
    shift (suc n) = ap (◌∷◌ backslash) (shift n)

-- Backslashes wait for what follows them.
split_args_backslashes :
    (k : ℕ) (quoted : Bool) (n m : ℕ) (cur s : Units)
    → n + k ≡ m
    → split_args (within quoted n cur) (replicate k backslash ++ s)
      ≡ split_args (within quoted m cur) s
unfolding split_args
split_args_backslashes zero quoted n m cur s e = let e' : n ≡ m = omega arith in rw e'
split_args_backslashes (suc k) true n m cur s e =
    split_args_backslashes k true (n + 1) m cur s (omega arith)
split_args_backslashes (suc k) false n m cur s e =
    split_args_backslashes k false (n + 1) m cur s (omega arith)

pub closing_quote :
    (n : ℕ) (cur s : Units)
    → split_args (within true (n * 2) cur) (quote ∷ s)
      ≡ split_args (closing (cur ++ replicate n backslash)) s
unfolding split_args
closing_quote n cur s =
    let even : n * 2 % 2 ≡ 0 = omega arith in
    let half : n * 2 / 2 ≡ n = omega arith in rw (even, half)

literal_quote :
    (n : ℕ) (cur s : Units)
    → split_args (within true (n * 2 + 1) cur) (quote ∷ s)
      ≡ split_args (within true 0 (cur ++ (replicate n backslash ++ quote ∷ []))) s
unfolding split_args
literal_quote n cur s =
    let odd : (n * 2 + 1) % 2 ≡ 1 = omega arith in
    let half : (n * 2 + 1) / 2 ≡ n = omega arith in rw (odd, half)

plain_unit :
    (c n : ℕ) (cur s : Units)
    → (c == backslash) ≡ false
    → (c == quote) ≡ false
    → split_args (within true n cur) (c ∷ s)
      ≡ split_args (within true 0 (cur ++ (replicate n backslash ++ c ∷ []))) s
unfolding split_args
plain_unit c n cur s h k = rw (h, k)

split_args-chunk :
    (c : ℕ) (arg : Units) (n : ℕ) (cur s : Units)
    → (c == backslash) ≡ false
    → split_args (within true 0 cur) ((chunk n c ++ escape arg 0) ++ quote ∷ s)
      ≡ split_args
          (within true 0 (cur ++ (replicate n backslash ++ c ∷ [])))
          (escape arg 0 ++ quote ∷ s)
unfolding chunk
split_args-chunk c arg n cur s h = elim (Bool-cases (c == quote)) [
  | inl e ↦
      let is_quote : c ≡ quote = (==_iff c quote).0 e in
      rw (is_quote, append_assoc, append_assoc)
        (split_args_backslashes (n * 2 + 1) true 0 (n * 2 + 1) cur _ (omega arith)
          ∙ literal_quote n cur (escape arg 0 ++ quote ∷ s))
  | inr e ↦
      rw (e, append_assoc, append_assoc)
        (split_args_backslashes n true 0 n cur _ (omega arith)
          ∙ plain_unit c n cur (escape arg 0 ++ quote ∷ s) h e)
]

-- Between quotes the reader undoes the escaping, up to the closing quotation mark.
pub split_args-escape :
    (arg : Units) (n : ℕ) (cur s : Units)
    → split_args (within true 0 cur) (escape arg n ++ quote ∷ s)
      ≡ split_args (closing (cur ++ (replicate n backslash ++ arg))) s
unfolding escape
split_args-escape [] n cur s =
    split_args_backslashes (n * 2) true 0 (n * 2) cur (quote ∷ s) (omega arith)
    ∙ rw append-nil (closing_quote n cur s)
split_args-escape (c ∷ arg) n cur s = elim (Bool-cases (c == backslash)) [
  | inl e ↦
      let is_backslash : c ≡ backslash = (==_iff c backslash).0 e in
      rw (e, is_backslash) (split_args-escape arg (n + 1) cur s ∙ rw replicate_shift)
  | inr e ↦ rw e (
      split_args-chunk c arg n cur s e
      ∙ split_args-escape arg 0 (cur ++ (replicate n backslash ++ c ∷ [])) s
      ∙ simp append_assoc)
]
