-- ===== src/Win32/Cmdline/Quoting.antt =====
-- The quoting loop of `append_quoted` (src/popen.rs) beside a description with no index, no nesting
-- and no fuel.
use rust_subprocess.Prelude.{
  ℕ, zero, suc, ◌+◌, ◌*◌, ◌≤◌, ◌<◌, ◌≡◌, refl, sym, ap, ◌∙◌, [], ◌∷◌, ◌++◌, append_assoc,
  append-nil, arith, ◌==◌, if◌then◌else◌, length, replicate,
}
use rust_subprocess.Win32.Cmdline.{Units, backslash, skip_backslashes, chunk, quote_loop}

-- The quoted form of an argument that stands behind `n` backslashes.
unfoldable pub escape : Units → ℕ → Units
unfolding chunk
escape [] n = replicate (n * 2) backslash
escape (c ∷ arg) n =
    let longer = escape arg (n + 1) in
    let next = chunk n c ++ escape arg 0 in if c == backslash then longer else next

after_skip : ℕ × Units → Units
unfolding chunk escape
after_skip (n, []) = replicate (n * 2) backslash
after_skip (n, c ∷ rest) = chunk n c ++ escape rest 0

escape-skip : (arg : Units) (n : ℕ) → escape arg n ≡ after_skip (skip_backslashes arg n)
unfolding escape after_skip skip_backslashes
escape-skip [] n = refl
escape-skip (c ∷ arg) n = ground (arith, escape-skip arg (n + 1))

length-skip_le : (arg : Units) (n : ℕ) → length (skip_backslashes arg n).1 ≤ length arg
unfolding skip_backslashes
length-skip_le [] n = omega arith
length-skip_le (c ∷ arg) n = ground (arith, length-skip_le arg (n + 1))

escape_after :
    (arg : Units) {p : ℕ × Units} → skip_backslashes arg 0 ≡ p → escape arg 0 ≡ after_skip p
escape_after arg e = escape-skip arg 0 ∙ ap after_skip e

fst_path : {p q : ℕ × Units} → p ≡ q → p.0 ≡ q.0
fst_path = ap (λ p. p.0)

snd_path : {p q : ℕ × Units} → p ≡ q → p.1 ≡ q.1
snd_path = ap (λ p. p.1)

-- One round, given what the later rounds do.
quote_loop_round :
    (fuel a : ℕ) (arg cmdline : Units) (p : ℕ × Units)
    → skip_backslashes (a ∷ arg) 0 ≡ p
    → length arg < fuel
    → ((rest out : Units) → length rest < fuel → quote_loop fuel rest out ≡ out ++ escape rest 0)
    → quote_loop (suc fuel) (a ∷ arg) cmdline ≡ cmdline ++ escape (a ∷ arg) 0
unfolding quote_loop after_skip
quote_loop_round fuel a arg cmdline (n, []) e h later =
    rw (snd_path e, fst_path e, quote_loop) (ap (◌++◌ cmdline) (sym (escape_after (a ∷ arg) e)))
quote_loop_round fuel a arg cmdline (n, c ∷ rest) e h later =
    let short : length rest < fuel =
      omega (arith, length-skip_le (a ∷ arg) 0, ap (length {A = ℕ}) (snd_path e)) in
    rw (snd_path e, fst_path e, quote_loop)
      (later rest (cmdline ++ chunk n c) short
        ∙ append_assoc cmdline (chunk n c) (escape rest 0)
        ∙ ap (◌++◌ cmdline) (sym (escape_after (a ∷ arg) e)))

-- With a round for each unit and one more, the loop appends the quoted form.
pub quote_loop-escape :
    (fuel : ℕ) (arg cmdline : Units)
    → length arg < fuel
    → quote_loop fuel arg cmdline ≡ cmdline ++ escape arg 0
unfolding quote_loop
quote_loop-escape zero arg cmdline h = absurd (omega arith)
quote_loop-escape (suc fuel) [] cmdline h = unfold escape in sym (append-nil cmdline)
quote_loop-escape (suc fuel) (a ∷ arg) cmdline h =
    quote_loop_round fuel a arg cmdline (skip_backslashes (a ∷ arg) 0) refl (omega arith)
      (λ rest out. quote_loop-escape fuel rest out)
