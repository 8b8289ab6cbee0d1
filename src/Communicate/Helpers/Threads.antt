-- ===== src/Communicate/Helpers/Threads.antt =====
-- One helper thread of src/communicate.rs (Windows).
use rust_subprocess.Prelude.{
  ℕ, ◌<◌, Bool, true, false, [], ◌∷◌, ◌++◌, Option, none, some, ◌≡◌, refl, subst, arith, length,
  is_empty, Bytes, ok, err,
}
use rust_subprocess.Communicate.Helpers.{
  Payload, bytes, eof, io_err, OutFile, Reader, reading, Writer, writing, read_and_transmit,
  read_next, write_stdin, is_reading, is_writing,
}

-- What the helper has still to send of its output.
abbrev pub owed_reads : OutFile → Bytes
owed_reads [] = []
owed_reads (ok [] ∷ outfile) = []
owed_reads (ok (b ∷ chunk) ∷ outfile) = (b ∷ chunk) ++ owed_reads outfile
owed_reads (err e ∷ outfile) = []

abbrev pub owed : Reader → Bytes
owed (reading outfile) = owed_reads outfile
owed Reader.left = []

abbrev pub carried : Payload → Bytes
carried (bytes chunk) = chunk
carried eof = []
carried (io_err e) = []

-- The thread goes on after such a message.
abbrev pub goes_on : Payload → Bool
goes_on (bytes chunk) = true
goes_on eof = false
goes_on (io_err e) = false

abbrev pub IsProper : Payload → Type 0
IsProper (bytes chunk) = is_empty chunk ≡ false
IsProper eof = Unit
IsProper (io_err e) = Unit

-- An upper bound of the messages that are left.
abbrev pub reader_messages : Reader → ℕ
reader_messages (reading outfile) = length outfile
reader_messages Reader.left = 0

abbrev pub writer_messages : Writer → ℕ
writer_messages (writing none) = 0
writer_messages (writing (some outcome)) = 1
writer_messages Writer.left = 0

-- The output ends, by its end of file or by an error.
abbrev pub Closes : OutFile → Type 0
Closes [] = ⊥
Closes (ok [] ∷ outfile) = Unit
Closes (ok (b ∷ chunk) ∷ outfile) = Closes outfile
Closes (err e ∷ outfile) = Unit

-- Its end is not an error.
abbrev pub IsClean : OutFile → Type 0
IsClean [] = Unit
IsClean (ok [] ∷ outfile) = Unit
IsClean (ok (b ∷ chunk) ∷ outfile) = IsClean outfile
IsClean (err e ∷ outfile) = ⊥

abbrev pub ReaderCloses : Reader → Type 0
ReaderCloses (reading outfile) = Closes outfile
ReaderCloses Reader.left = Unit

abbrev pub ReaderIsClean : Reader → Type 0
ReaderIsClean (reading outfile) = IsClean outfile
ReaderIsClean Reader.left = Unit

abbrev pub WriterCloses : Writer → Type 0
WriterCloses (writing none) = ⊥
WriterCloses (writing (some outcome)) = Unit
WriterCloses Writer.left = Unit

abbrev pub WriterIsClean : Writer → Type 0
WriterIsClean (writing none) = Unit
WriterIsClean (writing (some (ok _))) = Unit
WriterIsClean (writing (some (err e))) = ⊥
WriterIsClean Writer.left = Unit

abbrev pub IsError : Payload → Type 0
IsError (bytes chunk) = ⊥
IsError eof = ⊥
IsError (io_err e) = Unit

pub record Read (r : Reader) (payload : Payload) (r' : Reader) : Type 0 where
  pub was : is_reading r ≡ true
  pub owes : owed r ≡ carried payload ++ owed r'
  pub stays : is_reading r' ≡ goes_on payload
  pub proper : IsProper payload
  pub fewer : reader_messages r' < reader_messages r
  pub closes : ReaderCloses r → ReaderCloses r'
  pub clean : ReaderIsClean r → ReaderIsClean r'
  pub no_error : ReaderIsClean r → ¬ IsError payload

from-some :
    {A B : Type 0} (R : A → B → Type 0) (a a' : A) (b b' : B)
    → ◌≡◌ {A = Option (A × B)} (some (a, b)) (some (a', b'))
    → R a b
    → R a' b'
from-some R a a' b b' e h =
    let ea : a ≡ a' = cc in let eb : b ≡ b' = cc in subst (λ x. R x b') ea (subst (R a) eb h)

pub read_next-Read :
    (r : Reader) (payload : Payload) (r' : Reader)
    → read_next r ≡ some (payload, r')
    → Read r payload r'
unfolding read_and_transmit
read_next-Read Reader.left payload r' e = cc
read_next-Read (reading []) payload r' e = cc
read_next-Read (reading (ok [] ∷ outfile)) payload r' e =
    from-some (Read (reading (ok [] ∷ outfile))) eof payload Reader.left r' e (record {
      was = refl;
      owes = refl;
      stays = refl;
      proper = tt;
      fewer = omega arith;
      closes = λ _. tt;
      clean = λ _. tt;
      no_error = λ _ h. h;
    })
read_next-Read (reading (ok (b ∷ chunk) ∷ outfile)) payload r' e =
    from-some (Read (reading (ok (b ∷ chunk) ∷ outfile))) (bytes (b ∷ chunk)) payload
      (reading outfile) r' e
      (record {
        was = refl;
        owes = refl;
        stays = refl;
        proper = refl;
        fewer = omega arith;
        closes = λ h. h;
        clean = λ h. h;
        no_error = λ _ h. h;
      })
read_next-Read (reading (err x ∷ outfile)) payload r' e =
    from-some (Read (reading (err x ∷ outfile))) (io_err x) payload Reader.left r' e (record {
      was = refl;
      owes = refl;
      stays = refl;
      proper = tt;
      fewer = omega arith;
      closes = λ _. tt;
      clean = λ _. tt;
      no_error = λ h _. h;
    })

-- A thread that has no message is one that never ends, or has left.
pub read_next-none : (r : Reader) → read_next r ≡ none → ReaderCloses r → is_reading r ≡ false
unfolding read_and_transmit
read_next-none Reader.left e h = refl
read_next-none (reading []) e h = absurd h
read_next-none (reading (ok [] ∷ outfile)) e h = cc
read_next-none (reading (ok (b ∷ chunk) ∷ outfile)) e h = cc
read_next-none (reading (err x ∷ outfile)) e h = cc

pub record Written (w : Writer) (payload : Payload) (w' : Writer) : Type 0 where
  pub was : is_writing w ≡ true
  pub gone : w' ≡ Writer.left
  pub ends : goes_on payload ≡ false
  pub fewer : writer_messages w' < writer_messages w
  pub no_error : WriterIsClean w → ¬ IsError payload

pub write_stdin-Written :
    (w : Writer) (payload : Payload) (w' : Writer)
    → write_stdin w ≡ some (payload, w')
    → Written w payload w'
unfolding write_stdin
write_stdin-Written Writer.left payload w' e = cc
write_stdin-Written (writing none) payload w' e = cc
write_stdin-Written (writing (some (ok t))) payload w' e =
    from-some (Written (writing (some (ok t)))) eof payload Writer.left w' e
      (record { was = refl; gone = refl; ends = refl; fewer = omega arith; no_error = λ _ h. h })
write_stdin-Written (writing (some (err x))) payload w' e =
    from-some (Written (writing (some (err x)))) (io_err x) payload Writer.left w' e
      (record { was = refl; gone = refl; ends = refl; fewer = omega arith; no_error = λ h _. h })

pub write_stdin-none : (w : Writer) → write_stdin w ≡ none → WriterCloses w → is_writing w ≡ false
unfolding write_stdin
write_stdin-none Writer.left e h = refl
write_stdin-none (writing none) e h = absurd h
write_stdin-none (writing (some (ok t))) e h = cc
write_stdin-none (writing (some (err x))) e h = cc
