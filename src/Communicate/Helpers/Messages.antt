-- ===== src/Communicate/Helpers/Messages.antt =====
-- The messages of the helper threads of src/communicate.rs (Windows).
use rust_subprocess.Prelude.{[], ◌++◌, Option, none, some, ◌≡◌, refl, subst, Bytes, ◌⊎◌, inl, inr}
use mathlib.Core.Option
use rust_subprocess.Communicate.Helpers.Bitset.{StreamIdent, stream_in, stream_out, stream_err}
use rust_subprocess.Communicate.Helpers.Threads.{
  owed, carried, Read, Written, read_next-Read, write_stdin-Written,
}
use rust_subprocess.Communicate.Helpers.{
  Payload, Message, Reader, Writer, read_next, write_stdin, Receiver, message_of, or_else, arrival,
}

-- What the arrival of a message from one thread says of it, and that the others stay.
abbrev pub Sent : StreamIdent → Payload → Receiver → Receiver → Type 0
Sent stream_in payload rx rx' =
    Written rx.input payload rx'.input × (rx'.output ≡ rx.output) × (rx'.error ≡ rx.error)
Sent stream_out payload rx rx' =
    Read rx.output payload rx'.output × (rx'.input ≡ rx.input) × (rx'.error ≡ rx.error)
Sent stream_err payload rx rx' =
    Read rx.error payload rx'.error × (rx'.input ≡ rx.input) × (rx'.output ≡ rx.output)

-- The same of a message beside the threads after it.
abbrev pub Sends : Receiver → Message × Receiver → Type 0
Sends rx t = Sent t.0.0 t.0.1 rx t.1

map-some :
    {A B : Type 0} (f : A → B) (o : Option A) (b : B)
    → Option.map f o ≡ some b
    → (a : A) × (o ≡ some a) × (f a ≡ b)
map-some f none b e = cc
map-some f (some a) b e = (a, refl, cc)

or_else-some :
    {A : Type 0} (o p : Option A) (a : A) → or_else o p ≡ some a → (o ≡ some a) ⊎ (p ≡ some a)
or_else-some none p a e = inr e
or_else-some (some x) p a e = inl e

message_of-Sends :
    (ident : StreamIdent) (rx : Receiver) (t : Message × Receiver)
    → message_of ident rx ≡ some t
    → Sends rx t
unfolding message_of
message_of-Sends stream_in rx t e =
    let (s, written, same) =
      map-some (λ (s : Payload × Writer). ((stream_in, s.0), record rx { input = s.1 }))
        (write_stdin rx.input) t e in
    subst (Sends rx) same (write_stdin-Written rx.input s.0 s.1 written, refl, refl)
message_of-Sends stream_out rx t e =
    let (s, read, same) =
      map-some (λ (s : Payload × Reader). ((stream_out, s.0), record rx { output = s.1 }))
        (read_next rx.output) t e in
    subst (Sends rx) same (read_next-Read rx.output s.0 s.1 read, refl, refl)
message_of-Sends stream_err rx t e =
    let (s, read, same) =
      map-some (λ (s : Payload × Reader). ((stream_err, s.0), record rx { error = s.1 }))
        (read_next rx.error) t e in
    subst (Sends rx) same (read_next-Read rx.error s.0 s.1 read, refl, refl)

-- Whichever thread is ready first, a message comes from one of them.
pub arrival-Sends :
    (first : StreamIdent) (rx : Receiver) (t : Message × Receiver)
    → arrival first rx ≡ some t
    → Sends rx t
unfolding arrival
arrival-Sends first rx t e = elim (or_else-some _ _ t e) [
  | inl a ↦ message_of-Sends first rx t a
  | inr later ↦ elim (or_else-some _ _ t later) [
    | inl a ↦ message_of-Sends stream_out rx t a
    | inr last ↦ elim (or_else-some _ _ t last) [
      | inl a ↦ message_of-Sends stream_err rx t a
      | inr a ↦ message_of-Sends stream_in rx t a
    ]
  ]
]

-- The bytes of a chunk that belong to one of the outputs.
abbrev pub out_part : StreamIdent → Bytes → Bytes
out_part stream_in chunk = []
out_part stream_out chunk = chunk
out_part stream_err chunk = []

abbrev pub err_part : StreamIdent → Bytes → Bytes
err_part stream_in chunk = []
err_part stream_out chunk = []
err_part stream_err chunk = chunk

pub Sent-out :
    (ident : StreamIdent) (payload : Payload) (rx rx' : Receiver)
    → Sent ident payload rx rx'
    → owed rx.output ≡ out_part ident (carried payload) ++ owed rx'.output
Sent-out stream_in payload rx rx' s = rw s.1
Sent-out stream_out payload rx rx' s = s.0.owes
Sent-out stream_err payload rx rx' s = rw s.2

pub Sent-err :
    (ident : StreamIdent) (payload : Payload) (rx rx' : Receiver)
    → Sent ident payload rx rx'
    → owed rx.error ≡ err_part ident (carried payload) ++ owed rx'.error
Sent-err stream_in payload rx rx' s = rw s.2
Sent-err stream_out payload rx rx' s = rw s.2
Sent-err stream_err payload rx rx' s = s.0.owes

pub out_part-nil : (ident : StreamIdent) → out_part ident [] ≡ []
out_part-nil stream_in = refl
out_part-nil stream_out = refl
out_part-nil stream_err = refl

pub err_part-nil : (ident : StreamIdent) → err_part ident [] ≡ []
err_part-nil stream_in = refl
err_part-nil stream_out = refl
err_part-nil stream_err = refl
