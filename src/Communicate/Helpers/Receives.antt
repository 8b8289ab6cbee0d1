-- ===== src/Communicate/Helpers/Receives.antt =====
-- `recv_until` of src/communicate.rs (Windows).
use rust_subprocess.Prelude.{
  ℕ, true, false, Option, none, some, ◌≡◌, ◌≢◌, refl, arith, Result, ok, err, Gives, Returns,
  Bool-cases, is_none, inl, inr, ◌+◌,
}
use mathlib.Core.Option
use rust_subprocess.Communicate.Helpers.Threads.{write_stdin-none, read_next-none}
use rust_subprocess.Communicate.Helpers.Arrivals.{AllClose, active}
use rust_subprocess.Communicate.Helpers.{
  StreamIdent, stream_in, stream_out, stream_err, Payload, Writer, Reader, or_else, message_of,
  Message, Receiver, Schedule, Timeout, Wait, answer, recv_until, arrival, expires, is_disconnected,
}
use rust_subprocess.Communicate.Helpers.Messages.{Sends, arrival-Sends}

-- A receive gives a message of a thread, or, under a deadline, it leaves the threads as they are.
abbrev pub Receives : Option ℕ → Receiver → Result Message Timeout × Receiver → Type 0
Receives deadline rx (ok message, rx') = Sends rx (message, rx')
Receives deadline rx (err t, rx') =
    (rx'.input ≡ rx.input)
    × (rx'.output ≡ rx.output)
    × (rx'.error ≡ rx.error)
    × (is_none deadline ≡ false)

expires-deadline :
    (deadline : Option ℕ) (wait : Wait) → expires deadline wait ≡ true → is_none deadline ≡ false
expires-deadline none wait e = cc
expires-deadline (some d) wait e = refl

answer-Receives :
    (deadline : Option ℕ) (wait : Wait) (rx : Receiver) (o : Option (Message × Receiver))
    → ((t : Message × Receiver) → o ≡ some t → Sends rx t)
    → Gives (Receives deadline rx) (answer deadline wait rx o)
unfolding answer
answer-Receives none wait rx none h = elim (Bool-cases (is_disconnected rx)) [
  | inl d ↦ rw d tt
  | inr d ↦ rw d tt
]
answer-Receives (some time) wait rx none h = elim (Bool-cases (is_disconnected rx)) [
  | inl d ↦ rw d tt
  | inr d ↦ rw d (refl, refl, refl, refl)
]
answer-Receives deadline wait rx (some t) h = elim (Bool-cases (expires deadline wait)) [
  | inl x ↦ rw x (refl, refl, refl, expires-deadline deadline wait x)
  | inr x ↦ rw x (h t refl)
]

-- The receiver whose count has gone up.
abbrev pub counted : Receiver → Receiver
counted rx = record rx { received = rx.received + 1 }

pub recv_until-Receives :
    (schedule : Schedule) (deadline : Option ℕ) (rx : Receiver)
    → Gives (Receives deadline (counted rx)) (recv_until schedule deadline rx)
unfolding recv_until
recv_until-Receives schedule deadline rx =
    let wait = schedule rx.received in
    answer-Receives deadline wait (counted rx) (arrival wait.first (counted rx))
      (arrival-Sends wait.first (counted rx))

or_else-none : {A : Type 0} (o p : Option A) → or_else o p ≡ none → (o ≡ none) × (p ≡ none)
or_else-none none p e = (refl, e)
or_else-none (some a) p e = cc

map-none : {A B : Type 0} (f : A → B) (o : Option A) → Option.map f o ≡ none → o ≡ none
map-none f none e = refl
map-none f (some a) e = cc

-- If no message arrives, all threads that end have left.
arrival-none :
    (first : StreamIdent) (rx : Receiver) → arrival first rx ≡ none → AllClose rx → active rx ≡ 0
unfolding arrival message_of
arrival-none first rx e (ci, co, ce) =
    let (_, later) = or_else-none _ _ e in
    let (no_out, rest) = or_else-none _ _ later in
    let (no_err, no_in) = or_else-none _ _ rest in
    rw
      (
        write_stdin-none rx.input
            (map-none (λ (s : Payload × Writer). ((stream_in, s.0), record rx { input = s.1 })) _
              no_in)
            ci,
        read_next-none rx.output
            (map-none (λ (s : Payload × Reader). ((stream_out, s.0), record rx { output = s.1 })) _
              no_out)
            co,
        read_next-none rx.error
            (map-none (λ (s : Payload × Reader). ((stream_err, s.0), record rx { error = s.1 })) _
              no_err)
            ce,
      )
      refl

disconnected_active : (rx : Receiver) → is_disconnected rx ≡ true → active rx ≡ 0
disconnected_active rx e = ground (arith, e)

answer-Returns :
    (deadline : Option ℕ) (wait : Wait) (rx : Receiver) (o : Option (Message × Receiver))
    → active rx ≢ 0
    → (o ≡ none → is_none deadline ≡ true → active rx ≡ 0)
    → Returns (answer deadline wait rx o)
unfolding answer
answer-Returns deadline wait rx none n h = elim (Bool-cases (is_disconnected rx)) [
  | inl d ↦ absurd (n (disconnected_active rx d))
  | inr d ↦
      rw d
        (elim (Bool-cases (is_none deadline)) [ inl e ↦ absurd (n (h refl e)) | inr e ↦ rw e tt ])
]
answer-Returns deadline wait rx (some t) n h = elim (Bool-cases (expires deadline wait)) [
  | inl x ↦ rw x tt
  | inr x ↦ rw x tt
]

-- A receive from a thread that has not left returns, if there is a deadline or the threads end.
pub recv_until-Returns :
    (schedule : Schedule) (deadline : Option ℕ) (rx : Receiver)
    → active rx ≢ 0
    → (is_none deadline ≡ true → AllClose rx)
    → Returns (recv_until schedule deadline rx)
unfolding recv_until
recv_until-Returns schedule deadline rx n h =
    let wait = schedule rx.received in
    answer-Returns deadline wait (counted rx) (arrival wait.first (counted rx)) n
      λ e d. arrival-none wait.first (counted rx) e (h d)
