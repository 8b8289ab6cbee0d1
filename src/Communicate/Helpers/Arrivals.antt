-- ===== src/Communicate/Helpers/Arrivals.antt =====
-- What the arrival of a message means for the set of the helper threads (src/communicate.rs,
-- Windows).
use rust_subprocess.Prelude.{ℕ, [], ◌+◌, ◌<◌, true, ◌≡◌, refl, ap, sym, arith, Bytes}
use rust_subprocess.Communicate.Helpers.Bitset.{
  StreamIdent, stream_in, stream_out, stream_err, bits, remove, remove-bits,
}
use rust_subprocess.Communicate.Helpers.{Payload, bytes, eof, Receiver, is_reading, is_writing}
use rust_subprocess.Communicate.Helpers.Threads.{
  IsError, ReaderCloses, ReaderIsClean, WriterCloses, WriterIsClean, reader_messages,
  writer_messages,
}
use rust_subprocess.Communicate.Helpers.Messages.{Sent}

-- The set of the threads that have not left.
abbrev pub active : Receiver → ℕ
active rx = bits (is_writing rx.input) (is_reading rx.output) (is_reading rx.error)

abbrev pub AllClose : Receiver → Type 0
AllClose rx = WriterCloses rx.input × ReaderCloses rx.output × ReaderCloses rx.error

abbrev pub AllClean : Receiver → Type 0
AllClean rx = WriterIsClean rx.input × ReaderIsClean rx.output × ReaderIsClean rx.error

abbrev pub messages : Receiver → ℕ
messages rx = writer_messages rx.input + reader_messages rx.output + reader_messages rx.error

-- Where its bytes can come from.
abbrev pub IsFrom : StreamIdent → Receiver → Type 0
IsFrom stream_in rx = ⊥
IsFrom stream_out rx = is_reading rx.output ≡ true
IsFrom stream_err rx = is_reading rx.error ≡ true

module _ (rx rx' : Receiver) where
  pub Sent-AllClose :
      (ident : StreamIdent) (payload : Payload)
      → Sent ident payload rx rx'
      → AllClose rx
      → AllClose rx'
  Sent-AllClose stream_in payload (w, o, e) (ci, co, ce) = (rw w.gone tt, rw o co, rw e ce)
  Sent-AllClose stream_out payload (r, i, e) (ci, co, ce) = (rw i ci, r.closes co, rw e ce)
  Sent-AllClose stream_err payload (r, i, o) (ci, co, ce) = (rw i ci, rw o co, r.closes ce)

  pub Sent-AllClean :
      (ident : StreamIdent) (payload : Payload)
      → Sent ident payload rx rx'
      → AllClean rx
      → AllClean rx'
  Sent-AllClean stream_in payload (w, o, e) (ci, co, ce) = (rw w.gone tt, rw o co, rw e ce)
  Sent-AllClean stream_out payload (r, i, e) (ci, co, ce) = (rw i ci, r.clean co, rw e ce)
  Sent-AllClean stream_err payload (r, i, o) (ci, co, ce) = (rw i ci, rw o co, r.clean ce)

  pub Sent-no-IsError :
      (ident : StreamIdent) (payload : Payload)
      → Sent ident payload rx rx'
      → AllClean rx
      → ¬ IsError payload
  Sent-no-IsError stream_in payload (w, o, e) (ci, co, ce) = w.no_error ci
  Sent-no-IsError stream_out payload (r, i, e) (ci, co, ce) = r.no_error co
  Sent-no-IsError stream_err payload (r, i, o) (ci, co, ce) = r.no_error ce

  pub Sent-fewer :
      (ident : StreamIdent) (payload : Payload)
      → Sent ident payload rx rx'
      → messages rx' < messages rx
  Sent-fewer stream_in payload (w, o, e) =
      omega (arith, w.fewer, ap reader_messages o, ap reader_messages e)
  Sent-fewer stream_out payload (r, i, e) =
      omega (arith, r.fewer, ap writer_messages i, ap reader_messages e)
  Sent-fewer stream_err payload (r, i, o) =
      omega (arith, r.fewer, ap writer_messages i, ap reader_messages o)

  -- The end of a thread takes its bit out of the set.
  pub Sent-eof :
      (ident : StreamIdent) → Sent ident eof rx rx' → active rx' ≡ remove ident (active rx)
  Sent-eof stream_in (w, o, e) =
      rw
        (
          w.gone,
          o,
          e,
          remove-bits stream_in (is_writing rx.input) (is_reading rx.output) (is_reading rx.error),
        )
        refl
  Sent-eof stream_out (r, i, e) =
      rw
        (
          r.stays,
          i,
          e,
          remove-bits stream_out (is_writing rx.input) (is_reading rx.output) (is_reading rx.error),
        )
        refl
  Sent-eof stream_err (r, i, o) =
      rw
        (
          r.stays,
          i,
          o,
          remove-bits stream_err (is_writing rx.input) (is_reading rx.output) (is_reading rx.error),
        )
        refl

  pub Sent-bytes :
      (ident : StreamIdent) (chunk : Bytes)
      → Sent ident (bytes chunk) rx rx'
      → (active rx' ≡ active rx) × IsFrom ident rx
  Sent-bytes stream_in chunk (w, o, e) = let e = w.ends in cc
  Sent-bytes stream_out chunk (r, i, e) = (rw (r.stays, r.was, i, e) refl, r.was)
  Sent-bytes stream_err chunk (r, i, o) = (rw (r.stays, r.was, i, o) refl, r.was)

  pub Sent-out_was :
      (ident : StreamIdent) (payload : Payload)
      → Sent ident payload rx rx'
      → is_reading rx'.output ≡ true
      → is_reading rx.output ≡ true
  Sent-out_was stream_in payload (w, o, e) h = rw (sym o) h
  Sent-out_was stream_out payload (r, i, e) h = r.was
  Sent-out_was stream_err payload (r, i, o) h = rw (sym o) h

  pub Sent-err_was :
      (ident : StreamIdent) (payload : Payload)
      → Sent ident payload rx rx'
      → is_reading rx'.error ≡ true
      → is_reading rx.error ≡ true
  Sent-err_was stream_in payload (w, o, e) h = rw (sym e) h
  Sent-err_was stream_out payload (r, i, e) h = rw (sym e) h
  Sent-err_was stream_err payload (r, i, o) h = r.was

  pub Sent-proper : (ident : StreamIdent) → ¬ Sent ident (bytes []) rx rx'
  Sent-proper stream_in (w, o, e) = let ends = w.ends in cc
  Sent-proper stream_out (r, i, e) = let proper = r.proper in cc
  Sent-proper stream_err (r, i, o) = let proper = r.proper in cc
