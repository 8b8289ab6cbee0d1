-- ===== src/Popen/Streams/Wiring.antt =====
-- What `setup_streams` of src/popen.rs makes of the redirections.
use rust_subprocess.Prelude.{ℕ, ◌≡◌, true, false, Option, none, some, arith}
use rust_subprocess.OsCommon.{StandardStream, output, error, stream_fd}
use rust_subprocess.Popen.State.{Popen}
use rust_subprocess.Popen.Streams.Descriptors.{
  Yields, bound-Yields, Descriptors, DescriptorLaws, Ends, IsPrivate, Prepared, Quiet-trans,
  prepare-Prepared, IsPrivate-Quiet,
}
use rust_subprocess.Popen.Streams.{
  Redirection, no_redirection, pipe, merge, file, rc_file, StreamsOs, Streams, Context, ◌>>=◌,
  get_standard_stream, prepare, reuse_stream, merge_kind, merge_streams, Setup, setup_outputs,
  setup_streams,
}

-- The stream itself, or the standard stream in its place.
abbrev pub or_standard : Option ℕ → StandardStream → ℕ
or_standard none which = stream_fd which
or_standard (some f) which = f

abbrev pub merged : Redirection → Redirection → Option ℕ → Option ℕ → Option ℕ × Option ℕ
merged stdout merge own_out own_err =
    (some (or_standard own_out output), some (or_standard own_out output))
merged merge stderr own_out own_err =
    (some (or_standard own_err error), some (or_standard own_err error))
merged stdout stderr own_out own_err = (own_out, own_err)

-- The thread keeps only its standard streams.
abbrev pub IsStandard : Streams → Type 0
IsStandard s =
    (elim s.stdin [ none ↦ Unit | some f ↦ f ≡ 0 ])
    × (elim s.stdout [ none ↦ Unit | some f ↦ f ≡ 1 ])
    × (elim s.stderr [ none ↦ Unit | some f ↦ f ≡ 2 ])

module _ {os : StreamsOs} (d : Descriptors os) (laws : DescriptorLaws d) where
  -- The two outputs of the child come from their own files, and nothing of the parent's is lost.
  abbrev Merged :
      Redirection
      → Redirection
      → Option ℕ
      → Option ℕ
      → Context os
      → Option ℕ × Option ℕ
      → Context os
      → Type 0
  Merged stdout stderr own_out own_err c t c' =
      (t ≡ merged stdout stderr own_out own_err) × (c'.world ≡ c.world)

  merge_streams-Merged :
      (stdout stderr : Redirection) (own_out own_err : Option ℕ) (c : Context os)
      → IsStandard c.streams
      → Yields
          (Merged stdout stderr own_out own_err c)
          (merge_streams (merge_kind stdout stderr) own_out own_err c)
  unfolding merge_streams merge_kind reuse_stream get_standard_stream
  merge_streams-Merged stdout stderr own_out own_err c h = ground (arith, h)

  -- What the three redirections ask for.
  pub record Wired (stdin stdout stderr : Redirection) (s : Setup) (c : Context os) : Type 0 where
    pub own_out : Option ℕ
    pub own_err : Option ℕ
    pub stdin_ends : Ends d true stdin s.popen.stdin s.child_stdin
    pub stdout_ends : Ends d false stdout s.popen.stdout own_out
    pub stderr_ends : Ends d false stderr s.popen.stderr own_err
    pub outputs_merged : (s.child_stdout, s.child_stderr) ≡ merged stdout stderr own_out own_err
    pub stdin_private : IsPrivate d s.popen.stdin c.world
    pub stdout_private : IsPrivate d s.popen.stdout c.world
    pub stderr_private : IsPrivate d s.popen.stderr c.world

  setup_outputs-Wired :
      (p : Popen) (stdin stdout stderr : Redirection) (i : Option ℕ × Option ℕ) (c : Context os)
      → p.stdout ≡ none
      → p.stderr ≡ none
      → IsStandard c.streams
      → Ends d true stdin i.0 i.1
      → IsPrivate d i.0 c.world
      → Yields (Wired stdin stdout stderr) (setup_outputs p i.0 i.1 stdout stderr c)
  unfolding setup_outputs
  setup_outputs-Wired p stdin stdout stderr i c no_out no_err standard has_ends private =
      rw (no_out, no_err)
        (bound-Yields (Prepared d laws false stdout c) (Wired stdin stdout stderr) _ _
          (prepare-Prepared d laws false stdout c)
          λ o c1 po.
            bound-Yields (Prepared d laws false stderr c1) (Wired stdin stdout stderr) _ _
              (prepare-Prepared d laws false stderr c1)
              λ e c2 pe.
                let q = Quiet-trans d laws c c1 c2 po.2 pe.2 in
                bound-Yields (Merged stdout stderr o.1 e.1 c2) (Wired stdin stdout stderr) _ _
                  (merge_streams-Merged stdout stderr o.1 e.1 c2 (rw q.1 standard))
                  λ m c3 pm. record {
                    own_out = o.1;
                    own_err = e.1;
                    stdin_ends = has_ends;
                    stdout_ends = po.0;
                    stderr_ends = pe.0;
                    outputs_merged = pm.0;
                    stdin_private = rw pm.1 (IsPrivate-Quiet d laws i.0 c c2 q private);
                    stdout_private = rw pm.1 (IsPrivate-Quiet d laws o.0 c1 c2 pe.2 po.1);
                    stderr_private = rw pm.1 pe.1;
                  })

  after_input :
      (p : Popen) (stdin stdout stderr : Redirection) (c : Context os)
      → p.stdin ≡ none
      → p.stdout ≡ none
      → p.stderr ≡ none
      → IsStandard c.streams
      → Yields
          (Wired stdin stdout stderr)
          ((prepare true stdin p.stdin >>= λ i. setup_outputs p i.0 i.1 stdout stderr) c)
  unfolding setup_outputs
  after_input p stdin stdout stderr c no_in no_out no_err standard = rw no_in (
      bound-Yields (Prepared d laws true stdin c) (Wired stdin stdout stderr) _ _
        (prepare-Prepared d laws true stdin c)
        λ i c1 pi.
          setup_outputs-Wired p stdin stdout stderr i c1 no_out no_err (rw pi.2.1 standard) pi.0
            pi.1)

  -- If `setup_streams` of a new object, in a thread that keeps only its standard streams,
  -- succeeds: a pipe gives the parent and the child its two ends, the parent the end to write to
  -- for the standard input and the one to read from for an output; a file goes to the child; a
  -- merged output is the file of the other one, or the standard stream where that has none, and
  -- of two merges the one of stderr counts; and no end of the parent's gets into a program that
  -- the child executes.
  pub setup_streams-Wired :
      (p : Popen) (stdin stdout stderr : Redirection) (c : Context os)
      → p.stdin ≡ none
      → p.stdout ≡ none
      → p.stderr ≡ none
      → IsStandard c.streams
      → Yields (Wired stdin stdout stderr) (setup_streams p stdin stdout stderr c)
  unfolding setup_streams
  setup_streams-Wired p merge stdout stderr c no_in no_out no_err standard = tt
  setup_streams-Wired p no_redirection stdout stderr c no_in no_out no_err standard =
      after_input p no_redirection stdout stderr c no_in no_out no_err standard
  setup_streams-Wired p pipe stdout stderr c no_in no_out no_err standard =
      after_input p pipe stdout stderr c no_in no_out no_err standard
  setup_streams-Wired p (file f) stdout stderr c no_in no_out no_err standard =
      after_input p (file f) stdout stderr c no_in no_out no_err standard
  setup_streams-Wired p (rc_file f) stdout stderr c no_in no_out no_err standard =
      after_input p (rc_file f) stdout stderr c no_in no_out no_err standard
