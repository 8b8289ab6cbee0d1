-- ===== src/Win32/Start/Launching.antt =====
-- What `os_start` of src/popen.rs (Windows) hands to `CreateProcessW`.
use rust_subprocess.Prelude.{
  ℕ, ◌≡◌, refl, ◌∙◌, subst, true, false, Bool-cases, List, Option, some, ◌==◌, Result, ok, err,
  IoError, inl, inr, if◌then◌else◌,
}
use rust_subprocess.OsCommon.{input, output, error}
use rust_subprocess.Popen.Streams.{Streams}
use rust_subprocess.Win32.Cmdline.{Units, assemble_cmdline}
use rust_subprocess.Win32.Cmdline.Splitting.{split_command}
use rust_subprocess.Win32.Calls.{
  WinOs, ProcessArgs, ProcessInformation, create_process, to_nullterm,
}
use rust_subprocess.Win32.Child.{Popen, running}
use rust_subprocess.Win32.Start.{
  Paths, Program, Context, Act, ◌>>=◌, pure, lift, kept, ensure_child_stream, start_process, launch,
}
use rust_subprocess.Win32.Cmdline.Nuls.{
  StartsWithName, assemble_cmdline-split_command, assemble_cmdline-HasNul,
}
use rust_subprocess.Win32.Start.Standard.{
  After, After-bind, Stands, ensure_child_stream-Stands, kept_behind_input, kept_behind_output,
}

module _ (os : WinOs) (argv : List Units) where
  open os use {World, last_error, invalid_handle, sys_std_handle, sys_create_process, sys_close}

  -- The standard streams that a process is given.
  abbrev pub HasStreams :
      Option ℕ → Option ℕ → Option ℕ → Streams → Option ℕ × Option ℕ × Option ℕ → Type 0
  HasStreams i o e thread (some stdin, some stdout, some stderr) =
      Stands os argv input i (kept input thread) stdin
      × Stands os argv output o (kept output thread) stdout
      × Stands os argv error e (kept error thread) stderr
  HasStreams i o e thread _ = ⊥

  -- The process inherits the handles, and takes its streams from the three that are named: the one
  -- start-up flag is `STARTF_USESTDHANDLES`, the one creation flag `CREATE_UNICODE_ENVIRONMENT`.
  abbrev pub HandsOver : ProcessArgs → Type 0
  HandsOver args =
      (args.inherit_handles ≡ true) × (args.startup_flags ≡ 0x100) × (args.creation_flags ≡ 0x400)

  -- A process has been created with these arguments and streams, and the object knows it.
  abbrev pub Launched :
      Option ℕ → Option ℕ → Option ℕ → Popen → Context os → Popen → Context os → Type 0
  Launched i o e p c p' c' =
      (args : ProcessArgs) × (info : ProcessInformation) × (status : ℕ) × (w : World) × (w' : World)
      × (cmdline : Units) × (sys_create_process args w ≡ (status, info, w'))
      × (status == 0 ≡ false)
      × (c'.world ≡ sys_close info.thread w')
      × (args.cmdline ≡ to_nullterm cmdline)
      × (split_command cmdline ≡ argv)
      × HandsOver args
      × HasStreams i o e c.streams (args.std_input, args.std_output, args.std_error)
      × (p' ≡ record p { child_state = running info.process_id info.process })

  module _ (paths : Paths os) where
    -- A call that succeeds has created a process.
    abbrev Creates : Units → ℕ → ℕ → ℕ → ℕ × ℕ → Context os → Type 0
    Creates cmdline stdin stdout stderr child c' =
        (args : ProcessArgs) × (info : ProcessInformation) × (status : ℕ) × (w : World)
        × (w' : World) × (sys_create_process args w ≡ (status, info, w'))
        × (status == 0 ≡ false)
        × (c'.world ≡ sys_close info.thread w')
        × (args.cmdline ≡ to_nullterm cmdline)
        × (args.std_input ≡ some stdin)
        × (args.std_output ≡ some stdout)
        × (args.std_error ≡ some stderr)
        × HandsOver args
        × (child ≡ (info.process, info.process_id))

    start_process-Creates :
        (cmdline : Units) (program : Program) (stdin stdout stderr : ℕ) (c : Context os)
        → After os argv
            (Creates cmdline stdin stdout stderr)
            (start_process os paths cmdline program stdin stdout stderr c)
    unfolding start_process create_process
    start_process-Creates cmdline program stdin stdout stderr c =
        made _ _ refl refl refl refl refl (refl, refl, refl)
      where
        reply : ℕ × ProcessInformation × World → Result (ℕ × ℕ) IoError × World
        reply t =
            if t.0 == 0
            then (err (last_error t.2), t.2)
            else (ok (t.1.process, t.1.process_id), sys_close t.1.thread t.2)

        made :
            (args : ProcessArgs) (t : ℕ × ProcessInformation × World)
            → sys_create_process args c.world ≡ t
            → args.cmdline ≡ to_nullterm cmdline
            → args.std_input ≡ some stdin
            → args.std_output ≡ some stdout
            → args.std_error ≡ some stderr
            → HandsOver args
            → After os argv
                (Creates cmdline stdin stdout stderr)
                (lift (reply t).0 (record c { world = (reply t).1 }))
        made args (status, info, w') e line a b d over = elim (Bool-cases (status == 0)) [
          | inl failed ↦ rw failed (inl (w', refl))
          | inr done ↦
              rw done (args, info, status, c.world, w', e, done, refl, line, a, b, d, over, refl)
        ]

    -- `launch` behind the standard streams.
    abbrev start_child : Program → Popen → ℕ → ℕ → ℕ → Act os Popen
    start_child program p stdin stdout stderr = do
      cmdline ← lift (assemble_cmdline argv)
      child ← start_process os paths cmdline program stdin stdout stderr
      pure (record p { child_state = running child.1 child.0 })

    start_child-Launched :
        (program : Program) (i o e : Option ℕ) (p : Popen) (c c3 : Context os)
        (stdin stdout stderr : ℕ)
        → StartsWithName argv
        → HasStreams i o e c.streams (some stdin, some stdout, some stderr)
        → After os argv (Launched i o e p c) (start_child program p stdin stdout stderr c3)
    start_child-Launched program i o e p c c3 stdin stdout stderr name has =
        at (assemble_cmdline argv) refl
      where
        after : ℕ × ℕ → Act os Popen
        after child = pure (record p { child_state = running child.1 child.0 })

        at :
            (made : Result Units IoError)
            → assemble_cmdline argv ≡ made
            → After os argv (Launched i o e p c) (
                (lift made >>= λ cmdline.
                start_process os paths cmdline program stdin stdout stderr >>= after)
                  c3)
        at (err e') made =
            let (same, nul) = assemble_cmdline-HasNul argv e' made in inr (rw same refl, nul)
        at (ok cmdline) made =
            After-bind os argv (Creates cmdline stdin stdout stderr) (Launched i o e p c)
              (start_process os paths cmdline program stdin stdout stderr c3) after
              (start_process-Creates cmdline program stdin stdout stderr c3)
              λ child c'
                  (args, info, status, w, w', created, done, closed, line, a, b, d, over, same).
                (
                  args,
                  info,
                  status,
                  w,
                  w',
                  cmdline,
                  created,
                  done,
                  closed,
                  line,
                  assemble_cmdline-split_command argv cmdline name made,
                  over,
                  rw (a, b, d) has,
                  rw same refl,
                )

    pub launch-Launched :
        (program : Program) (i o e : Option ℕ) (p : Popen) (c : Context os)
        → StartsWithName argv
        → After os argv (Launched i o e p c) (launch os paths argv program i o e p c)
    unfolding launch
    launch-Launched program i o e p c name =
        After-bind os argv _ (Launched i o e p c) (ensure_child_stream os i input c)
          (λ stdin. ensure_child_stream os o output >>= λ stdout.
            ensure_child_stream os e error >>= started stdin stdout)
          (ensure_child_stream-Stands os argv i input c)
          λ stdin c1 (has_input, grown1).
            After-bind os argv _ (Launched i o e p c) (ensure_child_stream os o output c1)
              (λ stdout. ensure_child_stream os e error >>= started stdin stdout)
              (ensure_child_stream-Stands os argv o output c1)
              λ stdout c2 (has_output, grown2).
                After-bind os argv _ (Launched i o e p c) (ensure_child_stream os e error c2)
                  (started stdin stdout) (ensure_child_stream-Stands os argv e error c2)
                  λ stderr c3 (has_error, grown3).
                    start_child-Launched program i o e p c c3 stdin stdout stderr name (
                      has_input,
                      subst (λ k. Stands os argv output o k stdout)
                          (kept_behind_input os argv stdin c c1 grown1).0 has_output,
                      subst (λ k. Stands os argv error e k stderr)
                          (kept_behind_output os argv stdout c1 c2 grown2
                            ∙ (kept_behind_input os argv stdin c c1 grown1).1)
                          has_error,
                    )
      where
        started : ℕ → ℕ → ℕ → Act os Popen
        started stdin stdout stderr = start_child program p stdin stdout stderr
