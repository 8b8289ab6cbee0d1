-- ===== src/Popen/Start/Reporting.antt =====
-- What `create` and `os_start` of src/popen.rs report.
use rust_subprocess.Prelude.{
  ℕ, ◌≡◌, refl, true, false, List, [], ◌∷◌, Option, Result, ok, err, IoError, Bytes, none,
  unwrap_or,
}
use rust_subprocess.Popen.State.{PopenError, io_error, Popen, preparing, running}
use rust_subprocess.Popen.Streams.{
  Redirection, no_redirection, pipe, merge, file, rc_file, StreamsOs, Context, set_inheritable,
  prepare, merge_kind, merge_streams, setup_outputs, setup_streams, Setup,
}
use rust_subprocess.Popen.Streams.Descriptors.{Yields, bound-Yields, Yields-map}
use rust_subprocess.Popen.ExecStatus.{exec_status}
use rust_subprocess.Builder.Exec.{PopenConfig}
use mathlib.Core.Option
use rust_subprocess.Prelude.{unwrap_or}
use rust_subprocess.Popen.Environment.{format_env}
use rust_subprocess.Posix.Exec.{PrepExec, prep_exec}
use rust_subprocess.Popen.Start.{lift, from_io, Forks, await_exec, os_start, create}

module _ {os : StreamsOs} (forks : Forks os) where
  open os use {World}
  open forks use {sys_fork, sys_read4, close, exec_os}

  any_result : {A : Type 0} (r : Result A PopenError × Context os) → Yields (λ _ _. Unit) r
  any_result (ok a, c) = tt
  any_result (err e, c) = tt

  -- The new object of `create`.
  abbrev pub fresh : PopenConfig → Popen
  fresh config = record {
    stdin = none;
    stdout = none;
    stderr = none;
    child_state = preparing;
    detached = config.detached;
  }

  -- How `create` has started a child: it has made the exec-fail pipe, wired the streams, prepared the
  -- command and forked with these; the read end of that pipe has met its end, without an error of the
  -- child's, after the write end was closed; and the object runs with the pid that fork gave.
  pub record HasStarted (argv0 : Bytes) (argv : List Bytes) (config : PopenConfig) (c : Context os)
      (p : Popen) (c' : Context os) : Type 0 where
    pub fail_pipe : ℕ × ℕ
    pub w1 : World
    pub ready : Context os
    pub wired : Context os
    pub ends : Setup
    pub just_exec : PrepExec
    pub pid : ℕ
    pub forked : World
    pub piped : os.sys_pipe c.world ≡ (ok fail_pipe, w1)
    pub streams :
        setup_streams (fresh config) config.stdin config.stdout config.stderr ready
        ≡ (ok ends, wired)
    pub prepared :
        prep_exec exec_os
          (unwrap_or config.executable argv0)
          argv
          (Option.map format_env config.env)
        ≡ ok just_exec
    pub child_forked : sys_fork ends just_exec config wired.world ≡ (ok pid, forked)
    pub no_error : sys_read4 fail_pipe.0 (close fail_pipe.1 forked) ≡ (ok [], c'.world)
    pub object : p ≡ record ends.popen { child_state = running pid }
    pub same_detached : p.detached ≡ config.detached

  -- What an action that succeeds has done.
  itself : {A : Type 0} (r : Result A PopenError × Context os) → Yields (λ a c. r ≡ (ok a, c)) r
  itself (ok a, c) = refl
  itself (err e, c) = tt

  lifted :
      {A : Type 0} (r : Result A IoError) (c : Context os)
      → Yields (λ a c'. (r ≡ ok a) × (c' ≡ c)) (lift (from_io r) c)
  lifted (ok a) c = (refl, refl)
  lifted (err e) c = tt

  called :
      {A : Type 0} (f : World → Result A IoError × World) (c : Context os)
      (t : Result A IoError × World)
      → f c.world ≡ t
      → Yields
          (λ a c'. f c.world ≡ (ok a, c'.world))
          (
            elim t.0 as (λ _. Result A PopenError) [ ok a ↦ ok a | err e ↦ err (io_error e) ],
            record c { world = t.1 },
          )
  called f c (ok a, w) e = e
  called f c (err e', w) e = tt

  await_exec_quiet :
      (read_end write_end : ℕ) (p : Popen) (c : Context os)
      → Yields
          (λ q c'. (q ≡ p) × (sys_read4 read_end (close write_end c.world) ≡ (ok [], c'.world)))
          (await_exec forks read_end write_end p c)
  unfolding await_exec exec_status
  await_exec_quiet read_end write_end p c = at (sys_read4 read_end (close write_end c.world)) refl
    where
      at :
          (t : Result Bytes IoError × World)
          → sys_read4 read_end (close write_end c.world) ≡ t
          → Yields
              (λ q c'. (q ≡ p) × (sys_read4 read_end (close write_end c.world) ≡ (ok [], c'.world)))
              (await_exec forks read_end write_end p c)
      at (ok [], w) e = rw e (refl, rw e refl)
      at (ok (b0 ∷ []), w) e = rw e tt
      at (ok (b0 ∷ b1 ∷ []), w) e = rw e tt
      at (ok (b0 ∷ b1 ∷ b2 ∷ []), w) e = rw e tt
      at (ok (b0 ∷ b1 ∷ b2 ∷ b3 ∷ []), w) e = rw e tt
      at (ok (b0 ∷ b1 ∷ b2 ∷ b3 ∷ b4 ∷ bytes), w) e = rw e tt
      at (err er, w) e = rw e tt

  setup_outputs_detached :
      (p : Popen) (parent child : Option ℕ) (stdout stderr : Redirection) (c : Context os)
      → Yields (λ s _. s.popen.detached ≡ p.detached) (setup_outputs p parent child stdout stderr c)
  unfolding setup_outputs
  setup_outputs_detached p parent child stdout stderr c =
      bound-Yields (λ _ _. Unit) (λ s _. s.popen.detached ≡ p.detached) _ _
        (any_result (prepare false stdout p.stdout c))
        λ o c1 _.
          bound-Yields (λ _ _. Unit) (λ s _. s.popen.detached ≡ p.detached) _ _
            (any_result (prepare false stderr p.stderr c1))
            λ e c2 _.
              bound-Yields (λ _ _. Unit) (λ s _. s.popen.detached ≡ p.detached) _ _
                (any_result (merge_streams (merge_kind stdout stderr) o.1 e.1 c2)) λ m c3 _. refl

  setup_streams_detached :
      (p : Popen) (stdin stdout stderr : Redirection) (c : Context os)
      → Yields (λ s _. s.popen.detached ≡ p.detached) (setup_streams p stdin stdout stderr c)
  unfolding setup_streams setup_outputs
  setup_streams_detached p merge stdout stderr c = tt
  setup_streams_detached p no_redirection stdout stderr c =
      bound-Yields (λ _ _. Unit) (λ s _. s.popen.detached ≡ p.detached) _ _
        (any_result (prepare true no_redirection p.stdin c))
        λ i c1 _. setup_outputs_detached p i.0 i.1 stdout stderr c1
  setup_streams_detached p pipe stdout stderr c =
      bound-Yields (λ _ _. Unit) (λ s _. s.popen.detached ≡ p.detached) _ _
        (any_result (prepare true pipe p.stdin c))
        λ i c1 _. setup_outputs_detached p i.0 i.1 stdout stderr c1
  setup_streams_detached p (file f) stdout stderr c =
      bound-Yields (λ _ _. Unit) (λ s _. s.popen.detached ≡ p.detached) _ _
        (any_result (prepare true (file f) p.stdin c))
        λ i c1 _. setup_outputs_detached p i.0 i.1 stdout stderr c1
  setup_streams_detached p (rc_file f) stdout stderr c =
      bound-Yields (λ _ _. Unit) (λ s _. s.popen.detached ≡ p.detached) _ _
        (any_result (prepare true (rc_file f) p.stdin c))
        λ i c1 _. setup_outputs_detached p i.0 i.1 stdout stderr c1

  both :
      {A : Type 0} (P Q : A → Context os → Type 0) (r : Result A PopenError × Context os)
      → Yields P r
      → Yields Q r
      → Yields (λ a c. P a c × Q a c) r
  both P Q (ok a, c) h k = (h, k)
  both P Q (err e, c) h k = tt

  -- If `create` succeeds: it has made the exec-fail pipe, wired the streams as they were asked for,
  -- prepared the command and forked with these; the object that it returns runs with the pid that
  -- fork gave, and is detached exactly if that was asked; and the read end of the very pipe, its write
  -- end being closed, has met its end, so that the child has sent no error.
  pub create-HasStarted :
      (argv0 : Bytes) (argv : List Bytes) (config : PopenConfig) (c : Context os)
      → Yields (HasStarted argv0 (argv0 ∷ argv) config c) (create forks (argv0 ∷ argv) config c)
  unfolding create os_start
  create-HasStarted argv0 argv config c =
      let Goal = HasStarted argv0 (argv0 ∷ argv) config c in
      bound-Yields (λ a c'. os.sys_pipe c.world ≡ (ok a, c'.world)) Goal _ _
        (called os.sys_pipe c _ refl)
        λ fail_pipe c1 piped.
          bound-Yields (λ _ _. Unit) Goal _ _ (any_result (set_inheritable fail_pipe.0 _ c1))
            λ _ c2 _.
              bound-Yields (λ _ _. Unit) Goal _ _ (any_result (set_inheritable fail_pipe.1 _ c2))
                λ _ c3 _. bound-Yields (Wires c3) Goal _ _ (wires c3) λ ends c4 (streams, same).
                  bound-Yields (Prepares c4) Goal _ _
                    (lifted
                      (prep_exec exec_os (unwrap_or config.executable argv0) (argv0 ∷ argv)
                        (Option.map format_env config.env))
                      c4)
                    λ just_exec c5 (prepared, kept).
                      bound-Yields
                        (λ a c'. sys_fork ends just_exec config c5.world ≡ (ok a, c'.world)) Goal _
                        _ (called (sys_fork ends just_exec config) c5 _ refl)
                        λ pid c6 forked.
                          Yields-map
                            (λ q c'.
                              (q ≡ record ends.popen { child_state = running pid })
                              × (sys_read4 fail_pipe.0 (close fail_pipe.1 c6.world)
                                  ≡ (ok [], c'.world)))
                            Goal _
                            (await_exec_quiet fail_pipe.0 fail_pipe.1
                              (record ends.popen { child_state = running pid }) c6)
                            λ p c7 (object, quiet). record {
                              fail_pipe = fail_pipe;
                              w1 = c1.world;
                              ready = c3;
                              wired = c4;
                              ends = ends;
                              just_exec = just_exec;
                              pid = pid;
                              forked = c6.world;
                              piped = piped;
                              streams = streams;
                              prepared = prepared;
                              child_forked = rw⁻¹ kept forked;
                              no_error = quiet;
                              object = object;
                              same_detached = rw object same;
                            }
    where
      Wires : Context os → Setup → Context os → Type 0
      Wires c3 ends c4 =
          (setup_streams (fresh config) config.stdin config.stdout config.stderr c3 ≡ (ok ends, c4))
          × (ends.popen.detached ≡ config.detached)

      wires :
          (c3 : Context os)
          → Yields
              (Wires c3)
              (setup_streams (fresh config) config.stdin config.stdout config.stderr c3)
      wires c3 =
          both
            (λ ends c4.
              setup_streams (fresh config) config.stdin config.stdout config.stderr c3
              ≡ (ok ends, c4))
            (λ ends c4. ends.popen.detached ≡ config.detached) _
            (itself (setup_streams (fresh config) config.stdin config.stdout config.stderr c3))
            (setup_streams_detached (fresh config) config.stdin config.stdout config.stderr c3)

      Prepares : Context os → PrepExec → Context os → Type 0
      Prepares c4 just_exec c5 =
          (prep_exec exec_os (unwrap_or config.executable argv0) (argv0 ∷ argv)
              (Option.map format_env config.env)
            ≡ ok just_exec)
          × (c5 ≡ c4)
