-- ===== src/Posix/Exec/Attempts.antt =====
-- The files that `exec` of src/posix.rs tries, and the buffer for their names.
use rust_subprocess.Prelude.{
  ℕ, ◌+◌, ◌≤◌, ◌≡◌, ◌↔◌, refl, Bool, true, false, List, [], ◌∷◌, ◌++◌, map, Option, none, some,
  arith, ◌==◌, ==_iff, Bool-cases, inl, inr, length, Bytes, length-append, All, Result, ok, err,
  IoError,
}
use rust_subprocess.Posix.Exec.{
  colon, slash, split_path, PrepExec, new, longest, ExecOs, Executed, replaced, came_back, try_dirs,
  exec,
}
use rust_subprocess.Posix.Exec.SearchPath.{split_on_colons, nonempty, split_path-nonempty}

-- The C string of a command in a directory.
abbrev pub in_dir : Bytes → Bytes → Bytes
in_dir cmd dir = dir ++ slash ∷ (cmd ++ 0 ∷ [])

-- The files that a command may name: itself, or one in each directory of the search path.
abbrev pub candidates : Bytes → Option Bytes → List Bytes
candidates cmd none = (cmd ++ 0 ∷ []) ∷ []
candidates cmd (some path) = map (in_dir cmd) (nonempty (split_on_colons path))

-- The one after the other is executed, until one succeeds; `last` is the result if there is none.
unfoldable pub in_order :
    (os : ExecOs) → PrepExec → List Bytes → Result (Unit {0}) IoError → os.World → Executed os
in_order os prep [] last w = came_back last w
in_order os prep (exe ∷ exes) last w = elim (os.sys_exec exe prep.argvec prep.envvec w) [
  | none ↦ replaced exe
  | some (e, w') ↦ in_order os prep exes (err e) w'
]

try_dirs-in_order :
    (os : ExecOs) (prep : PrepExec) (dirs : List Bytes) (last : Result (Unit {0}) IoError)
    (w : os.World)
    → try_dirs os prep dirs last w ≡ in_order os prep (map (in_dir prep.cmd) dirs) last w
unfolding try_dirs in_order
try_dirs-in_order os prep [] last w = refl
try_dirs-in_order os prep (dir ∷ dirs) last w =
    step (os.sys_exec (in_dir prep.cmd dir) prep.argvec prep.envvec w)
      λ e w'. try_dirs-in_order os prep dirs (err e) w'
  where
    step :
        (reply : Option (IoError × os.World))
        → ((e : IoError) (w' : os.World)
            → try_dirs os prep dirs (err e) w'
              ≡ in_order os prep (map (in_dir prep.cmd) dirs) (err e) w')
        → elim reply [
          | none ↦ replaced (in_dir prep.cmd dir)
          | some (e, w') ↦ try_dirs os prep dirs (err e) w'
        ]
          ≡ elim reply [
            | none ↦ replaced (in_dir prep.cmd dir)
            | some (e, w') ↦ in_order os prep (map (in_dir prep.cmd) dirs) (err e) w'
          ]
    step none h = refl
    step (some (e, w')) h = h e w'

-- `exec` executes the files that the command may name by the search path, each in the order of the
-- path until one succeeds, and comes back with the error of the last one.
pub exec-in_order :
    (os : ExecOs) (cmd : Bytes) (argv : List Bytes) (env : Option (List Bytes))
    (search : Option Bytes) (w : os.World)
    → exec os (new cmd argv env search) w
      ≡ in_order os (new cmd argv env search) (candidates cmd search) (ok tt) w
unfolding exec new in_order
exec-in_order os cmd argv env none w = refl
exec-in_order os cmd argv env (some path) w =
    rw⁻¹ split_path-nonempty
      (try_dirs-in_order os (new cmd argv env (some path)) (split_path path) (ok tt) w)

in_dir-length : (cmd dir : Bytes) → length (in_dir cmd dir) ≡ length cmd + length dir + 2
in_dir-length cmd dir =
    omega (arith, length-append dir (slash ∷ (cmd ++ 0 ∷ [])), length-append cmd (0 ∷ []))

fit_dirs :
    (cmd : Bytes) (dirs : List Bytes) (n : ℕ)
    → length cmd + 1 + (1 + longest dirs) ≤ n
    → All (λ exe. length exe ≤ n) (map (in_dir cmd) dirs)
unfolding longest
fit_dirs cmd [] n h = tt
fit_dirs cmd (dir ∷ dirs) n h =
    (omega (arith, in_dir-length cmd dir), fit_dirs cmd dirs n (omega arith))

-- The buffer allocated before the fork has room for every file that `exec` assembles in it, the
-- closing zero included, so that nothing is allocated in the child.
pub new-fits :
    (cmd : Bytes) (argv : List Bytes) (env : Option (List Bytes)) (search : Option Bytes)
    → All (λ exe. length exe ≤ (new cmd argv env search).max_exe_len) (candidates cmd search)
unfolding new
new-fits cmd argv env none = (omega (arith, length-append cmd (0 ∷ [])), tt)
new-fits cmd argv env (some path) =
    rw⁻¹ split_path-nonempty (fit_dirs cmd (split_path path) _ (omega arith))

only_colons : (path : Bytes) → nonempty (split_on_colons path) ≡ [] → All (λ c. c ≡ colon) path
unfolding nonempty split_on_colons
only_colons [] h = tt
only_colons (c ∷ path) h = elim (Bool-cases (c == colon)) [
  | inl e ↦ ((==_iff c colon).0 e, only_colons path (ground (arith, e, h)))
  | inr e ↦ absurd (ground (arith, e, h))
]

no_directory : (path : Bytes) → All (λ c. c ≡ colon) path → nonempty (split_on_colons path) ≡ []
unfolding nonempty split_on_colons
no_directory [] h = refl
no_directory (c ∷ path) (hc, hp) = ground (arith, hc, no_directory path hp)

-- The run came back, and without an error.
abbrev pub is_ok : {os : ExecOs} → Executed os → Bool
is_ok (replaced exe) = false
is_ok (came_back (ok u) w) = true
is_ok (came_back (err e) w) = false

module _ (os : ExecOs) (prep : PrepExec) where
  is_ok_reply :
      (exe : Bytes) (exes : List Bytes)
      → ((e : IoError) (w' : os.World) → is_ok (in_order os prep exes (err e) w') ≡ false)
      → (reply : Option (IoError × os.World))
      → is_ok (elim reply as (λ _. Executed os) [
        | none ↦ replaced exe
        | some (e, w') ↦ in_order os prep exes (err e) w'
      ])
        ≡ false
  is_ok_reply exe exes h none = refl
  is_ok_reply exe exes h (some (e, w')) = h e w'

  is_ok-in_order_err :
      (exes : List Bytes) (e : IoError) (w : os.World)
      → is_ok (in_order os prep exes (err e) w) ≡ false
  unfolding in_order
  is_ok-in_order_err [] e w = refl
  is_ok-in_order_err (exe ∷ exes) e w =
      is_ok_reply exe exes (is_ok-in_order_err exes) (os.sys_exec exe prep.argvec prep.envvec w)

  is_ok-in_order :
      (dirs : List Bytes) (w : os.World)
      → (is_ok (in_order os prep (map (in_dir prep.cmd) dirs) (ok tt) w) ≡ true) ↔ (dirs ≡ [])
  unfolding in_order
  is_ok-in_order [] w = (λ _. refl, λ _. refl)
  is_ok-in_order (dir ∷ dirs) w =
      let failed =
        is_ok_reply (in_dir prep.cmd dir) (map (in_dir prep.cmd) dirs)
          (is_ok-in_order_err (map (in_dir prep.cmd) dirs))
          (os.sys_exec (in_dir prep.cmd dir) prep.argvec prep.envvec w) in
      (λ h. cc, λ h. cc)

-- `exec` comes back without an error, having tried no file, exactly if the search path has nothing
-- but colons.
pub exec_no_directory :
    (os : ExecOs) (cmd : Bytes) (argv : List Bytes) (env : Option (List Bytes)) (path : Bytes)
    (w : os.World)
    → (is_ok (exec os (new cmd argv env (some path)) w) ≡ true) ↔ (All (λ c. c ≡ colon) path)
unfolding new
exec_no_directory os cmd argv env path w =
    let prep = new cmd argv env (some path) in
    let (to, from) = is_ok-in_order os prep (nonempty (split_on_colons path)) w in
    rw (exec-in_order os cmd argv env (some path) w)
      (λ h. only_colons path (to h), λ h. from (no_directory path h))
