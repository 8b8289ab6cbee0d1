-- ===== src/Win32/Calls.antt =====
-- src/win32.rs: the calls of the Windows API with their errors, and the wait for a handle. The API
-- is not part of the program: it is the record `WinOs`. Handles are numbers, a BOOL is a number.
pub mod Waiting
use rust_subprocess.Prelude.{
  ℕ, zero, suc, ◌+◌, ◌-◌, ◌/◌, ◌^◌, Bool, true, false, not, ◌||◌, [], ◌∷◌, ◌++◌, Option, none, some,
  ◌==◌, leb, ltb, if◌then◌else◌, bit_or, Result, ok, err, IoError, Run, returned, panicked,
  unfinished, and_then, deadline_at,
}
use mathlib.Core.Option
use rust_subprocess.OsCommon.{StandardStream}
use rust_subprocess.Win32.Cmdline.{Units}

-- `STARTUPINFOW` and the arguments of `CreateProcessW`, `none` being a null pointer. Texts end in
-- their zero.
pub record ProcessArgs : Type 0 where
  pub appname : Option Units
  pub cmdline : Units
  pub inherit_handles : Bool
  pub creation_flags : ℕ
  pub env_block : Option Units
  pub cwd : Option Units
  pub std_input : Option ℕ
  pub std_output : Option ℕ
  pub std_error : Option ℕ
  pub startup_flags : ℕ

pub record ProcessInformation : Type 0 where
  pub process : ℕ
  pub thread : ℕ
  pub process_id : ℕ

pub record WinOs : Type 1 where
  pub World : Type 0
  pub now : World → ℕ
  -- The last instant that can be represented.
  pub latest : ℕ
  -- `Error::last_os_error()`
  pub last_error : World → IoError
  -- A wait in milliseconds, the last number being INFINITE.
  pub sys_wait : ℕ → ℕ → World → ℕ × World
  pub sys_exit_code : ℕ → World → ℕ × ℕ × World
  pub sys_terminate : ℕ → ℕ → World → ℕ × World
  pub sys_std_handle : StandardStream → World → ℕ × World
  pub invalid_handle : ℕ
  pub sys_create_pipe : Bool → World → ℕ × (ℕ × ℕ) × World
  pub sys_handle_information : ℕ → ℕ → ℕ → World → ℕ × World
  pub sys_create_process : ProcessArgs → World → ℕ × ProcessInformation × World
  pub sys_close : ℕ → World → World

-- The constants of the Windows API.
abbrev pub wait_object_0 : ℕ
wait_object_0 = 0

abbrev pub wait_abandoned : ℕ
wait_abandoned = 0x80

abbrev pub wait_timeout : ℕ
wait_timeout = 258

abbrev pub wait_failed : ℕ
wait_failed = 2 ^ 32 - 1

abbrev pub infinite : ℕ
infinite = 2 ^ 32 - 1

abbrev pub create_unicode_environment : ℕ
create_unicode_environment = 0x400

abbrev pub handle_flag_inherit : ℕ
handle_flag_inherit = 1

abbrev pub still_active : ℕ
still_active = 259

pub data WaitEvent : Type 0 where
  object_0 abandoned timed_out : WaitEvent

-- The milliseconds of one wait, and whether the whole wait is longer.
abbrev pub clamp_timeout : Option ℕ → ℕ × Bool
clamp_timeout none = (infinite, false)
clamp_timeout (some timeout) =
    if ltb (timeout / 1_000_000) infinite
    then (timeout / 1_000_000, false)
    else (infinite - 1, true)

-- `OsStr` to a vector that ends in zero.
abbrev pub to_nullterm : Units → Units
to_nullterm s = s ++ 0 ∷ []

module _ (os : WinOs) where
  open os use {
    World, now, latest, last_error, sys_wait, sys_exit_code, sys_terminate, sys_std_handle,
    invalid_handle, sys_create_pipe, sys_handle_information, sys_create_process, sys_close,
  }

  abbrev pub check : ℕ → World → Result (Unit {0}) IoError
  check status w = if status == 0 then err (last_error w) else ok tt

  abbrev pub check_handle : ℕ → World → Result ℕ IoError
  check_handle raw_handle w =
      if raw_handle == invalid_handle then err (last_error w) else ok raw_handle

  -- The `loop` of `WaitForSingleObject`; the first argument bounds its rounds.
  unfoldable pub wait_rounds : ℕ → ℕ → Option ℕ → Option ℕ → World → Run (ℕ × World)
  wait_rounds zero handle deadline timeout w = unfinished
  wait_rounds (suc fuel) handle deadline timeout w =
      let (timeout_ms, overflow) = clamp_timeout timeout in
      let (result, w') = sys_wait handle timeout_ms w in
      if not (result == wait_timeout) || not overflow
      then returned (result, w')
      else elim deadline [
        | none ↦ panicked
        | some d ↦
            let again = wait_rounds fuel handle (some d) (some (d - now w')) w' in
            if leb d (now w') then returned (wait_timeout, w') else again
      ]

  -- The event that a result stands for. Any other result is a panic.
  unfoldable pub event_of : ℕ → World → Run (Result WaitEvent IoError)
  event_of result w =
      if result == wait_object_0
      then returned (ok object_0)
      else if result == wait_abandoned
      then returned (ok abandoned)
      else if result == wait_timeout
      then returned (ok timed_out)
      else if result == wait_failed
      then returned (err (last_error w))
      else panicked

  unfoldable pub wait_for_single_object :
      ℕ → ℕ → Option ℕ → World → Run (Result WaitEvent IoError × World)
  wait_for_single_object fuel handle timeout w =
      and_then (deadline_at latest (now w) timeout) λ deadline.
        and_then (wait_rounds fuel handle deadline timeout w)
          λ t. and_then (event_of t.0 t.1) λ event. returned (event, t.1)

  unfoldable pub get_exit_code_process : ℕ → World → Result ℕ IoError × World
  get_exit_code_process handle w =
      let (status, code, w') = sys_exit_code handle w in
      (if status == 0 then err (last_error w') else ok code, w')

  unfoldable pub terminate_process : ℕ → ℕ → World → Result (Unit {0}) IoError × World
  terminate_process handle exit_code w =
      let (status, w') = sys_terminate handle exit_code w in (check status w', w')

  unfoldable pub get_std_handle : StandardStream → World → Result ℕ IoError × World
  get_std_handle which w =
      let (raw_handle, w') = sys_std_handle which w in (check_handle raw_handle w', w')

  -- The stream that is made is leaked as well, so that nothing closes the handle.
  unfoldable pub make_standard_stream : StandardStream → World → Result ℕ IoError × World
  make_standard_stream which w = get_std_handle which w

  unfoldable pub create_pipe : Bool → World → Result (ℕ × ℕ) IoError × World
  create_pipe inherit_handle w =
      let (status, ends, w') = sys_create_pipe inherit_handle w in
      (if status == 0 then err (last_error w') else ok ends, w')

  unfoldable pub set_handle_information : ℕ → ℕ → ℕ → World → Result (Unit {0}) IoError × World
  set_handle_information handle mask flags w =
      let (status, w') = sys_handle_information handle mask flags w in (check status w', w')

  -- The process's handle and its id; the thread's handle is closed.
  unfoldable pub create_process :
      Option Units
      → Units
      → Option Units
      → Option Units
      → Bool
      → ℕ
      → Option ℕ
      → Option ℕ
      → Option ℕ
      → ℕ
      → World
      → Result (ℕ × ℕ) IoError × World
  create_process appname cmdline env_block cwd inherit_handles creation_flags stdin stdout stderr
        sinfo_flags w =
      let (status, pinfo, w') =
        sys_create_process
          (record {
            appname = Option.map to_nullterm appname;
            cmdline = to_nullterm cmdline;
            inherit_handles = inherit_handles;
            creation_flags = bit_or creation_flags create_unicode_environment;
            env_block = env_block;
            cwd = Option.map to_nullterm cwd;
            std_input = stdin;
            std_output = stdout;
            std_error = stderr;
            startup_flags = sinfo_flags;
          })
          w in
      if status == 0
      then (err (last_error w'), w')
      else (ok (pinfo.process, pinfo.process_id), sys_close pinfo.thread w')
