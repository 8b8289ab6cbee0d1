-- ===== src/Popen/ExecStatus.antt =====
-- The status that a child whose exec failed sends to its parent over the exec-fail pipe, in
-- `os_start` of src/popen.rs (Unix).
mod Tests
use rust_subprocess.Prelude.{
  ℕ, ◌+◌, ◌-◌, ◌*◌, ◌/◌, ◌%◌, ◌^◌, ◌<◌, bit_or, ◌≡◌, none, some, [], ◌∷◌, arith, Bytes, ltb,
  if◌then◌else◌, Result, ok, err, ℤ, pos, negsuc, IoError, os_error, raw_os_error,
}
use rust_subprocess.Prelude.Bits.{bit_or-disjoint}
use rust_subprocess.Prelude.Words.{as_u32, as_i32, as_u8, IsI32, as_i32-as_u32, as_u32-lt}
use rust_subprocess.Popen.State.{PopenError, io_error, logic_error}

-- `e.raw_os_error().unwrap_or(-1)`
unfoldable pub error_code : IoError → ℤ
error_code e = elim (raw_os_error e) [ some code ↦ code | none ↦ negsuc 0 ]

-- The four bytes that the child writes.
pub status_bytes : IoError → Bytes
unfolding error_code
status_bytes e =
    let code = as_u32 (error_code e) in
    as_u8 code ∷ as_u8 (code / 2 ^ 8) ∷ as_u8 (code / 2 ^ 16) ∷ as_u8 (code / 2 ^ 24) ∷ []

-- `b[0] as u32 | (b[1] as u32) << 8 | (b[2] as u32) << 16 | (b[3] as u32) << 24`
unfoldable pub join_bytes : ℕ → ℕ → ℕ → ℕ → ℕ
join_bytes b0 b1 b2 b3 =
    bit_or (bit_or (bit_or b0 (b1 * 2 ^ 8 % 2 ^ 32)) (b2 * 2 ^ 16 % 2 ^ 32)) (b3 * 2 ^ 24 % 2 ^ 32)

-- What the parent makes of the bytes that one `read` into its buffer of four returned.
unfoldable pub exec_status : Bytes → Result (Unit {0}) PopenError
unfolding join_bytes
exec_status [] = ok tt
exec_status (b0 ∷ b1 ∷ b2 ∷ b3 ∷ []) = err (io_error (os_error (as_i32 (join_bytes b0 b1 b2 b3))))
exec_status _ = err (logic_error "invalid read_count from exec pipe")

join_bytes-eq :
    (b0 b1 b2 b3 : ℕ)
    → b0 < 256
    → b1 < 256
    → b2 < 256
    → b3 < 256
    → join_bytes b0 b1 b2 b3 ≡ b0 + b1 * 2 ^ 8 + b2 * 2 ^ 16 + b3 * 2 ^ 24
unfolding join_bytes
join_bytes-eq b0 b1 b2 b3 h0 h1 h2 h3 =
    let m1 : b1 * 2 ^ 8 % 2 ^ 32 ≡ b1 * 2 ^ 8 = omega arith in
    let m2 : b2 * 2 ^ 16 % 2 ^ 32 ≡ b2 * 2 ^ 16 = omega arith in
    let m3 : b3 * 2 ^ 24 % 2 ^ 32 ≡ b3 * 2 ^ 24 = omega arith in
    rw (
      m1,
      m2,
      m3,
      bit_or-disjoint 8 b0 b1 h0,
      bit_or-disjoint 16 (b0 + b1 * 2 ^ 8) b2 (omega arith),
      bit_or-disjoint 24 (b0 + b1 * 2 ^ 8 + b2 * 2 ^ 16) b3 (omega arith),
    )

join_split :
    (code : ℕ)
    → code < 2 ^ 32
    → join_bytes (code % 256) (code / 2 ^ 8 % 256) (code / 2 ^ 16 % 256) (code / 2 ^ 24 % 256)
      ≡ code
join_split code h =
    rw
      (join_bytes-eq (code % 256) (code / 2 ^ 8 % 256) (code / 2 ^ 16 % 256) (code / 2 ^ 24 % 256)
        (omega arith) (omega arith) (omega arith) (omega arith))
      (omega arith)

-- The parent reports the very error code with which the child failed, -1 standing for an error that
-- has none, whenever the code is an i32.
pub exec_status-status_bytes :
    (e : IoError)
    → IsI32 (error_code e)
    → exec_status (status_bytes e) ≡ err (io_error (os_error (error_code e)))
unfolding exec_status status_bytes
exec_status-status_bytes e h =
    rw (
      join_split (as_u32 (error_code e)) (as_u32-lt (error_code e)),
      as_i32-as_u32 (error_code e) h,
    )
