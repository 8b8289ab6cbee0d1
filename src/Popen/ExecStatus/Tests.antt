-- ===== src/Popen/ExecStatus/Tests.antt =====
-- The status of an exec that failed with ENOENT.
use rust_subprocess.Prelude.{◌≡◌, arith, err, pos, os_error}
use rust_subprocess.Popen.ExecStatus.{
  io_error, error_code, status_bytes, exec_status, exec_status-status_bytes,
}

exec_status-status_bytes_example :
    exec_status (status_bytes (os_error (pos 2))) ≡ err (io_error (os_error (pos 2)))
unfolding error_code
exec_status-status_bytes_example = exec_status-status_bytes (os_error (pos 2)) (omega arith)
