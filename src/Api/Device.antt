-- ===== src/Api/Device.antt =====
-- linber_init, linber_exit and ioctl_send of libs/src/linber_service_api.c.
use linber.Prelude.{ℕ, zero, suc, if◌then◌else◌}
use linber.Prelude.Int.{ℤ, pos, negsuc}
use linber.Driver.Params.{Ioctl}
use linber.Api.Process.{U, Os, ◌>>=◌, ◌>>◌, pure, is_negative, ioctl, open_file, close_file, get_fd}

abbrev pub error_device_file : ℤ
error_device_file = negsuc 0

unfoldable pub linber_init : Os → U ℤ
linber_init os = do
  fd ← open_file os
  if is_negative fd then pure error_device_file else pure (pos 0)

-- The variable keeps the number of the descriptor that is closed.
unfoldable pub linber_exit : U ℤ
linber_exit = do
  fd ← get_fd
  if is_negative fd then pure error_device_file else do close_file; pure (pos 0)

-- `ret = -errno`
abbrev pub minus_errno : ℕ → ℤ
minus_errno zero = pos 0
minus_errno (suc e) = negsuc e

abbrev pub result_of : ℤ × ℕ → ℤ
result_of r = if is_negative r.0 then minus_errno r.1 else r.0

-- The device file is opened for the call if it never was, and then closed behind it.
unfoldable pub ioctl_send : Os → Ioctl → U ℤ
ioctl_send os cmd = do
  fd ← get_fd
  let close_it = is_negative fd
  _ ← (if close_it then linber_init os else pure (pos 0))
  fd' ← get_fd
  if is_negative fd' then pure error_device_file else do
    r ← ioctl os cmd
    _ ← (if close_it then linber_exit else pure (pos 0))
    pure (result_of r)
