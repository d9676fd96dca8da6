-- ===== src/Cabi.antt =====
-- src/crsdkpy/backend/_cabi.py: the structures of the C interface of the bridge, and the
-- translation of its status codes.
pub mod Structs
use cr_sdkpy.Base.{ℕ, ◌/◌, ◌%◌, Bool, true, false, ◌==◌, if◌then◌else◌, Result, ok, err}
use cr_sdkpy.Base.Int.{ℤ, pos, negsuc}
use cr_sdkpy.Events.{
  Error, native_backend_error, camera_connection, session_closed, unsupported,
  property_not_supported, operation_timeout,
}

-- The exception of a status: `ERR_INVALID_HANDLE` is -5, and so on. An error without a code or a
-- capability is written with 0 and with the empty text.
abbrev pub failure : ℤ → Error
failure (pos n) = camera_connection false
failure (negsuc n) =
    if n == 4
    then session_closed
    else if n == 11
    then camera_connection false
    else if n == 1
    then native_backend_error
    else if n == 6
    then property_not_supported 0
    else if n == 9
    then operation_timeout
    else if n == 10
    then unsupported ""
    else if n == 8
    then camera_connection false
    else native_backend_error

-- `check`
unfoldable pub check : ℤ → Result Error (Unit {0})
check status = if is_ok status then ok tt else err (failure status)
  where
    is_ok : ℤ → Bool
    is_ok (pos n) = n == 0
    is_ok (negsuc n) = false

-- The test of the version in `load_bridge`: the major half of the 32-bit word, of 1.
unfoldable pub check_abi : ℕ → Result Error (Unit {0})
check_abi version = if version / 65536 % 65536 == 1 then ok tt else err native_backend_error
