-- ===== src/Error.antt =====
-- include/shmipc/error.hpp and src/error.cpp: the kinds of error, `Result`, and the kinds'
-- translation to std::errc. Two errors are equal in the source when their kinds are, so an error
-- is its kind here; the free text of kIo and kOther and the size payloads are left out.
use mathlib.Core.Path.{◌≡◌, ap}

-- enum class Err
pub data Err : Type 0 where
  invalid_version invalid_msg_type session_shutdown streams_exhausted duplicate_stream : Err
  timeout stream_closed stream_reset connection_write_timeout connection_timeout : Err
  keep_alive_timeout end_of_stream session_unhealthy not_enough_data no_more_buffer : Err
  size_too_large broken_buffer share_memory_had_not_left_space stream_callback_had_existed : Err
  exchange_config exchange_config_timeout os_non_supported arch_non_supported : Err
  hot_restart_in_progress in_handshake_stage file_name_too_long queue_empty queue_full : Err
  stream_pool_full stream_has_unread_data stream_has_pending_data io other : Err

-- std::expected<T, Error>
pub data Result {ℓ} (A : Type ℓ) : Type ℓ where
  ok : A → Result A
  err : Err → Result A

pub ok_injective {ℓ} : {A : Type ℓ} {a b : A} → ok a ≡ ok b → a ≡ b
ok_injective {A = A} {a = a} e = ap value_of e
  where
    value_of : Result A → A
    value_of (ok x) = x
    value_of (err x) = a

-- std::errc, as far as to_io_error_code uses it
pub data Errc : Type 0 where
  invalid_argument connection_reset resource_unavailable_try_again already_connected : Errc
  timed_out connection_aborted broken_pipe not_enough_memory not_supported io_error : Errc

unfoldable pub to_io_error_code : Err → Errc
to_io_error_code invalid_version = invalid_argument
to_io_error_code invalid_msg_type = invalid_argument
to_io_error_code connection_write_timeout = invalid_argument
to_io_error_code session_shutdown = connection_reset
to_io_error_code stream_reset = connection_reset
to_io_error_code streams_exhausted = resource_unavailable_try_again
to_io_error_code session_unhealthy = resource_unavailable_try_again
to_io_error_code not_enough_data = resource_unavailable_try_again
to_io_error_code no_more_buffer = resource_unavailable_try_again
to_io_error_code share_memory_had_not_left_space = resource_unavailable_try_again
to_io_error_code queue_empty = resource_unavailable_try_again
to_io_error_code queue_full = resource_unavailable_try_again
to_io_error_code stream_pool_full = resource_unavailable_try_again
to_io_error_code hot_restart_in_progress = resource_unavailable_try_again
to_io_error_code in_handshake_stage = resource_unavailable_try_again
to_io_error_code duplicate_stream = already_connected
to_io_error_code stream_callback_had_existed = already_connected
to_io_error_code timeout = timed_out
to_io_error_code connection_timeout = timed_out
to_io_error_code keep_alive_timeout = timed_out
to_io_error_code exchange_config_timeout = timed_out
to_io_error_code stream_closed = connection_aborted
to_io_error_code end_of_stream = broken_pipe
to_io_error_code size_too_large = not_enough_memory
to_io_error_code broken_buffer = broken_pipe
to_io_error_code os_non_supported = not_supported
to_io_error_code arch_non_supported = not_supported
to_io_error_code file_name_too_long = invalid_argument
to_io_error_code io = io_error
to_io_error_code _ = io_error
