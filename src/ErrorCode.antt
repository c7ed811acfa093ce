-- ===== src/ErrorCode.antt =====
-- include/error.h: the error codes of the consumer's side, and their report on stderr.
use low_latency_logger.Prelude.{ℕ, Option, none, some, List, [], ◌∷◌, ◌++◌, if◌then◌else◌}
use low_latency_logger.Prelude.Text.{Text, text}
use low_latency_logger.Config.{Config}

-- `enum class ErrorCode : uint8_t`; `other n` is a byte that has no name. `ok` is its `None`.
pub data ErrorCode : Type 0 where
  ok file_open_failed write_failed flush_failed : ErrorCode
  other : ℕ → ErrorCode

unfoldable pub error_to_string : ErrorCode → Text
error_to_string ErrorCode.ok = text "NONE"
error_to_string ErrorCode.file_open_failed = text "FILE_OPEN_FAILED"
error_to_string ErrorCode.write_failed = text "WRITE_FAILED"
error_to_string ErrorCode.flush_failed = text "FLUSH_FAILED"
error_to_string (ErrorCode.other n) = text "UNKNOWN"

-- `context ? context : "error"`
abbrev pub context_or : Option Text → Text
context_or none = text "error"
context_or (some context) = context

-- `ReportError`, on the lines printed on stderr so far.
unfoldable pub report_error : Config → ErrorCode → Option Text → List Text → List Text
report_error cfg code context stderr =
    if cfg.enable_stderr_diagnostics
    then stderr
      ++ (text "[LOGGER] "
          ++ (context_or context ++ (text ": " ++ (error_to_string code ++ text "\n"))))
        ∷ []
    else stderr
