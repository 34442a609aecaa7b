-- ===== src/Prelude/Errors.antt =====
-- The texts of the errors (utils/types/errors.go, utils/tss, database/sql), which some handlers search.
use meemaw.Prelude.Text.{Str, str}
use mathlib.Core.List.{◌++◌}
use meemaw.Prelude.Results.{GoError}

unfoldable pub error_text : GoError → Str
error_text GoError.not_found = str "not found"
error_text GoError.unauthorized = str "unauthorized"
error_text GoError.bad_request = str "bad request"
error_text GoError.tss_process_failed = str "tss process failed"
error_text GoError.conflict = str "conflict"
error_text GoError.time_out = str "timed out"
error_text GoError.no_rows = str "sql: no rows in result set"
error_text GoError.conversion = str "conversion error"
error_text GoError.not_enough_peers = str "not enough input peers, need at least 2"
error_text GoError.absent_curve = str "curve is nil"
error_text GoError.pub_key_mismatch =
    str "pubkey derived from recovered privkey is not equal to pubkey provided"
error_text (GoError.text s) = s
error_text (GoError.wrapped prefix e) = prefix ++ error_text e
