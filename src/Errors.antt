-- ===== src/Errors.antt =====
-- The error values of internal/storage/storageData, internal/app, internal/server/http and cmd/cli,
-- those of the libraries that the code passes on, and Go's results with an error.
use golang_fin.Prelude.{String, ◌⧺◌}
use golang_fin.Std.Strconv.{NumError, syntax, range}

pub data GoError : Type 0 where
  no_record storage_timeout bad_list_type : GoError
  ip_in_bl ip_in_wl : GoError
  void_login void_password void_ip void_mask incorrect_mask bad_ip : GoError
  bad_bucket_type_tag method_unsupported : GoError
  unsupported_command bad_arg_count bad_argument anti_bf_not_available : GoError
  -- `sql.ErrNoRows` and `http.ErrServerClosed`
  sql_no_rows server_closed : GoError
  -- `strconv.NumError` of `Atoi`, with the text it was given
  num_error : String → NumError → GoError
  -- `net.ParseError` of `ParseCIDR`
  cidr_error : String → GoError
  -- `errors.New` in place
  new_error : String → GoError
  -- what a library outside the repository returned, with its text
  external : String → GoError

-- `Error()` of a `NumError`, for texts that `strconv.Quote` only puts in quotation marks.
abbrev num_error_text : String → NumError → String
num_error_text s syntax = "strconv.Atoi: parsing \"" ⧺ s ⧺ "\": invalid syntax"
num_error_text s range = "strconv.Atoi: parsing \"" ⧺ s ⧺ "\": value out of range"

unfoldable pub error_text : GoError → String
error_text no_record = "no record found"
error_text storage_timeout = "storage timeout"
error_text bad_list_type = "bad list type"
error_text ip_in_bl = "IP is already in blacklist"
error_text ip_in_wl = "IP is already in whitelist"
error_text void_login = "void login"
error_text void_password = "void password"
error_text void_ip = "void IP"
error_text void_mask = "void mask"
error_text incorrect_mask = "incorrect mask"
error_text bad_ip = "IP struct is bad"
error_text bad_bucket_type_tag = "bad bucket type tag"
error_text method_unsupported = "method is unsupported"
error_text unsupported_command = "unsupported command"
error_text bad_arg_count = "bad argument count"
error_text bad_argument = "bad argument"
error_text anti_bf_not_available = "antibf is not available"
error_text sql_no_rows = "sql: no rows in result set"
error_text server_closed = "http: Server closed"
error_text (num_error s e) = num_error_text s e
error_text (cidr_error s) = "invalid CIDR address: " ⧺ s
error_text (new_error s) = s
error_text (external s) = s

-- A Go result with an error: with an error the other results are zero values.
pub data Result (A : Type 0) : Type 0 where
  ok : A → Result A
  err : GoError → Result A
