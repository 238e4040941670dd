-- ===== src/Tests/Ffi.antt =====
-- A witness on the C interface.
use s_json.Base.{true, some, codes}
use s_json.Ffi.{sjson_document_parse}
use s_json.Ffi.Opens.{Opens, sjson_document_parse-Opens}
use s_json.Tests.Data.{blank_fpu, libc}

sjson_document_parse-Opens_example :
    Opens (sjson_document_parse blank_fpu libc true (some (codes "[true]")) 6)
sjson_document_parse-Opens_example =
    sjson_document_parse-Opens blank_fpu libc true (some (codes "[true]")) 6
