-- ===== src/Errors.antt =====
-- The errors of groupcache_config.go and groupcache.go as values, and what a call answers.
use cachecore.Base.{◌++◌}
use cachecore.Go.Bytes.{Bytes, Key, codes}
use cachecore.Go.Int64.{Int64}
use cachecore.Go.Numbers.{format_int}

-- `not_found` stands for every error that `errors.Is` takes for `ErrNotFound`, with the text of
-- that error; `server_error` is what a client makes of a response with a code; `other` is any
-- other error, by its text.
pub data Error : Type 0 where
  key_required : Error
  not_found : Error
  filter_not_found : Key → Error
  wait_timeout : Error
  non_numeric : Error
  server_error : Int64 → Bytes → Error
  other : Bytes → Error

pub data Answer (A : Type 0) : Type 0 where
  ok : A → Answer A
  err : Error → Answer A

-- `ErrFilterNotFound.Error()`
abbrev pub filter_text : Bytes
filter_text = codes "key not found in filter"

-- `Error()`
unfoldable pub error_text : Error → Bytes
error_text key_required = codes "key is required"
error_text not_found = codes "key not found"
error_text (filter_not_found key) =
    filter_text ++ codes " key " ++ key ++ codes " not found in filter"
error_text wait_timeout = codes "singleflight wait timeout"
error_text non_numeric = codes "cache value is not numeric"
error_text (server_error code msg) =
    codes "server error code=" ++ format_int code ++ codes ": " ++ msg
error_text (other text) = text
