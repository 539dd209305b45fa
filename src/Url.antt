-- ===== src/Url.antt =====
-- What the code reads of a `URL`; the parser, `new URL`, is a parameter of the definitions that call
-- it, `none` where it throws.
use user_service_platform.Prelude.{Bool, ◌||◌}
use user_service_platform.Text.{Text, codes, text_eq}

pub record Url : Type 0 where
  pub protocol : Text
  pub username : Text
  pub password : Text
  pub hostname : Text
  pub pathname : Text
  pub search : Text
  pub hash : Text
  pub origin : Text

abbrev pub is_http : Url → Bool
is_http url = text_eq url.protocol (codes "http:") || text_eq url.protocol (codes "https:")
