-- ===== src/Identity/Origins.antt =====
-- origin-guard.ts. `lower` is `toLowerCase` and `parse_url` is `new URL`, `none` where it throws.
pub mod Laws
use user_service_platform.Prelude.{
  ℕ, Bool, true, false, not, ◌&&◌, ◌||◌, List, [], ◌∷◌, map, Option, none, some, Result, ok, err,
  get_or, if◌then◌else◌, all, any, keep,
}
use user_service_platform.Url.{Url}
use user_service_platform.Text.{Text, codes, text_eq, is_empty, includes, trim, split_on}

-- `CookieMutationOriginInput`.
pub record OriginInput : Type 0 where
  pub request_origin : Text
  pub origin : Option Text
  pub sec_fetch_site : Option Text
  pub gateway_origins : List Text

-- The message that the code throws.
pub data OriginsError : Type 0 where
  malformed_origins : OriginsError

abbrev pub is_exact_url : Text → Option Url → Bool
is_exact_url value none = false
is_exact_url value (some url) =
    (text_eq url.protocol (codes "http:") || text_eq url.protocol (codes "https:"))
    && (is_empty url.username && is_empty url.password)
    && (text_eq url.pathname (codes "/") && is_empty url.search && is_empty url.hash)
    && text_eq url.origin value

unfoldable pub is_exact_http_origin : (Text → Option Url) → Text → Bool
is_exact_http_origin parse_url value =
    if includes b'*' value then false else is_exact_url value (parse_url value)

abbrev pub entries_of : Text → List Text
entries_of [] = []
entries_of (c ∷ s) = keep (λ entry. not (is_empty entry)) (map trim (split_on b',' (c ∷ s)))

unfoldable pub resolve_gateway_origins :
    (Text → Option Url) → Option Text → Result OriginsError (List Text)
unfolding is_exact_http_origin
resolve_gateway_origins parse_url raw =
    let origins = entries_of (trim (get_or raw [])) in
    if all (is_exact_http_origin parse_url) origins then ok origins else err malformed_origins

-- A header that is absent or blank is not presented.
abbrev pub presented_text : Text → Option Text
presented_text [] = none
presented_text (c ∷ s) = some (c ∷ s)

abbrev pub presented : Option Text → Option Text
presented none = none
presented (some value) = presented_text (trim value)

-- Metadata that a browser sends for a request that no other site started.
abbrev pub is_own_site : Text → Bool
is_own_site site =
    text_eq site (codes "same-origin")
    || text_eq site (codes "same-site")
    || text_eq site (codes "none")

abbrev pub is_known_site : Text → Bool
is_known_site site = is_own_site site || text_eq site (codes "cross-site")

abbrev pub is_consistent : Text → Text → Text → Bool
is_consistent request_origin origin site =
    if not (is_known_site site)
    then false
    else if text_eq origin request_origin && text_eq site (codes "cross-site")
    then false
    else true

module _ (lower : Text → Text) where
  abbrev pub evaluate_site : Text → Text → Option Text → Bool
  evaluate_site request_origin origin none = true
  evaluate_site request_origin origin (some site) = is_consistent request_origin origin (lower site)

  abbrev pub evaluate_headerless : Option Text → Bool
  evaluate_headerless none = true
  evaluate_headerless (some site) = is_own_site (lower site)

  abbrev pub evaluate_presented : Text → List Text → Option Text → Option Text → Bool
  evaluate_presented request_origin gateways none site = evaluate_headerless site
  evaluate_presented request_origin gateways (some origin) site =
      if any (text_eq origin) (request_origin ∷ gateways)
      then evaluate_site request_origin origin site
      else false

  unfoldable pub evaluate_cookie_mutation_origin : OriginInput → Bool
  evaluate_cookie_mutation_origin input =
      evaluate_presented input.request_origin input.gateway_origins (presented input.origin)
        (presented input.sec_fetch_site)
