-- ===== src/Identity/Origins/Laws.antt =====
-- What the origin guard accepts, and what the gateway setting can hold.
use user_service_platform.Prelude.{
  ◌≡◌, ◌≢◌, refl, subst, ◌↔◌, ◌⊎◌, Bool, true, false, List, [], ◌∷◌, Option, none, some, ok, err,
  get_or, if◌then◌else◌, all, any, All, arith,
}
use user_service_platform.Url.{Url}
use user_service_platform.Text.{Text, codes, text_eq, is_empty, includes, trim}
use user_service_platform.Text.Laws.{text_eq_iff}
use user_service_platform.Identity.Origins.{
  OriginInput, malformed_origins, is_exact_url, is_exact_http_origin, entries_of,
  resolve_gateway_origins, presented, is_own_site, is_consistent, evaluate_presented,
  evaluate_cookie_mutation_origin,
}

abbrev Listed : Text → List Text → Type 0
Listed a [] = ⊥
Listed a (x ∷ xs) = (a ≡ x) ⊎ Listed a xs

any_iff : (a : Text) (xs : List Text) → (any (text_eq a) xs ≡ true) ↔ Listed a xs
any_iff a [] = ground arith
any_iff a (x ∷ xs) = ground (arith, any_iff a xs, text_eq_iff a x)

abbrev cross_site : Text
cross_site = codes "cross-site"

-- `same-origin`, `same-site` or `none`.
abbrev IsOwnSite : Text → Type 0
IsOwnSite site = (site ≡ codes "same-origin") ⊎ ((site ≡ codes "same-site") ⊎ (site ≡ codes "none"))

is_own_site_iff : (site : Text) → (is_own_site site ≡ true) ↔ IsOwnSite site
is_own_site_iff site = ground (
  arith,
  text_eq_iff site (codes "same-origin"),
  text_eq_iff site (codes "same-site"),
  text_eq_iff site (codes "none"),
)

-- What the two presented headers must be, given the service's origin and the gateways'.
abbrev pub IsAcceptable : (Text → Text) → Text → List Text → Option Text → Option Text → Type 0
IsAcceptable lower request gateways none none = Unit
IsAcceptable lower request gateways none (some site) = IsOwnSite (lower site)
IsAcceptable lower request gateways (some origin) none = Listed origin (request ∷ gateways)
IsAcceptable lower request gateways (some origin) (some site) =
    (Listed origin (request ∷ gateways) × IsOwnSite (lower site))
    ⊎ (Listed origin gateways × (origin ≢ request) × (lower site ≡ cross_site))

cross_site_own : is_own_site cross_site ≡ false
unfolding text_eq codes
cross_site_own = refl

cross_site_not_own : (site : Text) → site ≡ cross_site → is_own_site site ≡ false
cross_site_not_own site h = rw h cross_site_own

is_consistent_iff :
    (request origin site : Text)
    → (is_consistent request origin site ≡ true)
      ↔ (IsOwnSite site ⊎ ((origin ≢ request) × (site ≡ cross_site)))
is_consistent_iff request origin site = ground (
  arith,
  is_own_site_iff site,
  cross_site_not_own site,
  text_eq_iff site cross_site,
  text_eq_iff origin request,
)

evaluate_presented_iff :
    (lower : Text → Text) (request : Text) (gateways : List Text) (origin site : Option Text)
    → (evaluate_presented lower request gateways origin site ≡ true)
      ↔ IsAcceptable lower request gateways origin site
evaluate_presented_iff lower request gateways none none = ground arith
evaluate_presented_iff lower request gateways none (some site) = is_own_site_iff (lower site)
evaluate_presented_iff lower request gateways (some origin) none =
    ground (arith, any_iff origin (request ∷ gateways))
evaluate_presented_iff lower request gateways (some origin) (some site) = ground (
  arith,
  any_iff origin gateways,
  text_eq_iff origin request,
  is_consistent_iff request origin (lower site),
)

-- The guard accepts exactly the acceptable headers: an origin, if one is presented, is the
-- service's or a gateway's, and a fetch site, if one is presented, is a known one, which is cross-
-- site only with the origin of a gateway that is not the service's.
pub evaluate_cookie_mutation_origin_iff :
    (lower : Text → Text) (input : OriginInput)
    → (evaluate_cookie_mutation_origin lower input ≡ true)
      ↔ IsAcceptable lower input.request_origin input.gateway_origins
          (presented input.origin)
          (presented input.sec_fetch_site)
unfolding evaluate_cookie_mutation_origin
evaluate_cookie_mutation_origin_iff lower input =
    evaluate_presented_iff lower input.request_origin input.gateway_origins (presented input.origin)
      (presented input.sec_fetch_site)

-- An http origin that its parsed form serializes to, with no user, path, query or fragment.
pub record IsExactOrigin (parse_url : Text → Option Url) (value : Text) : Type 0 where
  pub url : Url
  pub parses : parse_url value ≡ some url
  pub same : url.origin ≡ value
  pub scheme : (url.protocol ≡ codes "http:") ⊎ (url.protocol ≡ codes "https:")
  pub no_user : (url.username ≡ []) × (url.password ≡ [])
  pub no_path : (url.pathname ≡ codes "/") × (url.search ≡ []) × (url.hash ≡ [])
  pub no_wildcard : includes b'*' value ≡ false

is_empty_sound : (s : Text) → is_empty s ≡ true → s ≡ []
is_empty_sound [] h = refl
is_empty_sound (c ∷ s) h = ground arith

is_exact_url_sound :
    (parse_url : Text → Option Url) (value : Text) (parsed : Option Url)
    → parse_url value ≡ parsed
    → includes b'*' value ≡ false
    → is_exact_url value parsed ≡ true
    → IsExactOrigin parse_url value
is_exact_url_sound parse_url value none e w h = ground arith
is_exact_url_sound parse_url value (some url) e w h = record {
  url = url;
  parses = e;
  same = (text_eq_iff url.origin value).0 (ground arith);
  scheme =
      ground (
        arith,
        text_eq_iff url.protocol (codes "http:"),
        text_eq_iff url.protocol (codes "https:"),
      );
  no_user =
      (ground (arith, is_empty_sound url.username), ground (arith, is_empty_sound url.password));
  no_path = (
    ground (arith, text_eq_iff url.pathname (codes "/")),
    ground (arith, is_empty_sound url.search),
    ground (arith, is_empty_sound url.hash),
  );
  no_wildcard = w;
}

is_exact_http_origin_sound :
    (parse_url : Text → Option Url) (value : Text)
    → is_exact_http_origin parse_url value ≡ true
    → IsExactOrigin parse_url value
unfolding is_exact_http_origin
is_exact_http_origin_sound parse_url value h =
    is_exact_url_sound parse_url value (parse_url value) refl (ground arith) (ground arith)

all-exact :
    (parse_url : Text → Option Url) (values : List Text)
    → all (is_exact_http_origin parse_url) values ≡ true
    → All (IsExactOrigin parse_url) values
all-exact parse_url [] h = tt
all-exact parse_url (value ∷ values) h = (
  is_exact_http_origin_sound parse_url value (ground arith),
  all-exact parse_url values (ground arith),
)

checked :
    (b : Bool) (xs ys : List Text)
    → (if b then ok xs else err malformed_origins) ≡ ok ys
    → (b ≡ true) × (xs ≡ ys)
checked true xs ys h = (refl, cc)
checked false xs ys h = cc

-- If the gateway setting resolves, each origin that it lists is an exact http origin.
pub resolve_gateway_origins-IsExact :
    (parse_url : Text → Option Url) (raw : Option Text) (origins : List Text)
    → resolve_gateway_origins parse_url raw ≡ ok origins
    → All (IsExactOrigin parse_url) origins
unfolding resolve_gateway_origins
resolve_gateway_origins-IsExact parse_url raw origins h =
    let entries = entries_of (trim (get_or raw [])) in
    let good = checked (all (is_exact_http_origin parse_url) entries) entries origins h in
    subst (All (IsExactOrigin parse_url)) good.1 (all-exact parse_url entries good.0)
