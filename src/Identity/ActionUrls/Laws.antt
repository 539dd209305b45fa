-- ===== src/Identity/ActionUrls/Laws.antt =====
-- The links of a deployment whose effective configuration resolves.
use user_service_platform.Prelude.{
  ◌≡◌, ◌≢◌, refl, ◌⊎◌, inl, inr, Bool, false, [], ◌∷◌, Option, some, ok, get_or,
}
use user_service_platform.Text.{Text, codes, is_empty, trim}
use user_service_platform.Url.{Url}
use user_service_platform.Config.Profiles.{
  auth_verify_email_action_url, auth_reset_password_action_url,
}
use user_service_platform.Config.{Runtime, EffectiveConfig, resolve_effective_config}
use user_service_platform.Config.Laws.{
  IsActionUrl, IsActionSlot, resolve_effective_config-HasActionSlots,
}
use user_service_platform.Identity.ActionUrls.{
  UrlApi, ActionUrlInput, build_from, build_auth_action_url, verify_input, reset_input,
}

is_empty-false : (s : Text) → s ≢ [] → is_empty s ≡ false
is_empty-false [] h = absurd (h refl)
is_empty-false (c ∷ s) h = refl

-- The link is to the service's own page where the text is empty, and otherwise to the page that the
-- text names, with the token as its parameter.
pub data Links (api : UrlApi) (input : ActionUrlInput) (value link : Text) : Type 0 where
  own :
      (origin : Url)
      → api.parse input.request_origin ≡ some origin
      → link ≡ api.with_param (codes "token") input.token (api.join input.fallback_path origin)
      → value ≡ []
      → Links api input value link
  configured :
      (target : Url)
      → api.parse value ≡ some target
      → link ≡ api.with_param (codes "token") input.token target
      → value ≢ []
      → Links api input value link

module _ (api : UrlApi) (lower : Text → Text) (production_like : Bool)
    (input : ActionUrlInput) where
  build_from-Links :
      (value : Text) (origin : Url)
      → api.parse input.request_origin ≡ some origin
      → (value ≡ []) ⊎ IsActionUrl lower api.parse production_like value
      → (link : Text) × (build_from api input value ≡ ok link) × Links api input value link
  build_from-Links [] origin e h = (_, rw e refl, own origin e refl refl)
  build_from-Links (c ∷ s) origin e (inl h) = cc
  build_from-Links (c ∷ s) origin e (inr page) = (
    _,
    rw (page.parses, page.http, page.no_user.0, page.no_user.1, page.no_fragment) refl,
    configured page.url page.parses refl (λ e. cc),
  )

  build-Links :
      (origin : Url)
      → input.token ≢ []
      → api.parse input.request_origin ≡ some origin
      → IsActionSlot lower api.parse production_like (get_or input.configured [])
      → let value = trim (get_or input.configured []) in
        (link : Text) × (build_auth_action_url api input ≡ ok link) × Links api input value link
  unfolding build_auth_action_url
  build-Links origin filled e slot =
      let r = build_from-Links (trim (get_or input.configured [])) origin e slot in
      (r.0, rw (is_empty-false input.token filled) r.1, r.2)

-- If the configuration resolves, the request's origin is a URL and the token is not empty, both
-- mail callbacks build their link, with the token: to the configured page where the slot is not
-- blank, and to the service's own page on that origin where it is.
pub build_auth_action_url-Links :
    (api : UrlApi) (lower : Text → Text) (name : Option Text) (runtime : Runtime)
    (effective : EffectiveConfig) (origin : Url) (request_origin token : Text)
    → resolve_effective_config lower api.parse name runtime ≡ ok effective
    → api.parse request_origin ≡ some origin
    → token ≢ []
    → let verify = verify_input effective.config request_origin token in
      let reset = reset_input effective.config request_origin token in
      ((link : Text) × (build_auth_action_url api verify ≡ ok link)
        × Links api verify (trim (effective.config auth_verify_email_action_url)) link)
      × ((link : Text) × (build_auth_action_url api reset ≡ ok link)
          × Links api reset (trim (effective.config auth_reset_password_action_url)) link)
build_auth_action_url-Links api lower name runtime effective origin request_origin token h e
      filled =
    let slots = resolve_effective_config-HasActionSlots lower api.parse name runtime effective h in
    (
      build-Links api lower _ (verify_input effective.config request_origin token) origin filled e
          slots.0,
      build-Links api lower _ (reset_input effective.config request_origin token) origin filled e
          slots.1,
    )
