-- ===== src/Identity/MailTests.antt =====
-- Mail templates, action links, and the SMTP transport with a server that accepts everything.
use user_service_platform.Prelude.{
  true, false, [], ◌∷◌, ◌++◌, none, some, ok, ◌≡◌, ◌≢◌, refl, arith,
}
use user_service_platform.Text.{Text, codes, text_eq, trim, split_on, includes, ascii_lower}
use user_service_platform.Json.{as_text}
use user_service_platform.Url.{Url}
use user_service_platform.Config.Profiles.{profile_of, sandbox}
use user_service_platform.Config.{EffectiveConfig, resolve_effective_config, overlay}
use user_service_platform.Smtp.Address.{matches_host, sanitize_helo, extract_envelope_address}
use user_service_platform.Smtp.Message.{Stamp, sanitize_header}
use user_service_platform.Smtp.Reply.{parse_complete_reply}
use user_service_platform.Smtp.Session.{Peer}
use user_service_platform.Smtp.Session
use user_service_platform.Smtp.Session.Replies.{accepting_peer}
use user_service_platform.Identity.Resend.{
  email_verification, parse_allowlist, is_allowlisted, recipient_domain,
}
use user_service_platform.Identity.Tokens.{digits_from}
use user_service_platform.Identity.ActionUrls.{
  UrlApi, verify_input, reset_input, build_auth_action_url,
}
use user_service_platform.Identity.ActionUrls.Laws.{Links, build_auth_action_url-Links}
use user_service_platform.Config.Profiles.{
  auth_verify_email_action_url, auth_reset_password_action_url,
}
use user_service_platform.Identity.SmtpTransport.{
  SmtpConfig, AuthMessage, sent, resolve_smtp_config, deliver,
}
use user_service_platform.Identity.SmtpTransport.Laws.{IsUsable, resolve_smtp_config-IsUsable}
use user_service_platform.Identity.SmtpTransport.Sent.{SentBy, deliver-SentBy}
use user_service_platform.Identity.Mailer.{MailerEnv, smtp, smtp_env, resolve_auth_mailer}
use user_service_platform.Identity.Mailer.Laws.{IsSelected, resolve_auth_mailer-IsSelected}

abbrev url_of : Text → Url
url_of origin = record {
  protocol = codes "https:";
  username = [];
  password = [];
  hostname = codes "app.example.com";
  pathname = codes "/";
  search = [];
  hash = [];
  origin = origin;
}

abbrev api : UrlApi
api = record {
  parse = λ value. some (url_of value);
  join = λ path base. record base { pathname = path };
  with_param = λ name value url.
      url.origin ++ (url.pathname ++ (codes "?" ++ (name ++ (codes "=" ++ value))));
}

abbrev effective : EffectiveConfig
effective = record { environment = sandbox; config = overlay (profile_of sandbox) (λ name. none) }

effective_test :
    resolve_effective_config ascii_lower api.parse (some (codes "sandbox")) (λ name. none)
    ≡ ok effective
unfolding resolve_effective_config codes text_eq trim ascii_lower as_text profile_of
effective_test = refl

token_filled : codes "tok" ≢ []
unfolding codes
token_filled = λ h. ground arith

build_auth_action_url-Links_example :
    ((link : Text) × (build_auth_action_url api
          (verify_input effective.config (codes "https://s") (codes "tok"))
        ≡ ok link)
      × Links api
          (verify_input effective.config (codes "https://s") (codes "tok"))
          (trim (effective.config auth_verify_email_action_url))
          link)
    × ((link : Text) × (build_auth_action_url api
            (reset_input effective.config (codes "https://s") (codes "tok"))
          ≡ ok link)
        × Links api
            (reset_input effective.config (codes "https://s") (codes "tok"))
            (trim (effective.config auth_reset_password_action_url))
            link)
build_auth_action_url-Links_example =
    build_auth_action_url-Links api ascii_lower (some (codes "sandbox")) (λ name. none) effective
      (url_of (codes "https://s")) (codes "https://s") (codes "tok") effective_test refl
      token_filled

abbrev mailer_settings : MailerEnv
mailer_settings = record {
  environment = some (codes "sandbox");
  auth_mail_transport = some (codes " SMTP ");
  resend_api_key = none;
  smtp_host = some (codes "smtp.example.com");
  smtp_port = some (codes "587");
  smtp_secure = some (codes "false");
  smtp_user = some (codes "u");
  smtp_password = some (codes "p");
  auth_mail_from = some (codes "a@b.co");
  auth_app_name = none;
  auth_mail_allowlist = some (codes "c@d.co");
}

abbrev smtp_config : SmtpConfig
smtp_config = record {
  host = codes "smtp.example.com";
  port = 587;
  secure = false;
  user = codes "u";
  pass = codes "p";
  from = codes "a@b.co";
  app_name = codes "User Service";
  sandbox_guard = true;
  allowlist = codes "c@d.co" ∷ [];
}

smtp_test : resolve_smtp_config ascii_lower (smtp_env mailer_settings) ≡ ok smtp_config
unfolding resolve_smtp_config codes text_eq trim ascii_lower split_on matches_host digits_from
    parse_allowlist
smtp_test = refl

resolve_smtp_config-IsUsable_example : IsUsable ascii_lower (smtp_env mailer_settings) smtp_config
resolve_smtp_config-IsUsable_example =
    resolve_smtp_config-IsUsable ascii_lower (smtp_env mailer_settings) smtp_config smtp_test

mailer_test : resolve_auth_mailer ascii_lower Unit mailer_settings none ≡ ok (smtp smtp_config)
unfolding resolve_auth_mailer resolve_smtp_config codes text_eq trim ascii_lower split_on
    matches_host digits_from parse_allowlist
mailer_test = refl

resolve_auth_mailer-IsSelected_example :
    IsSelected ascii_lower Unit mailer_settings (smtp smtp_config)
resolve_auth_mailer-IsSelected_example =
    resolve_auth_mailer-IsSelected ascii_lower Unit mailer_settings (smtp smtp_config) mailer_test

abbrev reply : Text → Text
reply line = line ++ (13 ∷ 10 ∷ [])

abbrev peer : Peer
peer = accepting_peer false (record {
  to_connection = reply (codes "220 ok") ∷ [];
  to_ehlo = reply (codes "250 STARTTLS") ∷ [];
  to_starttls = reply (codes "220 go") ∷ [];
  to_second_ehlo = reply (codes "250 ok") ∷ [];
  to_auth = reply (codes "334 u") ∷ [];
  to_username = reply (codes "334 p") ∷ [];
  to_password = reply (codes "235 ok") ∷ [];
  to_mail_from = reply (codes "250 ok") ∷ [];
  to_rcpt_to = reply (codes "250 ok") ∷ [];
  to_data = reply (codes "354 go") ∷ [];
  to_message = reply (codes "250 ok") ∷ [];
  to_quit = reply (codes "221 bye") ∷ [];
})

abbrev message : AuthMessage
message = record {
  purpose = email_verification;
  to = codes "c@d.co";
  url = codes "https://s/?token=tok";
}

abbrev stamp : Stamp
stamp = record { boundary_uuid = codes "1"; message_uuid = codes "2"; date = codes "Thu" }

sent_test :
    (deliver ascii_lower smtp_config message stamp (some peer)).0
    ≡ some (sent email_verification (codes "d.co"))
unfolding deliver is_allowlisted ascii_lower trim codes includes text_eq Session.deliver
    sanitize_helo sanitize_header parse_complete_reply extract_envelope_address recipient_domain
    split_on
sent_test = refl

deliver-SentBy_example :
    SentBy smtp_config message stamp
      (codes "user-service.local")
      (deliver ascii_lower smtp_config message stamp (some peer)).1
deliver-SentBy_example =
    deliver-SentBy ascii_lower smtp_config message stamp (some peer) email_verification
      (codes "d.co") sent_test
