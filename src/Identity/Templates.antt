-- ===== src/Identity/Templates.antt =====
-- mail-templates.ts: the two messages that are sent, with the deployment's name and the action URL.
pub mod Laws
use user_service_platform.Prelude.{ℕ, List, [], ◌∷◌, ◌++◌, ◌==◌, if◌then◌else◌}
use user_service_platform.Text.{Text, codes}

-- `AuthMailTemplate`.
pub record Template : Type 0 where
  pub subject : Text
  pub html : Text
  pub text : Text

-- `s.replace(/c/g, by)` for one code unit.
unfoldable pub replace_unit : ℕ → Text → Text → Text
replace_unit c by [] = []
replace_unit c by (x ∷ s) =
    let rest = replace_unit c by s in if x == c then by ++ rest else x ∷ rest

unfoldable pub escape_html : Text → Text
unfolding replace_unit
escape_html value = replace_unit b'"' (codes "&quot;") (
    replace_unit b'>' (codes "&gt;")
      (replace_unit b'<' (codes "&lt;") (replace_unit b'&' (codes "&amp;") value)))

-- Two line feeds.
abbrev blank_line : Text
blank_line = 10 ∷ 10 ∷ []

unfoldable pub render_verification_email : Text → Text → Template
unfolding escape_html
render_verification_email app_name url = record {
  subject = codes "Verify your " ++ (app_name ++ codes " email");
  text =
      codes "Welcome to "
      ++ (app_name
          ++ (codes ". Verify your email address by opening this link:"
              ++ (blank_line
                  ++ (url
                      ++ (blank_line
                          ++ codes
                              "If you did not create an account, you can ignore this message.")))));
  html =
      codes "<p>Welcome to "
      ++ (escape_html app_name
          ++ (codes ". Verify your email address:</p>"
              ++ (codes "<p><a href=\""
                  ++ (escape_html url
                      ++ (codes "\">Verify email address</a></p>"
                          ++ codes
                              "<p>If you did not create an account, you can ignore this message.</p>")))));
}

unfoldable pub render_password_reset_email : Text → Text → Template
unfolding escape_html
render_password_reset_email app_name url = record {
  subject = codes "Reset your " ++ (app_name ++ codes " password");
  text =
      codes "You requested a password reset for "
      ++ (app_name
          ++ (codes ". Open this link to choose a new password:"
              ++ (blank_line
                  ++ (url
                      ++ (blank_line
                          ++ codes
                              "If you did not request a reset, you can ignore this message.")))));
  html =
      codes "<p>You requested a password reset for "
      ++ (escape_html app_name
          ++ (codes ":</p>"
              ++ (codes "<p><a href=\""
                  ++ (escape_html url
                      ++ (codes "\">Choose a new password</a></p>"
                          ++ codes
                              "<p>If you did not request a reset, you can ignore this message.</p>")))));
}
