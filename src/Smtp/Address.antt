-- ===== src/Smtp/Address.antt =====
-- `sanitizeHelo` and `extractEnvelopeAddress` of smtp-client.ts, and the host pattern that
-- smtp-transport.ts shares in shape.
pub mod Laws
use user_service_platform.Prelude.{
  ℕ, Bool, true, false, not, ◌&&◌, ◌||◌, List, [], ◌∷◌, ◌++◌, leb, ◌==◌, if◌then◌else◌, all, length,
  Option, none, some, get_or, Result, ok, err,
}
use user_service_platform.Text.{Text, is_empty, is_space, trim}
use user_service_platform.Smtp.{
  DeliveryError, delivery_error, ehlo, envelope, invalid_hostname, invalid_address, with_cause,
  Field,
}
use user_service_platform.Smtp.Message.{sanitize_header}

unfoldable pub is_alnum : ℕ → Bool
is_alnum c = (leb b'A' c && leb c b'Z') || (leb b'a' c && leb c b'z') || (leb b'0' c && leb c b'9')

unfoldable pub is_host_char : ℕ → Bool
unfolding is_alnum
is_host_char c = is_alnum c || c == b'.' || c == b'-'

abbrev ends_with : (ℕ → Bool) → Text → Bool
ends_with p [] = false
ends_with p (c ∷ []) = p c
ends_with p (c ∷ d ∷ s) = ends_with p (d ∷ s)

-- /^[A-Za-z0-9](?:[A-Za-z0-9.-]{0,most}[A-Za-z0-9])?$/
unfoldable pub matches_host : ℕ → Text → Bool
unfolding is_alnum is_host_char
matches_host most [] = false
matches_host most (c ∷ []) = is_alnum c
matches_host most (c ∷ d ∷ s) =
    is_alnum c && all is_host_char (d ∷ s) && ends_with is_alnum (d ∷ s) && leb (length s) most

unfoldable pub sanitize_helo : Text → Result DeliveryError Text
unfolding matches_host delivery_error
sanitize_helo value =
    let cleaned = sanitize_header value in
    if matches_host 253 cleaned
    then ok cleaned
    else err (delivery_error ehlo (with_cause invalid_hostname))

-- [^<>\s@]
unfoldable pub is_plain : ℕ → Bool
is_plain c = not (c == b'<' || c == b'>' || is_space c || c == b'@')

unfoldable pub span_plain : Text → Text × Text
unfolding is_plain
span_plain [] = ([], [])
span_plain (c ∷ s) =
    let (run, rest) = span_plain s in if is_plain c then (c ∷ run, rest) else ([], c ∷ s)

abbrev closed_by : Text → Text × Text → Option Text
closed_by local ([], _) = none
closed_by local (c ∷ domain, []) = none
closed_by local (c ∷ domain, e ∷ _) =
    if e == b'>' then some (local ++ (b'@' ∷ c ∷ domain)) else none

abbrev at_domain : Text × Text → Option Text
at_domain ([], _) = none
at_domain (c ∷ local, []) = none
at_domain (c ∷ local, e ∷ rest) =
    if e == b'@' then closed_by (c ∷ local) (span_plain rest) else none

abbrev or_else : Option Text → Option Text → Option Text
or_else none later = later
or_else (some a) later = some a

-- The first group of the first match of /<([^<>\s@]+@[^<>\s@]+)>/, by scanning from the left. No
-- class of the pattern holds a delimiter, so each attempt is decided by maximal runs.
unfoldable pub angled : Text → Option Text
unfolding span_plain
angled [] = none
angled (c ∷ s) =
    let later = angled s in if c == b'<' then or_else (at_domain (span_plain s)) later else later

-- A dot with a character behind it.
abbrev dot_then : Text → Bool
dot_then [] = false
dot_then (c ∷ []) = false
dot_then (c ∷ d ∷ s) = c == b'.' || dot_then (d ∷ s)

abbrev is_domain : Text → Bool
is_domain [] = false
is_domain (c ∷ s) = all is_plain (c ∷ s) && dot_then s

abbrev is_address_of : Text × Text → Bool
is_address_of ([], _) = false
is_address_of (c ∷ local, []) = false
is_address_of (c ∷ local, e ∷ domain) = e == b'@' && is_domain domain

-- /^[^<>\s@]+@[^<>\s@]+\.[^<>\s@]+$/
unfoldable pub is_address : Text → Bool
unfolding span_plain
is_address s = is_address_of (span_plain s)

unfoldable pub extract_envelope_address : Text → Field → Result DeliveryError Text
unfolding angled is_address delivery_error
extract_envelope_address value field =
    let address = trim (get_or (angled value) value) in
    if is_address address
    then ok address
    else err (
        delivery_error envelope
          (record { reply_code = none; cause = some invalid_address; field = some field }))
