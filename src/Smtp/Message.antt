-- ===== src/Smtp/Message.antt =====
-- The message that smtp-client.ts sends: `sanitizeHeader`, `encodeSubject`, `normalizeCrlf`,
-- `dotStuff` and `buildMultipartMessage`. The random identifiers and the date are arguments.
pub mod Lines
pub mod Receive
pub mod Stuffing
pub mod Headers
pub mod Whole
use user_service_platform.Prelude.{
  ℕ, Bool, true, false, ◌&&◌, ◌||◌, List, [], ◌∷◌, ◌++◌, map, leb, ◌==◌, if◌then◌else◌, all,
}
use user_service_platform.Text.{Text, codes, trim}
use user_service_platform.Smtp.{Envelope}
use user_service_platform.Smtp.Encoding.{to_base64_utf8}

abbrev pub is_break : ℕ → Bool
is_break c = c == 13 || c == 10

-- `value.replace(/[\r\n]+/g, ' ')`; the flag says whether a run of breaks has been replaced.
unfoldable pub collapse_breaks : Bool → Text → Text
collapse_breaks in_run [] = []
collapse_breaks in_run (c ∷ s) =
    let rest = collapse_breaks (is_break c) s in
    if is_break c then if in_run then rest else 32 ∷ rest else c ∷ rest

unfoldable pub sanitize_header : Text → Text
unfolding collapse_breaks
sanitize_header value = trim (collapse_breaks false value)

unfoldable pub encode_subject : Text → Text
encode_subject subject =
    let cleaned = sanitize_header subject in
    if all (λ c. leb 0x20 c && leb c 0x7e) cleaned
    then cleaned
    else codes "=?UTF-8?B?" ++ (to_base64_utf8 cleaned ++ codes "?=")

-- `.replace(/\r\n/g, '\n')`; the flag says whether the last code unit was a `\r`, not yet written.
unfoldable pub crlf_to_lf : Bool → Text → Text
crlf_to_lf held [] = if held then 13 ∷ [] else []
crlf_to_lf held (c ∷ s) =
    let rest = crlf_to_lf (c == 13) s in
    if held
    then if c == 10 then 10 ∷ rest else if c == 13 then 13 ∷ rest else 13 ∷ c ∷ rest
    else if c == 13
    then rest
    else c ∷ rest

-- `.replace(/\r/g, '\n')`
unfoldable pub cr_to_lf : Text → Text
cr_to_lf s = map (λ c. if c == 13 then 10 else c) s

-- `.replace(/\n/g, '\r\n')`
unfoldable pub lf_to_crlf : Text → Text
lf_to_crlf [] = []
lf_to_crlf (c ∷ s) = let rest = lf_to_crlf s in if c == 10 then 13 ∷ 10 ∷ rest else c ∷ rest

unfoldable pub normalize_crlf : Text → Text
unfolding crlf_to_lf cr_to_lf lf_to_crlf
normalize_crlf value = lf_to_crlf (cr_to_lf (crlf_to_lf false value))

-- Where a scan from the left stands: inside a line, behind a `\r`, or at the start of a line.
pub data Place : Type 0 where
  inside behind_cr at_start : Place

unfoldable pub advance : Place → ℕ → Place
advance inside c = if c == 13 then behind_cr else inside
advance behind_cr c = if c == 13 then behind_cr else if c == 10 then at_start else inside
advance at_start c = if c == 13 then behind_cr else inside

abbrev pub is_start : Place → Bool
is_start at_start = true
is_start _ = false

-- `value.replace(/(^|\r\n)\./g, '$1..')` from a place on.
unfoldable pub stuff_from : Place → Text → Text
stuff_from place [] = []
stuff_from place (c ∷ s) =
    let rest = stuff_from (advance place c) s in
    if is_start place && c == b'.' then b'.' ∷ b'.' ∷ rest else c ∷ rest

unfoldable pub dot_stuff : Text → Text
unfolding stuff_from advance
dot_stuff value = stuff_from at_start value

abbrev pub crlf : Text
crlf = 13 ∷ 10 ∷ []

-- `parts.join('\r\n')`
abbrev pub join_crlf : List Text → Text
join_crlf [] = []
join_crlf (part ∷ []) = part
join_crlf (part ∷ next ∷ parts) = part ++ (crlf ++ join_crlf (next ∷ parts))

-- What the message takes from outside: `crypto.randomUUID()` twice and the current date.
pub record Stamp : Type 0 where
  pub boundary_uuid : Text
  pub message_uuid : Text
  pub date : Text

unfoldable pub boundary_of : Stamp → Text
boundary_of stamp = codes "user-service-" ++ stamp.boundary_uuid

unfoldable pub headers_of : Envelope → Text → Stamp → List Text
unfolding boundary_of
headers_of envelope host stamp =
    (codes "From: " ++ sanitize_header envelope.from)
    ∷ (codes "To: " ++ sanitize_header envelope.to)
    ∷ (codes "Subject: " ++ encode_subject envelope.subject)
    ∷ (codes "Date: " ++ stamp.date)
    ∷ (codes "Message-ID: <"
        ++ (stamp.message_uuid ++ (codes "@" ++ (sanitize_header host ++ codes ">"))))
    ∷ codes "MIME-Version: 1.0"
    ∷ (codes "Content-Type: multipart/alternative; boundary=\""
        ++ (boundary_of stamp ++ codes "\""))
    ∷ []

abbrev pub part_headers : Text → Text → List Text
part_headers boundary content_type =
    (codes "--" ++ boundary)
    ∷ (codes "Content-Type: " ++ (content_type ++ codes "; charset=UTF-8"))
    ∷ codes "Content-Transfer-Encoding: 8bit"
    ∷ []
    ∷ []

-- `textPart` and `htmlPart`: the part's headers, an empty line and the body.
abbrev pub part_of : Text → Text → Text → Text
part_of boundary content_type body = join_crlf (part_headers boundary content_type ++ (body ∷ []))

-- The message with the bodies passed through `encode`; the code's is `dot_stuff` after
-- `normalize_crlf`.
unfoldable pub message_with : (Text → Text) → Envelope → Text → Stamp → Text
unfolding headers_of
message_with encode envelope host stamp =
    let boundary = boundary_of stamp in
    join_crlf (headers_of envelope host stamp)
    ++ (crlf
        ++ (crlf
            ++ (part_of boundary (codes "text/plain") (encode envelope.text)
                ++ (crlf
                    ++ (part_of boundary (codes "text/html") (encode envelope.html)
                        ++ (crlf ++ (codes "--" ++ (boundary ++ (codes "--" ++ crlf)))))))))

unfoldable pub build_multipart_message : Envelope → Text → Stamp → Text
unfolding message_with
build_multipart_message = message_with (λ body. dot_stuff (normalize_crlf body))
