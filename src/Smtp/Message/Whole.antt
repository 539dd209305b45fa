-- ===== src/Smtp/Message/Whole.antt =====
-- The message as a whole: it is the stuffed form of the same message with plain bodies.
use user_service_platform.Prelude.{
  ◌≡◌, refl, ◌∙◌, ap, sym, List, [], ◌∷◌, ◌++◌, All, All-append, append_assoc, some,
}
use user_service_platform.Text.{Text, codes}
use user_service_platform.Smtp.{Envelope}
use user_service_platform.Smtp.Encoding.{IsInline}
use user_service_platform.Smtp.Message.{
  at_start, stuff_from, dot_stuff, normalize_crlf, crlf, join_crlf, Stamp, boundary_of, headers_of,
  part_headers, part_of, message_with, build_multipart_message,
}
use user_service_platform.Smtp.Message.Receive.{receive, receive-stuff_from}
use user_service_platform.Smtp.Message.Stuffing.{
  IsLine, stuff_from-crlf, stuff_from_block, stuff_from_line_block, stuff_from_lines, append-Closes,
  crlf-Closes, Closes,
}
use user_service_platform.Smtp.Message.Headers.{
  IsStamp, IsLine-append, fixed-IsLine, opens_line, inline_test, inline_test_sound,
  boundary-IsInline, headers_of-IsLine,
}

-- Lines with a body behind them, and a line break.
stuff_from_part :
    (lines : List Text) (body y : Text)
    → All IsLine lines
    → stuff_from at_start (join_crlf (lines ++ (body ∷ [])) ++ (crlf ++ y))
      ≡ join_crlf (lines ++ (stuff_from at_start body ∷ [])) ++ (crlf ++ stuff_from at_start y)
stuff_from_part [] body y h = stuff_from_block body y
stuff_from_part (line ∷ []) body y (h, _) =
    ap (stuff_from at_start) (append_assoc line (crlf ++ body) (crlf ++ y))
    ∙ stuff_from_line_block line (body ++ (crlf ++ y)) h
    ∙ ap (λ r. line ++ (crlf ++ r)) (stuff_from_block body y)
    ∙ sym (append_assoc line (crlf ++ stuff_from at_start body) (crlf ++ stuff_from at_start y))
stuff_from_part (line ∷ next ∷ lines) body y (h, hs) =
    let before = join_crlf (next ∷ (lines ++ (body ∷ []))) in
    let after = join_crlf (next ∷ (lines ++ (stuff_from at_start body ∷ []))) in
    ap (stuff_from at_start) (append_assoc line (crlf ++ before) (crlf ++ y))
    ∙ stuff_from_line_block line (before ++ (crlf ++ y)) h
    ∙ ap (λ r. line ++ (crlf ++ r)) (stuff_from_part (next ∷ lines) body y hs)
    ∙ sym (append_assoc line (crlf ++ after) (crlf ++ stuff_from at_start y))

module _ (stamp : Stamp) (v : IsStamp stamp) where
  part_lines :
      (content_type : Text)
      → All IsInline content_type
      → All IsLine (part_headers (boundary_of stamp) content_type)
  unfolding codes opens_line inline_test
  part_lines content_type h =
      let charset = inline_test_sound (codes "; charset=UTF-8") refl in
      let content =
        IsLine-append (codes "Content-Type: ") (content_type ++ codes "; charset=UTF-8") refl
          (All-append IsInline content_type (codes "; charset=UTF-8") h charset) in
      let opening =
        IsLine-append (codes "--") (boundary_of stamp) refl (boundary-IsInline stamp v) in
      let encoding = fixed-IsLine (codes "Content-Transfer-Encoding: 8bit") refl in
      (opening, (content, (encoding, ((tt, tt), tt))))

  stuff_from-part_of :
      (content_type body y : Text)
      → All IsInline content_type
      → stuff_from at_start (part_of (boundary_of stamp) content_type body ++ (crlf ++ y))
        ≡ part_of (boundary_of stamp) content_type (stuff_from at_start body)
          ++ (crlf ++ stuff_from at_start y)
  stuff_from-part_of content_type body y h =
      stuff_from_part (part_headers (boundary_of stamp) content_type) body y
        (part_lines content_type h)

  closing_line :
      stuff_from at_start (codes "--" ++ (boundary_of stamp ++ (codes "--" ++ crlf)))
      ≡ codes "--" ++ (boundary_of stamp ++ (codes "--" ++ crlf))
  unfolding codes opens_line inline_test stuff_from
  closing_line =
      let b = boundary_of stamp in
      let last = codes "--" ++ (b ++ codes "--") in
      let same : last ++ (crlf ++ []) ≡ codes "--" ++ (b ++ (codes "--" ++ crlf)) =
        append_assoc (codes "--") (b ++ codes "--") crlf
        ∙ ap (λ r. codes "--" ++ r) (append_assoc b (codes "--") crlf) in
      let inline =
        All-append IsInline b (codes "--") (boundary-IsInline stamp v)
          (inline_test_sound (codes "--") refl) in
      ap (stuff_from at_start) (sym same)
      ∙ stuff_from_line_block last [] (IsLine-append (codes "--") (b ++ codes "--") refl inline)
      ∙ same

  text_plain-IsInline : All IsInline (codes "text/plain")
  unfolding codes inline_test
  text_plain-IsInline = inline_test_sound (codes "text/plain") refl

  text_html-IsInline : All IsInline (codes "text/html")
  unfolding codes inline_test
  text_html-IsInline = inline_test_sound (codes "text/html") refl

  stuff_from_headers :
      (envelope : Envelope) (host y : Text)
      → stuff_from at_start (join_crlf (headers_of envelope host stamp) ++ (crlf ++ y))
        ≡ join_crlf (headers_of envelope host stamp) ++ (crlf ++ stuff_from at_start y)
  unfolding headers_of
  stuff_from_headers envelope host y =
      stuff_from_lines (headers_of envelope host stamp) y tt
        (headers_of-IsLine stamp v envelope host)

  build-stuff_from :
      (envelope : Envelope) (host : Text)
      → build_multipart_message envelope host stamp
        ≡ stuff_from at_start (message_with normalize_crlf envelope host stamp)
  unfolding build_multipart_message message_with dot_stuff
  build-stuff_from envelope host =
      let b = boundary_of stamp in
      let closing = codes "--" ++ (b ++ (codes "--" ++ crlf)) in
      let text = normalize_crlf envelope.text in
      let html = normalize_crlf envelope.html in
      let second = part_of b (codes "text/html") html ++ (crlf ++ closing) in
      let first = part_of b (codes "text/plain") text ++ (crlf ++ second) in
      let headers = join_crlf (headers_of envelope host stamp) in
      let first_part = part_of b (codes "text/plain") (stuff_from at_start text) in
      let second_part = part_of b (codes "text/html") (stuff_from at_start html) in
      let step_second =
        stuff_from-part_of (codes "text/html") html closing text_html-IsInline
        ∙ ap (λ (r : Text). second_part ++ (crlf ++ r)) closing_line in
      let step_first =
        stuff_from-part_of (codes "text/plain") text second text_plain-IsInline
        ∙ ap (λ (r : Text). first_part ++ (crlf ++ r)) step_second in
      let step_empty = stuff_from-crlf at_start first ∙ ap (λ (r : Text). crlf ++ r) step_first in
      sym (
        stuff_from_headers envelope host (crlf ++ first)
        ∙ ap (λ (r : Text). headers ++ (crlf ++ r)) step_empty)

  message-Closes :
      (envelope : Envelope) (host : Text) → Closes (message_with normalize_crlf envelope host stamp)
  unfolding message_with
  message-Closes envelope host =
      let b = boundary_of stamp in
      append-Closes (join_crlf (headers_of envelope host stamp)) _ (
        append-Closes crlf _ (
          append-Closes crlf _ (
            append-Closes (part_of b (codes "text/plain") (normalize_crlf envelope.text)) _ (
              append-Closes crlf _ (
                append-Closes (part_of b (codes "text/html") (normalize_crlf envelope.html)) _ (
                  append-Closes crlf _ (
                    append-Closes (codes "--") _
                      (append-Closes b _ (append-Closes (codes "--") crlf crlf-Closes)))))))))

-- What writeData sends of a message, whose random identifiers and date hold no line break, is
-- received as exactly that message, with its bodies in CRLF form and not stuffed, and what follows
-- on the connection is left.
pub receive-build_multipart_message :
    (envelope : Envelope) (host : Text) (stamp : Stamp) (rest : Text)
    → IsStamp stamp
    → receive (build_multipart_message envelope host stamp ++ (b'.' ∷ 13 ∷ 10 ∷ rest))
      ≡ some (message_with normalize_crlf envelope host stamp, rest)
receive-build_multipart_message envelope host stamp rest v =
    ap (λ r. receive (r ++ (b'.' ∷ 13 ∷ 10 ∷ rest))) (build-stuff_from stamp v envelope host)
    ∙ receive-stuff_from (message_with normalize_crlf envelope host stamp) rest
        (message-Closes stamp v envelope host at_start)
