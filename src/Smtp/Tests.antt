-- ===== src/Smtp/Tests.antt =====
-- Runs of the submission client of smtp-client.ts, and its theorems at these inputs.
use user_service_platform.Prelude.{
  All, Bool, List, [], all, any, append-nil, arith, false, none, not, ok, refl, some, true, ℕ, ◌&&◌,
  ◌*◌, ◌++◌, ◌+◌, ◌-◌, ◌==◌, ◌∷◌, ◌≡◌,
}
use user_service_platform.Text.{Text, codes, trim}
use user_service_platform.Smtp.{Config, Envelope, from_field, to_field}
use user_service_platform.Smtp.Message.{
  Stamp, normalize_crlf, message_with, build_multipart_message, sanitize_header,
}
use user_service_platform.Smtp.Message.Receive.{receive}
use user_service_platform.Smtp.Message.Headers.{IsStamp}
use user_service_platform.Smtp.Message.Whole.{receive-build_multipart_message}
use user_service_platform.Smtp.Address.{sanitize_helo, extract_envelope_address}
use user_service_platform.Smtp.Reply.{parse_complete_reply, is_digit}
use user_service_platform.Smtp.Session.{Peer, deliver, done}
use user_service_platform.Smtp.Session.Transcript.{transcript}
use user_service_platform.Smtp.Session.Delivery.{
  log_of, IsPartOf, IsConfidential, deliver-transcript, deliver-IsConfidential,
}
use user_service_platform.Smtp.Session.OneLine.{IsOneLine, deliver-IsOneLine}
use user_service_platform.Smtp.Session.Closing.{IsReleased, deliver-IsReleased}
use user_service_platform.Smtp.Session.Accepted.{IsReply, join}
use user_service_platform.Smtp.Reply.Chunks.{IsPlain, final, continued}
use user_service_platform.Smtp.Session.Replies.{
  Replies, IsAccepting, accepting_peer, deliver_accepted,
}

abbrev config : Config
config = record {
  host = codes "smtp.example.com";
  port = 587;
  secure = false;
  user = codes "u";
  pass = codes "p";
}

abbrev envelope : Envelope
envelope = record {
  from = codes "Shop <a@b.co>";
  to = codes "c@d.co";
  subject = codes "Hi";
  text = codes ".";
  html = codes "<p>Hi</p>";
}

abbrev stamp : Stamp
stamp = record { boundary_uuid = codes "1"; message_uuid = codes "2"; date = codes "Thu" }

stamp-IsStamp : IsStamp stamp
unfolding codes
stamp-IsStamp = record {
  boundary_inline = (ground arith, tt);
  message_inline = (ground arith, tt);
  date_inline = (ground arith, (ground arith, (ground arith, tt)));
}

abbrev crlf : Text
crlf = 13 ∷ 10 ∷ []

abbrev replies : Replies
replies = record {
  to_connection = (codes "220 ok" ++ crlf) ∷ [];
  to_ehlo =
      codes "250-s"
      ∷ (codes "mtp" ++ crlf)
      ∷ (codes "250 STARTTLS" ++ (b'\r' ∷ []))
      ∷ (b'\n' ∷ [])
      ∷ [];
  to_starttls = (codes "220 go" ++ crlf) ∷ [];
  to_second_ehlo = (codes "250 ok" ++ crlf) ∷ [];
  to_auth = (codes "334 u" ++ crlf) ∷ [];
  to_username = (codes "334 p" ++ crlf) ∷ [];
  to_password = (codes "235 ok" ++ crlf) ∷ [];
  to_mail_from = (codes "250 ok" ++ crlf) ∷ [];
  to_rcpt_to = (codes "251 ok" ++ crlf) ∷ [];
  to_data = (codes "354 go" ++ crlf) ∷ [];
  to_message = (codes "250 ok" ++ crlf) ∷ [];
  to_quit = (codes "221 bye" ++ crlf) ∷ [];
}

multiline_reply :
    parse_complete_reply (codes "250-smtp" ++ (crlf ++ (codes "250 STARTTLS" ++ crlf))) ≡ some 250
unfolding parse_complete_reply codes
multiline_reply = refl

unfinished_reply : parse_complete_reply (codes "250-smtp" ++ crlf) ≡ none
unfolding parse_complete_reply codes
unfinished_reply = refl

helo_test : sanitize_helo (codes "user-service.local") ≡ ok (codes "user-service.local")
unfolding sanitize_helo codes sanitize_header trim
helo_test = refl

from_test : extract_envelope_address (codes "Shop <a@b.co>") from_field ≡ ok (codes "a@b.co")
unfolding extract_envelope_address codes trim
from_test = refl

to_test : extract_envelope_address (codes "c@d.co") to_field ≡ ok (codes "c@d.co")
unfolding extract_envelope_address codes trim
to_test = refl

abbrev is_plain : ℕ → Bool
is_plain c = not (c == 13) && not (c == 10)

unbroken_unit : (c : ℕ) → is_plain c ≡ true → IsPlain c
unbroken_unit c h = (λ e. ground arith, λ e. ground arith)

both : (a b : Bool) → a && b ≡ true → (a ≡ true) × (b ≡ true)
both true b h = (refl, h)
both false b h = ground arith

unbroken : (s : Text) → all is_plain s ≡ true → All IsPlain s
unbroken [] h = tt
unbroken (c ∷ s) h = (unbroken_unit c (both _ _ h).0, unbroken s (both _ _ h).1)

-- A reply of one line, in one chunk.
one_line :
    (expected : List ℕ) (a b c : ℕ) (text : Text)
    → is_digit a && is_digit b && is_digit c ≡ true
    → all is_plain (a ∷ b ∷ c ∷ text) ≡ true
    → any (λ n. n == (a - 48) * 100 + (b - 48) * 10 + (c - 48)) expected ≡ true
    → IsReply expected (((a ∷ b ∷ c ∷ b' ' ∷ text) ++ crlf) ∷ [])
unfolding join
one_line expected a b c text digits plain is_expected = record {
  code = (a - 48) * 100 + (b - 48) * 10 + (c - 48);
  text = (a ∷ b ∷ c ∷ b' ' ∷ text) ++ crlf;
  in_grammar =
      final a b c text (record { digits = digits; plain = unbroken (a ∷ b ∷ c ∷ text) plain }) refl;
  is_expected = is_expected;
  joined = append-nil _;
  filled = (λ e. cc, tt);
}

-- Two lines in four chunks, which break within a line and within its end.
two_lines : IsReply (250 ∷ []) replies.to_ehlo
unfolding codes join
two_lines = record {
  code = 250;
  text = codes "250-smtp" ++ (crlf ++ (codes "250 STARTTLS" ++ crlf));
  in_grammar =
      continued 50 53 48 (codes "smtp") (codes "250 STARTTLS" ++ crlf)
        (record { digits = refl; plain = unbroken (codes "250smtp") refl })
        (final 50 53 48 (codes "STARTTLS")
          (record { digits = refl; plain = unbroken (codes "250STARTTLS") refl }) refl);
  is_expected = refl;
  joined = refl;
  filled = (λ e. cc, (λ e. cc, (λ e. cc, (λ e. cc, tt))));
}

replies-IsAccepting : IsAccepting replies
unfolding codes
replies-IsAccepting = record {
  connection = one_line _ 50 50 48 (codes "ok") refl refl refl;
  ehlo = two_lines;
  starttls = one_line _ 50 50 48 (codes "go") refl refl refl;
  second_ehlo = one_line _ 50 53 48 (codes "ok") refl refl refl;
  auth = one_line _ 51 51 52 (codes "u") refl refl refl;
  username = one_line _ 51 51 52 (codes "p") refl refl refl;
  password = one_line _ 50 51 53 (codes "ok") refl refl refl;
  mail_from = one_line _ 50 53 48 (codes "ok") refl refl refl;
  rcpt_to = one_line _ 50 53 49 (codes "ok") refl refl refl;
  data_command = one_line _ 51 53 52 (codes "go") refl refl refl;
  message = one_line _ 50 53 48 (codes "ok") refl refl refl;
  quit = one_line _ 50 50 49 (codes "bye") refl refl refl;
}

abbrev peer : Peer
peer = accepting_peer false replies

deliver-transcript_example :
    IsPartOf
      (log_of (deliver config envelope none stamp (some peer)))
      (deliver config envelope none stamp (some peer)).0
      (transcript config envelope (codes "user-service.local") stamp)
deliver-transcript_example =
    deliver-transcript config envelope none stamp (some peer) (codes "user-service.local") helo_test

deliver-IsConfidential_example :
    All IsConfidential (log_of (deliver config envelope none stamp (some peer)))
deliver-IsConfidential_example = deliver-IsConfidential config envelope none stamp (some peer)

deliver-IsOneLine_example : All IsOneLine (log_of (deliver config envelope none stamp (some peer)))
deliver-IsOneLine_example = deliver-IsOneLine config envelope none stamp (some peer)

deliver-IsReleased_example : IsReleased (deliver config envelope none stamp (some peer))
deliver-IsReleased_example = deliver-IsReleased config envelope none stamp (some peer)

deliver_accepted_example : (deliver config envelope none stamp (some peer)).0 ≡ done tt
deliver_accepted_example =
    deliver_accepted config envelope none stamp replies (codes "user-service.local")
      (codes "a@b.co") (codes "c@d.co") replies-IsAccepting helo_test from_test to_test

receive-build_multipart_message_example :
    receive (build_multipart_message envelope (codes "h") stamp ++ (b'.' ∷ 13 ∷ 10 ∷ codes "QUIT"))
    ≡ some (message_with normalize_crlf envelope (codes "h") stamp, codes "QUIT")
receive-build_multipart_message_example =
    receive-build_multipart_message envelope (codes "h") stamp (codes "QUIT") stamp-IsStamp
