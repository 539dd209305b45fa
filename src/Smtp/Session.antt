-- ===== src/Smtp/Session.antt =====
-- The protocol session of smtp-client.ts, `SmtpProtocolSession`, and `deliverViaWorkersSmtp`. A
-- method is a function from the session's state to its outcome and the new state. What the runtime
-- and the server do is given in advance: what each read yields, which writes succeed and whether
-- the upgrade does. A promise that these events do not settle is `pending`.
pub mod Follows
pub mod Transcript
pub mod Delivery
pub mod Usable
pub mod OneLine
pub mod Closing
pub mod Accepted
pub mod Replies
use user_service_platform.Prelude.{
  ℕ, Bool, true, false, ◌||◌, List, [], ◌∷◌, ◌++◌, Option, none, some, Result, ok, err, ◌==◌, any,
  get_or,
}
use user_service_platform.Text.{Text, codes}
use user_service_platform.Smtp.{
  Config, Envelope, Phase, connect, greeting, ehlo, starttls, auth, username, password, mail_from,
  rcpt_to, command_data, message, quit, connection_closed, from_field, to_field, no_options,
  with_code, with_cause, DeliveryError, delivery_error,
}
use user_service_platform.Smtp.Encoding.{to_base64_utf8}
use user_service_platform.Smtp.Address.{sanitize_helo, extract_envelope_address}
use user_service_platform.Smtp.Message.{crlf, Stamp, build_multipart_message}
use user_service_platform.Smtp.Reply.{parse_complete_reply}

-- What a read of the socket yields: a chunk, as the streaming decoder reads it, the end of the
-- stream, or a failure.
pub data Read : Type 0 where
  chunk : Text → Read
  ended broken : Read

-- What was handed to the socket's writer, and whether the channel was TLS then.
pub record Sent : Type 0 where
  pub secure : Bool
  pub phase : Phase
  pub payload : Text

pub record Session : Type 0 where
  pub tls : Bool
  pub inbox : List Read
  pub writes : List Bool
  pub upgradable : Bool
  pub buffer : Text
  pub log : List Sent
  pub closed : Bool

pub data Outcome {ℓ} (A : Type ℓ) : Type ℓ where
  done : A → Outcome A
  thrown : DeliveryError → Outcome A
  pending : Outcome A

abbrev pub M : Type 0 → Type 0
M A = Session → Outcome A × Session

abbrev pub and_then : {A B : Type 0} → (A → M B) → Outcome A × Session → Outcome B × Session
and_then f (done a, s) = f a s
and_then f (thrown e, s) = (thrown e, s)
and_then f (pending, s) = (pending, s)

infixl 5 ◌>>=◌ ◌>>◌
abbrev pub ◌>>=◌ : {A B : Type 0} → M A → (A → M B) → M B
◌>>=◌ m f s = and_then f (m s)

abbrev pub ◌>>◌ : {B : Type 0} → M (Unit {0}) → M B → M B
◌>>◌ m k = m >>= λ _. k

abbrev pub lift : {A : Type 0} → Result DeliveryError A → M A
lift (ok a) s = (done a, s)
lift (err e) s = (thrown e, s)

-- The loop of `readReply`: the outcome, what is left to read, and the buffer.
unfoldable pub read_loop : Phase → List ℕ → List Read → Text → Outcome (Unit {0}) × List Read × Text
read_loop phase expected [] buffer = (pending, [], buffer)
read_loop phase expected (broken ∷ rest) buffer =
    (thrown (delivery_error phase no_options), rest, buffer)
read_loop phase expected (ended ∷ rest) buffer =
    (thrown (delivery_error phase (with_cause connection_closed)), rest, buffer)
read_loop phase expected (chunk t ∷ rest) buffer = elim (parse_complete_reply (buffer ++ t)) [
  | none ↦ read_loop phase expected rest (buffer ++ t)
  | some code ↦ elim (any (λ n. n == code) expected) [
    | true ↦ (done tt, rest, [])
    | false ↦ (thrown (delivery_error phase (with_code code)), rest, [])
  ]
]

abbrev pub after_read :
    Session → Outcome (Unit {0}) × List Read × Text → Outcome (Unit {0}) × Session
after_read s (outcome, rest, buffer) = (outcome, record s { inbox = rest; buffer = buffer })

unfoldable pub read_reply : Phase → List ℕ → M (Unit {0})
unfolding read_loop
read_reply phase expected s = after_read s (read_loop phase expected s.inbox s.buffer)

-- `writer.write`, with a failure typed by the phase.
abbrev pub write_with : Phase → Text → Session → List Bool → Outcome (Unit {0}) × Session
write_with phase payload s [] = (pending, s)
write_with phase payload s (success ∷ writes) =
    let entry : Sent = record { secure = s.tls; phase = phase; payload = payload } in
    let s' = record s { writes = writes; log = s.log ++ (entry ∷ []) } in
    elim success [ true ↦ (done tt, s') | false ↦ (thrown (delivery_error phase no_options), s') ]

unfoldable pub write : Phase → Text → M (Unit {0})
write phase payload s = write_with phase payload s s.writes

unfoldable pub command : Phase → Text → List ℕ → M (Unit {0})
unfolding write read_reply
command phase text expected = do write phase (text ++ crlf); read_reply phase expected

unfoldable pub write_data : Text → M (Unit {0})
unfolding write
write_data mail = write message (mail ++ (b'.' ∷ crlf))

unfoldable pub upgrade_to_tls : M (Unit {0})
upgrade_to_tls s = elim s.upgradable [
  | true ↦ (done tt, record s { tls = true; buffer = [] })
  | false ↦ (thrown (delivery_error starttls no_options), s)
]

unfoldable pub close : Session → Session
close s = record s { closed = true }

abbrev pub quit_with : Outcome (Unit {0}) × Session → Outcome (Unit {0}) × Session
quit_with (done _, s) = (done tt, close s)
quit_with (thrown _, s) = (done tt, close s)
quit_with (pending, s) = (pending, s)

-- `quit`: a failure of the command is dropped, and the socket is closed in any case.
unfoldable pub quit_session : M (Unit {0})
unfolding close command
quit_session s = quit_with (command quit (codes "QUIT") (221 ∷ []) s)

-- The STARTTLS upgrade, unless the connection is TLS from the start.
unfoldable pub secure_channel : Bool → Text → M (Unit {0})
unfolding command upgrade_to_tls
secure_channel true helo s = (done tt, s)
secure_channel false helo s =
    (do
      command starttls (codes "STARTTLS") (220 ∷ [])
      upgrade_to_tls
      command ehlo (codes "EHLO " ++ helo) (250 ∷ []))
      s

unfoldable pub login : Config → M (Unit {0})
unfolding command
login config = do
  command auth (codes "AUTH LOGIN") (334 ∷ [])
  command username (to_base64_utf8 config.user) (334 ∷ [])
  command password (to_base64_utf8 config.pass) (235 ∷ [])

unfoldable pub mail_steps :
    Text → Result DeliveryError Text → Result DeliveryError Text → M (Unit {0})
unfolding command write_data read_reply quit_session
mail_steps mail from to = do
  from' ← lift from
  command mail_from (codes "MAIL FROM:<" ++ (from' ++ codes ">")) (250 ∷ [])
  to' ← lift to
  command rcpt_to (codes "RCPT TO:<" ++ (to' ++ codes ">")) (250 ∷ 251 ∷ [])
  command command_data (codes "DATA") (354 ∷ [])
  write_data mail
  read_reply message (250 ∷ [])
  quit_session

-- The `try` block of `deliverViaWorkersSmtp`.
unfoldable pub conversation : Config → Envelope → Text → Stamp → M (Unit {0})
unfolding command read_reply secure_channel login mail_steps
conversation config envelope helo stamp = do
  read_reply greeting (220 ∷ [])
  command ehlo (codes "EHLO " ++ helo) (250 ∷ [])
  secure_channel config.secure helo
  login config
  mail_steps (build_multipart_message envelope config.host stamp)
      (extract_envelope_address envelope.from from_field)
      (extract_envelope_address envelope.to to_field)

-- What the runtime and the server will do on a connection that `connect` opens.
pub record Peer : Type 0 where
  pub inbox : List Read
  pub writes : List Bool
  pub upgradable : Bool

-- `secureTransport: 'on'` for implicit TLS; otherwise the connection starts in the clear.
unfoldable pub open_session : Config → Peer → Session
open_session config peer = record {
  tls = config.secure;
  inbox = peer.inbox;
  writes = peer.writes;
  upgradable = peer.upgradable;
  buffer = [];
  log = [];
  closed = false;
}

-- The `catch` block: the session is closed and the error, which is typed, is thrown again.
abbrev pub close_on_error : Outcome (Unit {0}) × Session → Outcome (Unit {0}) × Option Session
close_on_error (done _, s) = (done tt, some s)
close_on_error (thrown e, s) = (thrown e, some (close s))
close_on_error (pending, s) = (pending, some s)

abbrev pub deliver_as :
    Config
    → Envelope
    → Stamp
    → Option Peer
    → Result DeliveryError Text
    → Outcome (Unit {0}) × Option Session
deliver_as config envelope stamp peer (err e) = (thrown e, none)
deliver_as config envelope stamp none (ok helo) = (thrown (delivery_error connect no_options), none)
deliver_as config envelope stamp (some peer) (ok helo) =
    close_on_error (conversation config envelope helo stamp (open_session config peer))

-- `deliverViaWorkersSmtp`; `connect` throws where there is no peer.
unfoldable pub deliver :
    Config → Envelope → Option Text → Stamp → Option Peer → Outcome (Unit {0}) × Option Session
unfolding conversation open_session close
deliver config envelope helo_name stamp peer =
    deliver_as config envelope stamp peer
      (sanitize_helo (get_or helo_name (codes "user-service.local")))
