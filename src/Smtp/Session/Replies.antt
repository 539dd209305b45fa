-- ===== src/Smtp/Session/Replies.antt =====
-- A server that accepts every step: its replies, and that the delivery returns.
use user_service_platform.Prelude.{
  ℕ, ◌≡◌, refl, sym, Bool, true, false, List, [], ◌∷◌, ◌++◌, append-nil, Option, some, ok, get_or,
}
use user_service_platform.Text.{Text, codes}
use user_service_platform.Smtp.{
  Config, Envelope, Phase, greeting, ehlo, starttls, auth, username, password, mail_from, rcpt_to,
  command_data, message, from_field, to_field,
}
use user_service_platform.Smtp.Encoding.{to_base64_utf8}
use user_service_platform.Smtp.Address.{sanitize_helo, extract_envelope_address}
use user_service_platform.Smtp.Message.{crlf, Stamp, build_multipart_message}
use user_service_platform.Smtp.Session.{
  Read, done, M, ◌>>=◌, ◌>>◌, command, read_reply, write, write_data, upgrade_to_tls,
  secure_channel, login, mail_steps, quit_session, Peer, open_session, conversation, deliver,
}
use user_service_platform.Smtp.Session.Accepted.{
  Ready, Runs, Runs-bind, Arrives, IsReply, IsReply-Arrives, reads, read_reply-Runs, write-Runs,
  command-Runs, upgrade_to_tls-Runs, quit_session-Runs,
}

-- The replies of a server, one for each step and each in the chunks in which it arrives; the two of the upgrade are read only without TLS.
pub record Replies : Type 0 where
  pub to_connection : List Text
  pub to_ehlo : List Text
  pub to_starttls : List Text
  pub to_second_ehlo : List Text
  pub to_auth : List Text
  pub to_username : List Text
  pub to_password : List Text
  pub to_mail_from : List Text
  pub to_rcpt_to : List Text
  pub to_data : List Text
  pub to_message : List Text
  pub to_quit : List Text

-- Each is a reply of the protocol with a code that its step expects, in any chunks that are not empty.
pub record IsAccepting (r : Replies) : Type 0 where
  pub connection : IsReply (220 ∷ []) r.to_connection
  pub ehlo : IsReply (250 ∷ []) r.to_ehlo
  pub starttls : IsReply (220 ∷ []) r.to_starttls
  pub second_ehlo : IsReply (250 ∷ []) r.to_second_ehlo
  pub auth : IsReply (334 ∷ []) r.to_auth
  pub username : IsReply (334 ∷ []) r.to_username
  pub password : IsReply (235 ∷ []) r.to_password
  pub mail_from : IsReply (250 ∷ []) r.to_mail_from
  pub rcpt_to : IsReply (250 ∷ 251 ∷ []) r.to_rcpt_to
  pub data_command : IsReply (354 ∷ []) r.to_data
  pub message : IsReply (250 ∷ []) r.to_message
  pub quit : IsReply (221 ∷ []) r.to_quit

abbrev pub upgrade_reads : Bool → Replies → List Read
upgrade_reads true r = []
upgrade_reads false r = reads r.to_starttls ++ reads r.to_second_ehlo

abbrev pub upgrade_writes : Bool → List Bool
upgrade_writes true = []
upgrade_writes false = true ∷ true ∷ []

abbrev pub login_reads : Replies → List Read
login_reads r = reads r.to_auth ++ (reads r.to_username ++ reads r.to_password)

abbrev pub mail_reads : Replies → List Read
mail_reads r =
    reads r.to_mail_from
    ++ (reads r.to_rcpt_to ++ (reads r.to_data ++ (reads r.to_message ++ reads r.to_quit)))

abbrev pub accepting_peer : Bool → Replies → Peer
accepting_peer secure r = record {
  inbox =
      reads r.to_connection
      ++ (reads r.to_ehlo ++ (upgrade_reads secure r ++ (login_reads r ++ mail_reads r)));
  writes =
      true
      ∷ (upgrade_writes secure ++ (true ∷ true ∷ true ∷ true ∷ true ∷ true ∷ true ∷ true ∷ []));
  upgradable = true;
}

module _ (r : Replies) (v : IsAccepting r) where
  secure_channel-Runs :
      (b : Bool) (helo : Text) → Runs (secure_channel b helo) (upgrade_reads b r) (upgrade_writes b)
  unfolding secure_channel
  secure_channel-Runs true helo s rest more ready = (tt, s, refl, ready)
  secure_channel-Runs false helo s rest more ready =
      Runs-bind (command starttls (codes "STARTTLS") (220 ∷ [])) _ (reads r.to_starttls)
        (reads r.to_second_ehlo) (true ∷ []) (true ∷ [])
        (command-Runs starttls (codes "STARTTLS") (220 ∷ []) r.to_starttls
          (IsReply-Arrives _ _ v.starttls))
        (λ _.
          Runs-bind upgrade_to_tls _ [] (reads r.to_second_ehlo) [] (true ∷ []) upgrade_to_tls-Runs
            (λ _.
              command-Runs ehlo (codes "EHLO " ++ helo) (250 ∷ []) r.to_second_ehlo
                (IsReply-Arrives _ _ v.second_ehlo)))
        s rest more ready

  command_then-Runs :
      (phase : Phase) (text : Text) (expected : List ℕ) (reply : List Text)
      (f : Unit {0} → M (Unit {0})) (qs : List Read) (vs : List Bool)
      → Arrives expected [] reply
      → Runs (f tt) qs vs
      → Runs (command phase text expected >>= f) (reads reply ++ qs) (true ∷ vs)
  command_then-Runs phase text expected reply f qs vs arrives h =
      Runs-bind (command phase text expected) f (reads reply) qs (true ∷ []) vs
        (command-Runs phase text expected reply arrives) (λ _. h)

  login-Runs :
      (config : Config)
      → Runs
          (login config)
          (reads r.to_auth ++ (reads r.to_username ++ reads r.to_password))
          (true ∷ true ∷ true ∷ [])
  unfolding login
  login-Runs config =
      command_then-Runs auth (codes "AUTH LOGIN") (334 ∷ []) r.to_auth _
        (reads r.to_username ++ reads r.to_password) (true ∷ true ∷ []) (IsReply-Arrives _ _ v.auth)
        (command_then-Runs username (to_base64_utf8 config.user) (334 ∷ []) r.to_username _
          (reads r.to_password) (true ∷ []) (IsReply-Arrives _ _ v.username)
          (command-Runs password (to_base64_utf8 config.pass) (235 ∷ []) r.to_password
            (IsReply-Arrives _ _ v.password)))

  delivery-Runs :
      (mail : Text)
      → Runs
          (write_data mail >> (read_reply message (250 ∷ []) >> quit_session))
          (reads r.to_message ++ reads r.to_quit)
          (true ∷ true ∷ [])
  unfolding write_data
  delivery-Runs mail =
      Runs-bind (write message (mail ++ (b'.' ∷ crlf))) _ [] (reads r.to_message ++ reads r.to_quit)
        (true ∷ []) (true ∷ []) (write-Runs message (mail ++ (b'.' ∷ crlf)))
        (λ _.
          Runs-bind (read_reply message (250 ∷ [])) _ (reads r.to_message) (reads r.to_quit) []
            (true ∷ [])
            (read_reply-Runs message (250 ∷ []) r.to_message (IsReply-Arrives _ _ v.message))
            (λ _. quit_session-Runs r.to_quit (IsReply-Arrives _ _ v.quit)))

  mail_steps-Runs :
      (mail from to : Text)
      → Runs
          (mail_steps mail (ok from) (ok to))
          (reads r.to_mail_from
            ++ (reads r.to_rcpt_to ++ (reads r.to_data ++ (reads r.to_message ++ reads r.to_quit))))
          (true ∷ true ∷ true ∷ true ∷ true ∷ [])
  unfolding mail_steps
  mail_steps-Runs mail from to =
      command_then-Runs mail_from (codes "MAIL FROM:<" ++ (from ++ codes ">")) (250 ∷ [])
        r.to_mail_from _
        (reads r.to_rcpt_to ++ (reads r.to_data ++ (reads r.to_message ++ reads r.to_quit)))
        (true ∷ true ∷ true ∷ true ∷ []) (IsReply-Arrives _ _ v.mail_from)
        (command_then-Runs rcpt_to (codes "RCPT TO:<" ++ (to ++ codes ">")) (250 ∷ 251 ∷ [])
          r.to_rcpt_to _ (reads r.to_data ++ (reads r.to_message ++ reads r.to_quit))
          (true ∷ true ∷ true ∷ []) (IsReply-Arrives _ _ v.rcpt_to)
          (command_then-Runs command_data (codes "DATA") (354 ∷ []) r.to_data _
            (reads r.to_message ++ reads r.to_quit) (true ∷ true ∷ [])
            (IsReply-Arrives _ _ v.data_command) (delivery-Runs mail)))

  after_login-Runs :
      (config : Config) (mail from to : Text)
      → Runs
          (login config >> mail_steps mail (ok from) (ok to))
          (login_reads r ++ mail_reads r)
          (true ∷ true ∷ true ∷ true ∷ true ∷ true ∷ true ∷ true ∷ [])
  after_login-Runs config mail from to =
      Runs-bind (login config) (λ _. mail_steps mail (ok from) (ok to)) (login_reads r)
        (mail_reads r) (true ∷ true ∷ true ∷ []) (true ∷ true ∷ true ∷ true ∷ true ∷ [])
        (login-Runs config) (λ _. mail_steps-Runs mail from to)

  conversation-Runs :
      (config : Config) (envelope : Envelope) (helo : Text) (stamp : Stamp) (from to : Text)
      → extract_envelope_address envelope.from from_field ≡ ok from
      → extract_envelope_address envelope.to to_field ≡ ok to
      → Runs
          (conversation config envelope helo stamp)
          (accepting_peer config.secure r).inbox
          (accepting_peer config.secure r).writes
  unfolding conversation
  conversation-Runs config envelope helo stamp from to from_valid to_valid =
      let tail = login_reads r ++ mail_reads r in
      let writes : List Bool = true ∷ true ∷ true ∷ true ∷ true ∷ true ∷ true ∷ true ∷ [] in
      let mail = build_multipart_message envelope config.host stamp in
      rw (from_valid, to_valid)
        (Runs-bind (read_reply greeting (220 ∷ [])) _ (reads r.to_connection)
          (reads r.to_ehlo ++ (upgrade_reads config.secure r ++ tail)) []
          (true ∷ (upgrade_writes config.secure ++ writes))
          (read_reply-Runs greeting (220 ∷ []) r.to_connection (IsReply-Arrives _ _ v.connection))
          (λ _.
            command_then-Runs ehlo (codes "EHLO " ++ helo) (250 ∷ []) r.to_ehlo _
              (upgrade_reads config.secure r ++ tail) (upgrade_writes config.secure ++ writes)
              (IsReply-Arrives _ _ v.ehlo)
              (Runs-bind (secure_channel config.secure helo) _ (upgrade_reads config.secure r) tail
                (upgrade_writes config.secure) writes (secure_channel-Runs config.secure helo)
                (λ _. after_login-Runs config mail from to))))

-- With a server that answers every step by a reply of the protocol with an expected code, of any
-- number of lines and in any chunks that are not empty, a usable host name and two usable
-- addresses, the delivery returns.
pub deliver_accepted :
    (config : Config) (envelope : Envelope) (helo_name : Option Text) (stamp : Stamp) (r : Replies)
    (helo from to : Text)
    → IsAccepting r
    → sanitize_helo (get_or helo_name (codes "user-service.local")) ≡ ok helo
    → extract_envelope_address envelope.from from_field ≡ ok from
    → extract_envelope_address envelope.to to_field ≡ ok to
    → (deliver config envelope helo_name stamp (some (accepting_peer config.secure r))).0 ≡ done tt
unfolding deliver
deliver_accepted config envelope helo_name stamp r helo from to v valid from_valid to_valid =
    let peer = accepting_peer config.secure r in
    let ready : Ready (open_session config peer) (peer.inbox ++ []) (peer.writes ++ []) =
      unfold open_session in
      record {
        inbox_is = sym (append-nil peer.inbox);
        writes_are = sym (append-nil peer.writes);
        upgrades = refl;
        buffer_is_empty = refl;
      } in
    let (_, s, e, _) =
      conversation-Runs r v config envelope helo stamp from to from_valid to_valid
        (open_session config peer) [] [] ready in
    rw (valid, e) refl
