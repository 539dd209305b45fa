-- ===== src/Smtp/Session/Closing.antt =====
-- A delivery leaves no connection open.
use user_service_platform.Prelude.{
  ◌≡◌, refl, true, [], ◌∷◌, ◌++◌, Option, none, some, Result, ok, err, get_or,
}
use user_service_platform.Text.{Text, codes}
use user_service_platform.Smtp.{
  Config, Envelope, DeliveryError, greeting, ehlo, mail_from, rcpt_to, command_data, message,
  from_field, to_field,
}
use user_service_platform.Smtp.Address.{sanitize_helo, extract_envelope_address}
use user_service_platform.Smtp.Message.{Stamp, build_multipart_message}
use user_service_platform.Smtp.Session.{
  Session, Outcome, done, thrown, pending, M, and_then, ◌>>=◌, lift, command, read_reply,
  write_data, secure_channel, login, Peer, close, close_on_error, quit_with, quit_session,
  mail_steps, open_session, conversation, deliver, deliver_as,
}

-- If the method returns, the session is closed.
abbrev Shut : Outcome (Unit {0}) × Session → Type 0
Shut (done _, s) = s.closed ≡ true
Shut (thrown _, s) = Unit
Shut (pending, s) = Unit

abbrev Closes : M (Unit {0}) → Type 0
Closes m = (s : Session) → Shut (m s)

Closes-bind :
    (A : Type 0) (m : M A) (f : A → M (Unit {0})) → ((a : A) → Closes (f a)) → Closes (m >>= f)
Closes-bind A m f h s = last (m s)
  where
    last : (r : Outcome A × Session) → Shut (and_then f r)
    last (done a, s') = h a s'
    last (thrown e, s') = tt
    last (pending, s') = tt

quit_with-Shut : (r : Outcome (Unit {0}) × Session) → Shut (quit_with r)
unfolding close
quit_with-Shut (done _, s) = refl
quit_with-Shut (thrown _, s) = refl
quit_with-Shut (pending, s) = tt

quit_session-Closes : Closes quit_session
unfolding quit_session
quit_session-Closes s = quit_with-Shut _

mail_steps-Closes :
    (mail : Text) (from to : Result DeliveryError Text) → Closes (mail_steps mail from to)
unfolding mail_steps
mail_steps-Closes mail from to = Closes-bind Text (lift from) _ λ from'.
    Closes-bind (Unit {0})
      (command mail_from (codes "MAIL FROM:<" ++ (from' ++ codes ">")) (250 ∷ [])) _
      λ _. Closes-bind Text (lift to) _ λ to'.
        Closes-bind (Unit {0})
          (command rcpt_to (codes "RCPT TO:<" ++ (to' ++ codes ">")) (250 ∷ 251 ∷ [])) _
          λ _. Closes-bind (Unit {0}) (command command_data (codes "DATA") (354 ∷ [])) _ λ _.
            Closes-bind (Unit {0}) (write_data mail) _
              λ _. Closes-bind (Unit {0}) (read_reply message (250 ∷ [])) _ λ _. quit_session-Closes

conversation-Closes :
    (config : Config) (envelope : Envelope) (helo : Text) (stamp : Stamp)
    → Closes (conversation config envelope helo stamp)
unfolding conversation
conversation-Closes config envelope helo stamp =
    Closes-bind (Unit {0}) (read_reply greeting (220 ∷ [])) _ λ _.
      Closes-bind (Unit {0}) (command ehlo (codes "EHLO " ++ helo) (250 ∷ [])) _ λ _.
        Closes-bind (Unit {0}) (secure_channel config.secure helo) _ λ _.
          Closes-bind (Unit {0}) (login config) _ λ _.
            mail_steps-Closes (build_multipart_message envelope config.host stamp)
              (extract_envelope_address envelope.from from_field)
              (extract_envelope_address envelope.to to_field)

-- Not settled, or with its session, if there is one, closed.
abbrev pub IsReleased : Outcome (Unit {0}) × Option Session → Type 0
IsReleased (pending, _) = Unit
IsReleased (done _, none) = ⊥
IsReleased (done _, some s) = s.closed ≡ true
IsReleased (thrown _, none) = Unit
IsReleased (thrown _, some s) = s.closed ≡ true

close_on_error-IsReleased :
    (r : Outcome (Unit {0}) × Session) → Shut r → IsReleased (close_on_error r)
unfolding close
close_on_error-IsReleased (done _, s) h = h
close_on_error-IsReleased (thrown _, s) h = refl
close_on_error-IsReleased (pending, s) h = tt

deliver_as-IsReleased :
    (config : Config) (envelope : Envelope) (stamp : Stamp) (peer : Option Peer)
    (helo : Result DeliveryError Text)
    → IsReleased (deliver_as config envelope stamp peer helo)
deliver_as-IsReleased config envelope stamp peer (err e) = tt
deliver_as-IsReleased config envelope stamp none (ok helo) = tt
deliver_as-IsReleased config envelope stamp (some peer) (ok helo) =
    close_on_error-IsReleased (conversation config envelope helo stamp (open_session config peer))
      (conversation-Closes config envelope helo stamp (open_session config peer))

-- When a delivery returns or throws, the connection that it opened is closed; it returns only over
-- a connection that was opened.
pub deliver-IsReleased :
    (config : Config) (envelope : Envelope) (helo_name : Option Text) (stamp : Stamp)
    (peer : Option Peer)
    → IsReleased (deliver config envelope helo_name stamp peer)
unfolding deliver
deliver-IsReleased config envelope helo_name stamp peer =
    deliver_as-IsReleased config envelope stamp peer
      (sanitize_helo (get_or helo_name (codes "user-service.local")))
