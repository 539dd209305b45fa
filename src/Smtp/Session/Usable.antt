-- ===== src/Smtp/Session/Usable.antt =====
-- What a delivery that returns says of its addresses: `deliverViaWorkersSmtp` throws on an address
-- that cannot be extracted.
use user_service_platform.Prelude.{
  ◌≡◌, refl, [], ◌∷◌, ◌++◌, Option, none, some, Result, ok, err, get_or,
}
use user_service_platform.Text.{Text, codes}
use user_service_platform.Smtp.{
  Config, Envelope, greeting, mail_from, ehlo, DeliveryError, from_field, to_field,
}
use user_service_platform.Smtp.Address.{sanitize_helo, extract_envelope_address}
use user_service_platform.Smtp.Message.{Stamp, build_multipart_message}
use user_service_platform.Smtp.Session.{
  Session, Outcome, done, thrown, pending, Peer, close_on_error, open_session, conversation,
  deliver, deliver_as, and_then, M, ◌>>◌, mail_steps, command, read_reply, secure_channel, login,
}

-- A method that returns has come to its second part, which returns.
second_part :
    {P : Type 0} (m k : M (Unit {0})) (s : Session)
    → ((t : Session) → (k t).0 ≡ done tt → P)
    → ((m >> k) s).0 ≡ done tt
    → P
second_part {P} m k s h = go (m s)
  where
    go : (r : Outcome (Unit {0}) × Session) → (and_then (λ _. k) r).0 ≡ done tt → P
    go (done _, t) e = h t e
    go (thrown e', t) e = cc
    go (pending, t) e = cc

-- Two addresses that can be extracted.
abbrev pub AreUsable : Result DeliveryError Text → Result DeliveryError Text → Type 0
AreUsable from to = (sender : Text) × (receiver : Text) × (from ≡ ok sender) × (to ≡ ok receiver)

-- The steps of the mail return only with two usable addresses.
mail_steps-AreUsable :
    (mail : Text) (from to : Result DeliveryError Text) (s : Session)
    → (mail_steps mail from to s).0 ≡ done tt
    → AreUsable from to
unfolding mail_steps
mail_steps-AreUsable mail (err e) to s h = cc
mail_steps-AreUsable mail (ok from) (ok to) s h = (from, to, refl, refl)
mail_steps-AreUsable mail (ok from) (err e) s h =
    second_part (command mail_from (codes "MAIL FROM:<" ++ (from ++ codes ">")) (250 ∷ []))
      (λ t. (thrown e, t)) s (λ t never. cc) h

conversation-AreUsable :
    (config : Config) (envelope : Envelope) (helo : Text) (stamp : Stamp) (s : Session)
    → (conversation config envelope helo stamp s).0 ≡ done tt
    → AreUsable
        (extract_envelope_address envelope.from from_field)
        (extract_envelope_address envelope.to to_field)
unfolding conversation
conversation-AreUsable config envelope helo stamp s =
    let mail =
      mail_steps (build_multipart_message envelope config.host stamp)
        (extract_envelope_address envelope.from from_field)
        (extract_envelope_address envelope.to to_field) in
    let after_channel = login config >> mail in
    let after_ehlo = secure_channel config.secure helo >> after_channel in
    let greeted = command ehlo (codes "EHLO " ++ helo) (250 ∷ []) in
    second_part (read_reply greeting (220 ∷ [])) (greeted >> after_ehlo) s λ s1.
      second_part greeted after_ehlo s1 λ s2.
        second_part (secure_channel config.secure helo) after_channel s2 λ s3.
          second_part (login config) mail s3
            λ s4. mail_steps-AreUsable (build_multipart_message envelope config.host stamp) _ _ s4

-- A delivery that returns had two usable addresses.
pub deliver-AreUsable :
    (config : Config) (envelope : Envelope) (helo_name : Option Text) (stamp : Stamp)
    (peer : Option Peer)
    → (deliver config envelope helo_name stamp peer).0 ≡ done tt
    → AreUsable
        (extract_envelope_address envelope.from from_field)
        (extract_envelope_address envelope.to to_field)
unfolding deliver
deliver-AreUsable config envelope helo_name stamp peer =
    given (sanitize_helo (get_or helo_name (codes "user-service.local"))) peer
  where
    closed : (r : Outcome (Unit {0}) × Session) → (close_on_error r).0 ≡ done tt → r.0 ≡ done tt
    closed (done _, s) h = refl
    closed (thrown e, s) h = cc
    closed (pending, s) h = cc

    given :
        (helo : Result DeliveryError Text) (peer : Option Peer)
        → (deliver_as config envelope stamp peer helo).0 ≡ done tt
        → AreUsable
            (extract_envelope_address envelope.from from_field)
            (extract_envelope_address envelope.to to_field)
    given (err e) peer h = cc
    given (ok helo) none h = cc
    given (ok helo) (some peer) h =
        conversation-AreUsable config envelope helo stamp (open_session config peer)
          (closed (conversation config envelope helo stamp (open_session config peer)) h)
