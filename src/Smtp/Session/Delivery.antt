-- ===== src/Smtp/Session/Delivery.antt =====
-- What holds of every delivery, whatever the server answers and wherever the connection fails.
use user_service_platform.Prelude.{
  ◌≡◌, ◌⊎◌, inl, inr, refl, subst, Bool, true, false, List, [], ◌∷◌, ◌++◌, Option, none, some, All,
  All-append, Result, ok, err, get_or,
}
use user_service_platform.Text.{Text, codes}
use user_service_platform.Smtp.{
  Config, Envelope, ehlo, starttls, DeliveryError, from_field, to_field,
}
use user_service_platform.Smtp.Address.{sanitize_helo, extract_envelope_address}
use user_service_platform.Smtp.Message.{Stamp, build_multipart_message}
use user_service_platform.Smtp.Session.{
  Sent, Session, Outcome, done, thrown, pending, Peer, close, close_on_error, open_session,
  conversation, deliver, deliver_as,
}
use user_service_platform.Smtp.Session.Follows.{Follows}
use user_service_platform.Smtp.Session.Transcript.{
  transcript, upgrade_entries, mail_entries, conversation-Says,
}

-- A log is a first part of a transcript, and all of it if the delivery returns.
abbrev pub IsPartOf : List Sent → Outcome (Unit {0}) → List Sent → Type 0
IsPartOf log (done _) xs = log ≡ xs
IsPartOf log (thrown _) xs = (rest : List Sent) × (log ++ rest ≡ xs)
IsPartOf log pending xs = (rest : List Sent) × (log ++ rest ≡ xs)

-- What was written, nothing where no connection was opened.
abbrev pub log_of : Outcome (Unit {0}) × Option Session → List Sent
log_of (_, none) = []
log_of (_, some s) = s.log

Follows-IsPartOf :
    (xs : List Sent) (r : Outcome (Unit {0}) × Session)
    → Follows [] true xs r
    → IsPartOf (log_of (close_on_error r)) (close_on_error r).0 xs
unfolding close
Follows-IsPartOf xs (done _, s) (e, _) = e
Follows-IsPartOf xs (thrown _, s) (ys, zs, e, f) = (zs, rw e f)
Follows-IsPartOf xs (pending, s) (ys, zs, e, f) = (zs, rw e f)

deliver_as-IsPartOf :
    (config : Config) (envelope : Envelope) (stamp : Stamp) (peer : Option Peer) (helo : Text)
    → let r = deliver_as config envelope stamp peer (ok helo) in
      IsPartOf (log_of r) r.0 (transcript config envelope helo stamp)
deliver_as-IsPartOf config envelope stamp none helo = (transcript config envelope helo stamp, refl)
deliver_as-IsPartOf config envelope stamp (some peer) helo =
    Follows-IsPartOf (transcript config envelope helo stamp)
      (conversation config envelope helo stamp (open_session config peer))
      (opened (open_session config peer) (unfold open_session in refl)
        (unfold open_session in refl))
  where
    opened :
        (s : Session)
        → s.tls ≡ config.secure
        → s.log ≡ []
        → Follows [] true
            (transcript config envelope helo stamp)
            (conversation config envelope helo stamp s)
    opened s t e =
        subst
          (λ before.
            Follows before true (transcript config envelope helo stamp)
              (conversation config envelope helo stamp s))
          e (conversation-Says config envelope helo stamp s t)

-- With a usable host name, what is written is always a first part of the transcript, and the whole
-- of it when the delivery returns: no step is left out, repeated or reordered.
pub deliver-transcript :
    (config : Config) (envelope : Envelope) (helo_name : Option Text) (stamp : Stamp)
    (peer : Option Peer) (helo : Text)
    → sanitize_helo (get_or helo_name (codes "user-service.local")) ≡ ok helo
    → IsPartOf
        (log_of (deliver config envelope helo_name stamp peer))
        (deliver config envelope helo_name stamp peer).0
        (transcript config envelope helo stamp)
unfolding deliver
deliver-transcript config envelope helo_name stamp peer helo valid =
    rw valid (deliver_as-IsPartOf config envelope stamp peer helo)

module _ (P : Sent → Type 0) where
  All-part : (xs ys : List Sent) → All P (xs ++ ys) → All P xs
  All-part [] ys h = tt
  All-part (x ∷ xs) ys (p, h) = (p, All-part xs ys h)

  IsPartOf-All :
      (log xs : List Sent) (o : Outcome (Unit {0})) → IsPartOf log o xs → All P xs → All P log
  IsPartOf-All log xs (done _) e h = rw e h
  IsPartOf-All log xs (thrown _) (rest, e) h = All-part log rest (rw e h)
  IsPartOf-All log xs pending (rest, e) h = All-part log rest (rw e h)

  -- What holds of every transcript holds of what is written.
  pub deliver-All :
      (config : Config) (envelope : Envelope) (helo_name : Option Text) (stamp : Stamp)
      → ((helo : Text)
          → sanitize_helo (get_or helo_name (codes "user-service.local")) ≡ ok helo
          → All P (transcript config envelope helo stamp))
      → (peer : Option Peer) → All P (log_of (deliver config envelope helo_name stamp peer))
  deliver-All config envelope helo_name stamp h peer =
      go (sanitize_helo (get_or helo_name (codes "user-service.local"))) refl
    where
      go :
          (r : Result DeliveryError Text)
          → sanitize_helo (get_or helo_name (codes "user-service.local")) ≡ r
          → All P (log_of (deliver config envelope helo_name stamp peer))
      go (err e) refused = unfold deliver in rw refused tt
      go (ok helo) valid =
          IsPartOf-All (log_of (deliver config envelope helo_name stamp peer))
            (transcript config envelope helo stamp) (deliver config envelope helo_name stamp peer).0
            (deliver-transcript config envelope helo_name stamp peer helo valid) (h helo valid)

-- Written over TLS, or else one of the two commands that come before the upgrade.
abbrev pub IsConfidential : Sent → Type 0
IsConfidential e = (e.secure ≡ true) ⊎ ((e.phase ≡ ehlo) ⊎ (e.phase ≡ starttls))

upgrade-IsConfidential : (b : Bool) (helo : Text) → All IsConfidential (upgrade_entries b helo)
upgrade-IsConfidential true helo = tt
upgrade-IsConfidential false helo = (inr (inr refl), (inl refl, tt))

mail-IsConfidential :
    (mail : Text) (from to : Result DeliveryError Text)
    → All IsConfidential (mail_entries mail from to)
mail-IsConfidential mail (err e) to = tt
mail-IsConfidential mail (ok from) (err e) = (inl refl, tt)
mail-IsConfidential mail (ok from) (ok to) =
    (inl refl, (inl refl, (inl refl, (inl refl, (inl refl, tt)))))

-- Credentials, addresses and the mail itself are written over TLS only; nothing but EHLO and
-- STARTTLS is written in the clear, in either mode and whatever the peer does.
pub deliver-IsConfidential :
    (config : Config) (envelope : Envelope) (helo_name : Option Text) (stamp : Stamp)
    (peer : Option Peer)
    → All IsConfidential (log_of (deliver config envelope helo_name stamp peer))
deliver-IsConfidential config envelope helo_name stamp =
    deliver-All IsConfidential config envelope helo_name stamp λ helo valid. (
      inr (inl refl),
      All-append IsConfidential (upgrade_entries config.secure helo) _
          (upgrade-IsConfidential config.secure helo)
          (
            inl refl,
            (
              inl refl,
              (
                inl refl,
                mail-IsConfidential (build_multipart_message envelope config.host stamp)
                    (extract_envelope_address envelope.from from_field)
                    (extract_envelope_address envelope.to to_field),
              ),
            ),
          ),
    )
