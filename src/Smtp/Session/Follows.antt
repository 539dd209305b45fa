-- ===== src/Smtp/Session/Follows.antt =====
-- A method follows a transcript: what it hands to the writer, in order and with the state of the
-- channel. A method that does not return has written a first part of its transcript.
use user_service_platform.Prelude.{
  ℕ, ◌≡◌, refl, ◌∙◌, ap, sym, Bool, true, false, List, [], ◌∷◌, ◌++◌, append_assoc, append-nil, err,
  Bool-cases, inl, inr,
}
use user_service_platform.Text.{Text}
use user_service_platform.Smtp.{Phase, DeliveryError}
use user_service_platform.Smtp.Message.{crlf}
use user_service_platform.Smtp.Session.{
  Sent, Session, Outcome, done, thrown, pending, M, and_then, ◌>>=◌, lift, read_loop, read_reply,
  write_with, write, command, upgrade_to_tls,
}

abbrev pub StopsIn : List Sent → List Sent → Session → Type 0
StopsIn before xs s = (ys : List Sent) × (zs : List Sent) × (s.log ≡ before ++ ys) × (ys ++ zs ≡ xs)

abbrev pub Follows : {A : Type 0} → List Sent → Bool → List Sent → Outcome A × Session → Type 0
Follows before tls xs (done a, s) = (s.log ≡ before ++ xs) × (s.tls ≡ tls)
Follows before tls xs (thrown e, s) = StopsIn before xs s
Follows before tls xs (pending, s) = StopsIn before xs s

-- From a channel in the first state, the method leaves it in the second and writes the list.
abbrev pub Says : {A : Type 0} → M A → Bool → Bool → List Sent → Type 0
Says m before after xs = (s : Session) → s.tls ≡ before → Follows s.log after xs (m s)

StopsIn-append_right :
    (before xs ys : List Sent) (s : Session) → StopsIn before xs s → StopsIn before (xs ++ ys) s
StopsIn-append_right before xs ys s (us, vs, e, f) =
    (us, vs ++ ys, e, sym (append_assoc us vs ys) ∙ ap (λ r. r ++ ys) f)

StopsIn-append_left :
    (before middle xs ys : List Sent) (s : Session)
    → middle ≡ before ++ xs
    → StopsIn middle ys s
    → StopsIn before (xs ++ ys) s
StopsIn-append_left before middle xs ys s m (us, vs, e, f) = (
  xs ++ us,
  vs,
  e ∙ ap (λ r. r ++ us) m ∙ append_assoc before xs us,
  append_assoc xs us vs ∙ ap (λ r. xs ++ r) f,
)

Follows-append :
    {A : Type 0} (before middle xs ys : List Sent) (tls : Bool) (r : Outcome A × Session)
    → middle ≡ before ++ xs
    → Follows middle tls ys r
    → Follows before tls (xs ++ ys) r
Follows-append before middle xs ys tls (done a, s) m (e, t) =
    (e ∙ ap (λ r. r ++ ys) m ∙ append_assoc before xs ys, t)
Follows-append before middle xs ys tls (thrown e, s) m h =
    StopsIn-append_left before middle xs ys s m h
Follows-append before middle xs ys tls (pending, s) m h =
    StopsIn-append_left before middle xs ys s m h

Follows-and_then :
    {A B : Type 0} (before xs ys : List Sent) (b c : Bool) (f : A → M B) (r : Outcome A × Session)
    → ((a : A) → Says (f a) b c ys)
    → Follows before b xs r
    → Follows before c (xs ++ ys) (and_then f r)
Follows-and_then before xs ys b c f (done a, s) k (e, t) =
    Follows-append before s.log xs ys c (f a s) e (k a s t)
Follows-and_then before xs ys b c f (thrown e, s) k h = StopsIn-append_right before xs ys s h
Follows-and_then before xs ys b c f (pending, s) k h = StopsIn-append_right before xs ys s h

-- The transcripts of two methods in sequence are joined.
pub Says-bind :
    {A B : Type 0} (m : M A) (f : A → M B) (a b c : Bool) (xs ys : List Sent)
    → Says m a b xs
    → ((x : A) → Says (f x) b c ys)
    → Says (m >>= f) a c (xs ++ ys)
Says-bind m f a b c xs ys h k s t = Follows-and_then s.log xs ys b c f (m s) k (h s t)

StopsIn-nothing : (before xs : List Sent) (s : Session) → s.log ≡ before → StopsIn before xs s
StopsIn-nothing before xs s e = ([], xs, e ∙ sym (append-nil before), refl)

Follows-quiet :
    {A : Type 0} (before : List Sent) (tls : Bool) (o : Outcome A) (s : Session)
    → s.log ≡ before
    → s.tls ≡ tls
    → Follows before tls [] (o, s)
Follows-quiet before tls (done a) s e t = (e ∙ sym (append-nil before), t)
Follows-quiet before tls (thrown _) s e t = StopsIn-nothing before [] s e
Follows-quiet before tls pending s e t = StopsIn-nothing before [] s e

pub read_reply-Says :
    (phase : Phase) (expected : List ℕ) (b : Bool) → Says (read_reply phase expected) b b []
unfolding read_reply
read_reply-Says phase expected b s t =
    let (outcome, rest, buffer) = read_loop phase expected s.inbox s.buffer in
    Follows-quiet s.log b outcome (record s { inbox = rest; buffer = buffer }) refl t

abbrev pub entry : Bool → Phase → Text → Sent
entry b phase payload = record { secure = b; phase = phase; payload = payload }

write_with-Follows :
    (phase : Phase) (payload : Text) (b : Bool) (s : Session) (writes : List Bool)
    → s.tls ≡ b
    → Follows s.log b (entry b phase payload ∷ []) (write_with phase payload s writes)
write_with-Follows phase payload b s [] t = StopsIn-nothing s.log _ s refl
write_with-Follows phase payload b s (true ∷ writes) t = (rw t, t)
write_with-Follows phase payload b s (false ∷ writes) t =
    (entry b phase payload ∷ [], [], rw t, refl)

pub write-Says :
    (phase : Phase) (payload : Text) (b : Bool)
    → Says (write phase payload) b b (entry b phase payload ∷ [])
unfolding write
write-Says phase payload b s t = write_with-Follows phase payload b s s.writes t

pub command-Says :
    (phase : Phase) (text : Text) (expected : List ℕ) (b : Bool)
    → Says (command phase text expected) b b (entry b phase (text ++ crlf) ∷ [])
unfolding command
command-Says phase text expected b =
    Says-bind (write phase (text ++ crlf)) (λ _. read_reply phase expected) b b b
      (entry b phase (text ++ crlf) ∷ []) [] (write-Says phase (text ++ crlf) b)
      (λ _. read_reply-Says phase expected b)

pub upgrade_to_tls-Says : (b : Bool) → Says upgrade_to_tls b true []
unfolding upgrade_to_tls
upgrade_to_tls-Says b s t = elim (Bool-cases s.upgradable) [
  | inl h ↦ rw h (sym (append-nil s.log), refl)
  | inr h ↦ rw h (StopsIn-nothing s.log [] s refl)
]

pub fail-Says :
    (A : Type 0) (e : DeliveryError) (b c : Bool) (xs : List Sent)
    → Says (lift {A = A} (err e)) b c xs
fail-Says A e b c xs s t = StopsIn-nothing s.log xs s refl
