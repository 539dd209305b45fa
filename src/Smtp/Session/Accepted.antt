-- ===== src/Smtp/Session/Accepted.antt =====
-- A server that accepts every step: the delivery returns.
use user_service_platform.Prelude.{
  ℕ, ◌≡◌, ◌≢◌, refl, sym, ◌∙◌, ap, All, append-nil, Bool, true, List, [], ◌∷◌, ◌++◌, append_assoc,
  some, none, any, map, ◌==◌,
}
use user_service_platform.Text.{Text, codes}
use user_service_platform.Smtp.{Phase, quit}
use user_service_platform.Smtp.Message.{crlf}
use user_service_platform.Smtp.Reply.{parse_complete_reply}
use user_service_platform.Smtp.Reply.Chunks.{IsReplyText, whole, partial}
use user_service_platform.Smtp.Session.{
  Read, chunk, Sent, Session, quit_with, close, done, M, and_then, ◌>>=◌, command, read_reply,
  read_loop, write, upgrade_to_tls, quit_session,
}

pub record Ready (s : Session) (inbox : List Read) (writes : List Bool) : Type 0 where
  pub inbox_is : s.inbox ≡ inbox
  pub writes_are : s.writes ≡ writes
  pub upgrades : s.upgradable ≡ true
  pub buffer_is_empty : s.buffer ≡ []

-- With these events the method returns, and leaves the events behind them.
abbrev pub Runs : {A : Type 0} → M A → List Read → List Bool → Type 0
Runs {A} m reads writes =
    (s : Session) (rest : List Read) (more : List Bool)
    → Ready s (reads ++ rest) (writes ++ more)
    → (a : A) × (s' : Session) × (m s ≡ (done a, s')) × Ready s' rest more

pub Runs-bind :
    {A B : Type 0} (m : M A) (f : A → M B) (rs qs : List Read) (us vs : List Bool)
    → Runs m rs us
    → ((a : A) → Runs (f a) qs vs)
    → Runs (m >>= f) (rs ++ qs) (us ++ vs)
Runs-bind m f rs qs us vs h k s rest more ready =
    let first : Ready s (rs ++ (qs ++ rest)) (us ++ (vs ++ more)) = record {
      inbox_is = ready.inbox_is ∙ append_assoc rs qs rest;
      writes_are = ready.writes_are ∙ append_assoc us vs more;
      upgrades = ready.upgrades;
      buffer_is_empty = ready.buffer_is_empty;
    } in
    let (a, s', e, ready') = h s (qs ++ rest) (vs ++ more) first in
    let (b, t, e', ready'') = k a s' rest more ready' in (b, t, ap (and_then f) e ∙ e', ready'')

-- A complete reply with an expected code.
abbrev pub Accepts : List ℕ → Text → Type 0
Accepts expected reply =
    (code : ℕ) × (parse_complete_reply reply ≡ some code) × (any (λ n. n == code) expected ≡ true)

-- After the buffer, these chunks complete a reply with an expected code, and do so with the last of
-- them only: the server may split its reply anywhere.
pub data Arrives (expected : List ℕ) : Text → List Text → Type 0 where
  complete :
      {buffer piece : Text}
      → Accepts expected (buffer ++ piece)
      → Arrives expected buffer (piece ∷ [])
  incomplete :
      {buffer piece : Text} {more : List Text}
      → parse_complete_reply (buffer ++ piece) ≡ none
      → Arrives expected (buffer ++ piece) more
      → Arrives expected buffer (piece ∷ more)

no_start : (s t : Text) → s ++ t ≡ [] → s ≡ []
no_start [] t e = refl
no_start (c ∷ s) t e = cc

unfoldable pub join : List Text → Text
join [] = []
join (piece ∷ pieces) = piece ++ join pieces

-- What the server does for a step: it sends a reply of the protocol with a code that is expected,
-- split in any way into chunks that are not empty.
pub record IsReply (expected : List ℕ) (chunks : List Text) : Type 0 where
  pub code : ℕ
  pub text : Text
  pub in_grammar : IsReplyText code text
  pub is_expected : any (λ n. n == code) expected ≡ true
  pub joined : join chunks ≡ text
  pub filled : All (λ piece. piece ≢ []) chunks

module _ (expected : List ℕ) (code : ℕ) (text : Text) (reply : IsReplyText code text)
    (member : any (λ n. n == code) expected ≡ true) where
  piecewise :
      (buffer first : Text) (chunks : List Text)
      → buffer ++ join (first ∷ chunks) ≡ text
      → All (λ piece. piece ≢ []) chunks
      → Arrives expected buffer (first ∷ chunks)
  unfolding join
  piecewise buffer first [] joined filled =
      let taken = ap (λ s. buffer ++ s) (sym (append-nil first)) ∙ joined in
      complete (code, ap parse_complete_reply taken ∙ whole code text reply, member)
  piecewise buffer first (next ∷ chunks) joined (some_text, filled) =
      let regrouped = append_assoc buffer first (join (next ∷ chunks)) ∙ joined in
      incomplete
        (partial code (buffer ++ first) (join (next ∷ chunks)) reply regrouped
          (λ e. some_text (no_start next (join chunks) e)))
        (piecewise (buffer ++ first) next chunks regrouped filled)

unread : (code : ℕ) → parse_complete_reply [] ≢ some code
unfolding parse_complete_reply
unread code = λ e. cc

-- Every reply arrives: nothing is taken for a reply before its last chunk.
pub IsReply-Arrives :
    (expected : List ℕ) (chunks : List Text) → IsReply expected chunks → Arrives expected [] chunks
unfolding join
IsReply-Arrives expected [] r =
    absurd (unread r.code (ap parse_complete_reply r.joined ∙ whole r.code r.text r.in_grammar))
IsReply-Arrives expected (first ∷ chunks) r =
    piecewise expected r.code r.text r.in_grammar r.is_expected [] first chunks r.joined r.filled.1

-- The reads that yield these chunks.
abbrev pub reads : List Text → List Read
reads chunks = map chunk chunks

read_loop-Arrives :
    (phase : Phase) (expected : List ℕ) (rest : List Read) {buffer : Text} {reply : List Text}
    → Arrives expected buffer reply
    → read_loop phase expected (reads reply ++ rest) buffer ≡ (done tt, rest, [])
unfolding read_loop
read_loop-Arrives phase expected rest (complete (code, parsed, member)) =
    rw (parsed, read_loop) (rw (member, read_loop) refl)
read_loop-Arrives phase expected rest (incomplete parsed later) =
    rw (parsed, read_loop) (read_loop-Arrives phase expected rest later)

pub read_reply-Runs :
    (phase : Phase) (expected : List ℕ) (reply : List Text)
    → Arrives expected [] reply
    → Runs (read_reply phase expected) (reads reply) []
unfolding read_reply
read_reply-Runs phase expected reply arrives s rest more ready = (
  tt,
  record s { inbox = rest; buffer = [] },
  rw (ready.inbox_is, ready.buffer_is_empty, read_loop-Arrives phase expected rest arrives) refl,
  record {
    inbox_is = refl;
    writes_are = ready.writes_are;
    upgrades = ready.upgrades;
    buffer_is_empty = refl;
  },
)

pub write-Runs : (phase : Phase) (payload : Text) → Runs (write phase payload) [] (true ∷ [])
unfolding write
write-Runs phase payload s rest more ready =
    let entry : Sent = record { secure = s.tls; phase = phase; payload = payload } in
    (
      tt,
      record s { writes = more; log = s.log ++ (entry ∷ []) },
      rw ready.writes_are refl,
      record {
        inbox_is = ready.inbox_is;
        writes_are = refl;
        upgrades = ready.upgrades;
        buffer_is_empty = ready.buffer_is_empty;
      },
    )

pub command-Runs :
    (phase : Phase) (text : Text) (expected : List ℕ) (reply : List Text)
    → Arrives expected [] reply
    → Runs (command phase text expected) (reads reply) (true ∷ [])
unfolding command
command-Runs phase text expected reply arrives =
    Runs-bind (write phase (text ++ crlf)) (λ _. read_reply phase expected) [] (reads reply)
      (true ∷ []) [] (write-Runs phase (text ++ crlf))
      (λ _. read_reply-Runs phase expected reply arrives)

pub upgrade_to_tls-Runs : Runs upgrade_to_tls [] []
unfolding upgrade_to_tls
upgrade_to_tls-Runs s rest more ready = (
  tt,
  record s { tls = true; buffer = [] },
  rw ready.upgrades refl,
  record {
    inbox_is = ready.inbox_is;
    writes_are = ready.writes_are;
    upgrades = ready.upgrades;
    buffer_is_empty = refl;
  },
)

pub quit_session-Runs :
    (reply : List Text) → Arrives (221 ∷ []) [] reply → Runs quit_session (reads reply) (true ∷ [])
unfolding quit_session close
quit_session-Runs reply arrives s rest more ready =
    let (a, s', e, ready') =
      command-Runs quit (codes "QUIT") (221 ∷ []) reply arrives s rest more ready in
    (
      tt,
      close s',
      ap quit_with e,
      record {
        inbox_is = ready'.inbox_is;
        writes_are = ready'.writes_are;
        upgrades = ready'.upgrades;
        buffer_is_empty = ready'.buffer_is_empty;
      },
    )
