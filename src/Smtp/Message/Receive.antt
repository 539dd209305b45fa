-- ===== src/Smtp/Message/Receive.antt =====
-- The receiving side of DATA, as RFC 5321 4.5.2 describes it, independent of the client: a line
-- that is a single dot ends the mail, and a leading dot of any other line is removed.
use user_service_platform.Prelude.{
  ℕ, ◌≡◌, refl, [], ◌∷◌, ◌++◌, Option, none, some, ◌==◌, if◌then◌else◌, ◌&&◌, arith, Bool-cases,
  inl, inr, ◌∙◌, ap,
}
use user_service_platform.Text.{Text}
use user_service_platform.Smtp.Message.{
  Place, inside, behind_cr, at_start, advance, is_start, stuff_from,
}

pub data Reading : Type 0 where
  line : Place → Reading
  dotted dotted_cr : Reading

abbrev pub emit : ℕ → Option (Text × Text) → Option (Text × Text)
emit c none = none
emit c (some (mail, rest)) = some (c ∷ mail, rest)

-- The mail and what follows its terminator, or `none` while the terminator has not arrived.
pub receive_from : Reading → Text → Option (Text × Text)
receive_from reading [] = none
receive_from (line place) (c ∷ s) =
    let dot = receive_from dotted s in
    let more = emit c (receive_from (line (advance place c)) s) in
    if is_start place && c == b'.' then dot else more
receive_from dotted (c ∷ s) =
    let ending = receive_from dotted_cr s in
    let more = emit c (receive_from (line inside) s) in if c == 13 then ending else more
receive_from dotted_cr (c ∷ s) =
    let more = emit 13 (emit c (receive_from (line (advance behind_cr c)) s)) in
    if c == 10 then some ([], s) else more

pub receive : Text → Option (Text × Text)
receive s = receive_from (line at_start) s

unfoldable pub place_after : Place → Text → Place
place_after place [] = place
place_after place (c ∷ s) = place_after (advance place c) s

abbrev pub emit_all : Text → Option (Text × Text) → Option (Text × Text)
emit_all [] r = r
emit_all (c ∷ s) r = emit c (emit_all s r)

advance-dot : advance at_start b'.' ≡ inside
unfolding advance
advance-dot = refl

-- What the client stuffs, the receiver reads back, whatever follows.
pub receive_from-stuff_from :
    (place : Place) (x y : Text)
    → receive_from (line place) (stuff_from place x ++ y)
      ≡ emit_all x (receive_from (line (place_after place x)) y)
unfolding stuff_from place_after receive_from
receive_from-stuff_from place [] y = refl
receive_from-stuff_from inside (c ∷ x) y =
    ap (emit c) (receive_from-stuff_from (advance inside c) x y)
receive_from-stuff_from behind_cr (c ∷ x) y =
    ap (emit c) (receive_from-stuff_from (advance behind_cr c) x y)
receive_from-stuff_from at_start (c ∷ x) y = elim (Bool-cases (c == b'.')) [
  | inl dot ↦
      let c_dot : c ≡ b'.' = ground arith in
      rw (c_dot, advance-dot) (ap (emit b'.') (receive_from-stuff_from inside x y))
  | inr other ↦ ground (arith, receive_from-stuff_from (advance at_start c) x y)
]

emit_all-some : (x rest : Text) → emit_all x (some ([], rest)) ≡ some (x, rest)
emit_all-some [] rest = refl
emit_all-some (c ∷ x) rest = rw (emit_all-some x rest)

-- Stuffed text that ends in a line break, with the terminator behind it, is received whole; the
-- receiver stops behind the terminator.
pub receive-stuff_from :
    (x rest : Text)
    → place_after at_start x ≡ at_start
    → receive (stuff_from at_start x ++ (b'.' ∷ 13 ∷ 10 ∷ rest)) ≡ some (x, rest)
unfolding receive
receive-stuff_from x rest closed =
    receive_from-stuff_from at_start x (b'.' ∷ 13 ∷ 10 ∷ rest)
    ∙ rw closed (unfold receive_from in emit_all-some x rest)
