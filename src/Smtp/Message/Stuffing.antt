-- ===== src/Smtp/Message/Stuffing.antt =====
-- Stuffing a text piece by piece: lines that need none, blocks, and joined lines.
use user_service_platform.Prelude.{
  ◌≡◌, refl, ◌∙◌, ap, sym, List, [], ◌∷◌, ◌++◌, All, append_assoc, arith, ◌≢◌,
}
use user_service_platform.Text.{Text}
use user_service_platform.Smtp.Encoding.{IsInline}
use user_service_platform.Smtp.Message.{
  Place, inside, behind_cr, at_start, advance, stuff_from, crlf, join_crlf,
}
use user_service_platform.Smtp.Message.Receive.{place_after}

pub place_after-append :
    (place : Place) (x y : Text) → place_after place (x ++ y) ≡ place_after (place_after place x) y
unfolding place_after
place_after-append place [] y = refl
place_after-append place (c ∷ x) y = place_after-append (advance place c) x y

stuff_from-append :
    (place : Place) (x y : Text)
    → stuff_from place (x ++ y) ≡ stuff_from place x ++ stuff_from (place_after place x) y
unfolding place_after stuff_from
stuff_from-append place [] y = refl
stuff_from-append place (c ∷ x) y = rw (stuff_from-append (advance place c) x y) (ground arith)

-- A text whose end is always the start of a line.
abbrev pub Closes : Text → Type 0
Closes y = (place : Place) → place_after place y ≡ at_start

pub crlf-Closes : Closes crlf
unfolding place_after advance
crlf-Closes inside = refl
crlf-Closes behind_cr = refl
crlf-Closes at_start = refl

pub append-Closes : (x y : Text) → Closes y → Closes (x ++ y)
append-Closes x y h place = place_after-append place x y ∙ h (place_after place x)

pub stuff_from-crlf :
    (place : Place) (y : Text) → stuff_from place (crlf ++ y) ≡ crlf ++ stuff_from at_start y
unfolding stuff_from advance
stuff_from-crlf inside y = refl
stuff_from-crlf behind_cr y = refl
stuff_from-crlf at_start y = refl

-- A line of the message that needs no stuffing.
abbrev pub NoDot : Text → Type 0
NoDot [] = Unit
NoDot (c ∷ s) = c ≢ b'.'

abbrev pub IsLine : Text → Type 0
IsLine x = All IsInline x × NoDot x

stuff_from_inside : (x : Text) → All IsInline x → stuff_from inside x ≡ x
unfolding stuff_from advance
stuff_from_inside [] h = refl
stuff_from_inside (c ∷ x) (p, h) = ground (arith, stuff_from_inside x h)

stuff_from_line : (x : Text) → IsLine x → stuff_from at_start x ≡ x
unfolding stuff_from advance
stuff_from_line [] h = refl
stuff_from_line (c ∷ x) ((p, h), n) = ground (arith, stuff_from_inside x h)

-- A body, then a line break: what follows starts a line.
pub stuff_from_block :
    (x y : Text)
    → stuff_from at_start (x ++ (crlf ++ y))
      ≡ stuff_from at_start x ++ (crlf ++ stuff_from at_start y)
stuff_from_block x y =
    stuff_from-append at_start x (crlf ++ y)
    ∙ ap (λ r. stuff_from at_start x ++ r) (stuff_from-crlf (place_after at_start x) y)

pub stuff_from_line_block :
    (x y : Text)
    → IsLine x
    → stuff_from at_start (x ++ (crlf ++ y)) ≡ x ++ (crlf ++ stuff_from at_start y)
stuff_from_line_block x y h =
    stuff_from_block x y ∙ ap (λ r. r ++ (crlf ++ stuff_from at_start y)) (stuff_from_line x h)

-- Lines that are joined and followed by a line break.
stuff_from-join_crlf :
    (line : Text) (lines : List Text) (y : Text)
    → All IsLine (line ∷ lines)
    → stuff_from at_start (join_crlf (line ∷ lines) ++ (crlf ++ y))
      ≡ join_crlf (line ∷ lines) ++ (crlf ++ stuff_from at_start y)
stuff_from-join_crlf line [] y (h, _) = stuff_from_line_block line y h
stuff_from-join_crlf line (next ∷ lines) y (h, hs) =
    ap (stuff_from at_start) (append_assoc line (crlf ++ join_crlf (next ∷ lines)) (crlf ++ y))
    ∙ stuff_from_line_block line (join_crlf (next ∷ lines) ++ (crlf ++ y)) h
    ∙ ap (λ r. line ++ (crlf ++ r)) (stuff_from-join_crlf next lines y hs)
    ∙ sym (append_assoc line (crlf ++ join_crlf (next ∷ lines)) (crlf ++ stuff_from at_start y))

abbrev pub IsFilled : List Text → Type 0
IsFilled [] = ⊥
IsFilled (_ ∷ _) = Unit

pub stuff_from_lines :
    (lines : List Text) (y : Text)
    → IsFilled lines
    → All IsLine lines
    → stuff_from at_start (join_crlf lines ++ (crlf ++ y))
      ≡ join_crlf lines ++ (crlf ++ stuff_from at_start y)
stuff_from_lines [] y f h = absurd f
stuff_from_lines (line ∷ lines) y f h = stuff_from-join_crlf line lines y h
