-- ===== src/Smtp/Address/Laws.antt =====
-- What passes the checks of host names and addresses stays on one line.
use user_service_platform.Prelude.{
  ℕ, ◌≡◌, refl, ap, true, [], ◌∷◌, ◌++◌, All, All-append, all, arith, ok, Bool, Bool-cases, inl,
  inr, get_or,
}
use user_service_platform.Text.{Text, is_space, trim}
use user_service_platform.Smtp.{Field}
use user_service_platform.Smtp.Encoding.{IsInline}
use user_service_platform.Smtp.Message.{sanitize_header}
use user_service_platform.Smtp.Address.{
  is_alnum, is_host_char, matches_host, sanitize_helo, is_plain, span_plain, angled, is_domain,
  is_address, is_address_of, extract_envelope_address,
}

module _ (p : ℕ → Bool) (sound : (c : ℕ) → p c ≡ true → IsInline c) where
  all-IsInline : (s : Text) → all p s ≡ true → All IsInline s
  all-IsInline [] h = tt
  all-IsInline (c ∷ s) h = ground (arith, sound c, all-IsInline s)

is_alnum-IsInline : (c : ℕ) → is_alnum c ≡ true → IsInline c
unfolding is_alnum
is_alnum-IsInline c h = ground arith

is_host_char-IsInline : (c : ℕ) → is_host_char c ≡ true → IsInline c
unfolding is_host_char
is_host_char-IsInline c h = ground (arith, is_alnum-IsInline c)

pub matches_host-IsInline : (most : ℕ) (s : Text) → matches_host most s ≡ true → All IsInline s
unfolding matches_host
matches_host-IsInline most [] h = tt
matches_host-IsInline most (c ∷ []) h = (is_alnum-IsInline c h, tt)
matches_host-IsInline most (c ∷ d ∷ s) h =
    ground (arith, is_alnum-IsInline c, all-IsInline is_host_char is_host_char-IsInline (d ∷ s))

-- A name that may stand in EHLO holds no line break.
pub sanitize_helo-IsInline : (value helo : Text) → sanitize_helo value ≡ ok helo → All IsInline helo
unfolding sanitize_helo
sanitize_helo-IsInline value helo h = elim (Bool-cases (matches_host 253 (sanitize_header value))) [
  | inl passed ↦
      let same : sanitize_header value ≡ helo = ground arith in
      rw same at (matches_host-IsInline 253 (sanitize_header value) passed)
  | inr refused ↦ ground arith
]

is_plain-IsInline : (c : ℕ) → is_plain c ≡ true → IsInline c
unfolding is_plain is_space
is_plain-IsInline c h = ground arith

span_plain_sound :
    (s : Text) → (s ≡ (span_plain s).0 ++ (span_plain s).1) × All IsInline (span_plain s).0
unfolding span_plain
span_plain_sound [] = (refl, tt)
span_plain_sound (c ∷ s) = elim (Bool-cases (is_plain c)) [
  | inl plain ↦
      let (same, inline) = span_plain_sound s in
      rw plain (ap (λ r. c ∷ r) same, (is_plain-IsInline c plain, inline))
  | inr other ↦ rw other (refl, tt)
]

is_domain-IsInline : (s : Text) → is_domain s ≡ true → All IsInline s
is_domain-IsInline [] h = tt
is_domain-IsInline (c ∷ s) h = all-IsInline is_plain is_plain-IsInline (c ∷ s) (ground arith)

is_address_of-IsInline :
    (r : Text × Text) → is_address_of r ≡ true → All IsInline r.0 → All IsInline (r.0 ++ r.1)
is_address_of-IsInline ([], rest) h k = cc
is_address_of-IsInline (c ∷ local, []) h k = All-append IsInline (c ∷ local) [] k tt
is_address_of-IsInline (c ∷ local, e ∷ domain) h k =
    All-append IsInline (c ∷ local) (e ∷ domain) k
      (ground arith, is_domain-IsInline domain (ground arith))

is_address-IsInline : (s : Text) → is_address s ≡ true → All IsInline s
unfolding is_address
is_address-IsInline s h =
    let (same, inline) = span_plain_sound s in
    rw (← same) at (is_address_of-IsInline (span_plain s) h inline)

-- An address that may stand in MAIL FROM or RCPT TO holds no line break.
pub extract_envelope_address-IsInline :
    (value : Text) (field : Field) (address : Text)
    → extract_envelope_address value field ≡ ok address
    → All IsInline address
unfolding extract_envelope_address
extract_envelope_address-IsInline value field address h =
    elim (Bool-cases (is_address (trim (get_or (angled value) value)))) [
      | inl passed ↦
          let same : trim (get_or (angled value) value) ≡ address = ground arith in
          rw same at (is_address-IsInline (trim (get_or (angled value) value)) passed)
      | inr refused ↦ ground arith
    ]
