-- ===== src/Web/Address/Laws.antt =====
-- What webdis receives of an address that the web front end builds (packages/web/src/components/trade/
-- ActionCard.js, packages/web/src/contexts/GlobalContext.js).
use faculty_auxie_mm.Web.Address.{
  escape_breaks, replace_char, escape_command, escape_settings, Webdis, is_unsafe,
}
use faculty_auxie_mm.Prelude.Text.{Text, codes}
use faculty_auxie_mm.Prelude.{
  ◌≡◌, ◌∷◌, ◌++◌, ◌==◌, ◌||◌, ◌∙◌, [], true, false, Bool, ℕ, if◌then◌else◌, All, ap, Bool-cases,
  inl, inr, arith, refl, ==_iff, sym, not,
}

-- A text with each line break as a carriage return and a line feed; the flag says that a carriage
-- return came before.
abbrev pub with_breaks : Bool → Text → Text
with_breaks after_return [] = []
with_breaks after_return (c ∷ t) =
    let rest = with_breaks (c == 13) t in
    if c == 13
    then 13 ∷ 10 ∷ rest
    else if c == 10
    then (if after_return then rest else 13 ∷ 10 ∷ rest)
    else c ∷ rest

-- Line breaks, and no other character that does not reach webdis as it is.
abbrev pub IsSafe : Text → Type 0
IsSafe = All (λ c. (c == 13) || (c == 10) || not (is_unsafe c) ≡ true)

abbrev pub HasNoPlus : Text → Type 0
HasNoPlus = All (λ c. (c == b'+') ≡ false)

HasNoPlus-append : (s t : Text) → HasNoPlus s → HasNoPlus t → HasNoPlus (s ++ t)
HasNoPlus-append [] t h k = k
HasNoPlus-append (c ∷ s) t h k = (h.0, HasNoPlus-append s t h.1 k)

replace_char-HasNoPlus :
    (character : ℕ) (replacement t : Text)
    → HasNoPlus replacement
    → HasNoPlus t
    → HasNoPlus (replace_char character replacement t)
unfolding replace_char
replace_char-HasNoPlus character replacement [] r h = tt
replace_char-HasNoPlus character replacement (c ∷ t) r h =
    let rest = replace_char-HasNoPlus character replacement t r h.1 in
    elim (Bool-cases (c == character)) [
      | inl same ↦ rw same (HasNoPlus-append replacement _ r rest)
      | inr other ↦ rw other (h.0, rest)
    ]

HasNoPlus-if : (b : Bool) (s t : Text) → HasNoPlus s → HasNoPlus t → HasNoPlus (if b then s else t)
HasNoPlus-if true s t h k = h
HasNoPlus-if false s t h k = k

HasNoPlus-break : (t : Text) → HasNoPlus t → HasNoPlus (codes "%0D%0A" ++ t)
HasNoPlus-break t h = (refl, (refl, (refl, (refl, (refl, (refl, h))))))

escape_breaks-HasNoPlus :
    (after_return : Bool) (t : Text) → HasNoPlus t → HasNoPlus (escape_breaks after_return t)
unfolding escape_breaks
escape_breaks-HasNoPlus after_return [] h = tt
escape_breaks-HasNoPlus after_return (c ∷ t) h =
    let rest = escape_breaks-HasNoPlus (c == 13) t h.1 in
    let broken = HasNoPlus-break (escape_breaks (c == 13) t) rest in
    HasNoPlus-if (c == 13) _ _ broken
      (HasNoPlus-if (c == 10) _ _ (HasNoPlus-if after_return _ _ rest broken) (h.0, rest))

replace_plus-HasNoPlus : (replacement t : Text) → HasNoPlus t → replace_char b'+' replacement t ≡ t
unfolding replace_char
replace_plus-HasNoPlus replacement [] h = refl
replace_plus-HasNoPlus replacement (c ∷ t) h =
    rw (h.0, replace_plus-HasNoPlus replacement t h.1) refl

module _ (w : Webdis) where
  received-break : (t : Text) → w.received (codes "%0D%0A" ++ t) ≡ 13 ∷ 10 ∷ w.received t
  received-break t = w.received-return (codes "%0A" ++ t) ∙ ap (λ r. 13 ∷ r) (w.received-feed t)

  -- The replacements behind the one of line breaks.
  abbrev replaced : Text → Text
  replaced t =
      replace_char b'+' (codes "%2B")
        (replace_char b'.' (codes "%2E") (replace_char b'/' (codes "%2F") t))

  received-char :
      (c : ℕ) (t : Text)
      → is_unsafe c ≡ false
      → w.received (replaced (c ∷ t)) ≡ c ∷ w.received (replaced t)
  unfolding replace_char
  received-char c t h = elim (Bool-cases (c == b'/')) [
    | inl slash ↦ rw ((==_iff c b'/').0 slash) (w.received-slash (replaced t))
    | inr not_slash ↦ elim (Bool-cases (c == b'.')) [
      | inl dot ↦ rw ((==_iff c b'.').0 dot) (w.received-dot (replaced t))
      | inr not_dot ↦ elim (Bool-cases (c == b'+')) [
        | inl plus ↦ rw ((==_iff c b'+').0 plus) (w.received-plus (replaced t))
        | inr not_plus ↦
            rw (not_slash, not_dot, not_plus)
              (w.received-plain c (replaced t) (ground (arith, h, not_slash, not_dot, not_plus)))
      ]
    ]
  ]

  received-feed_break :
      (after_return : Bool) (t : Text)
      → w.received (replaced (escape_breaks false t)) ≡ with_breaks false t
      → w.received (
          replaced (
            if after_return
            then escape_breaks false t
            else codes "%0D%0A" ++ escape_breaks false t))
        ≡ (if after_return then with_breaks false t else 13 ∷ 10 ∷ with_breaks false t)
  unfolding replace_char
  received-feed_break true t h = h
  received-feed_break false t h =
      received-break (replaced (escape_breaks false t)) ∙ ap (λ r. 13 ∷ 10 ∷ r) h

  received-settings :
      (after_return : Bool) (t : Text)
      → IsSafe t
      → w.received (replaced (escape_breaks after_return t)) ≡ with_breaks after_return t
  unfolding escape_breaks replace_char
  received-settings after_return [] h = w.received-nil
  received-settings after_return (c ∷ t) h = elim (Bool-cases (c == 13)) [
    | inl return ↦ rw return (
        received-break (replaced (escape_breaks true t))
        ∙ ap (λ r. 13 ∷ 10 ∷ r) (received-settings true t h.1))
    | inr not_return ↦ elim (Bool-cases (c == 10)) [
      | inl feed ↦
          rw (not_return, feed) (received-feed_break after_return t (received-settings false t h.1))
      | inr not_feed ↦
          rw (not_return, not_feed)
            (received-char c (escape_breaks false t) (ground (arith, h.0, not_return, not_feed))
              ∙ ap (λ r. c ∷ r) (received-settings false t h.1))
    ]
  ]

  -- Of settings webdis receives the JSON that was to be stored, with a carriage return and a line feed
  -- for each line break, if its characters are line breaks and printable ones of ASCII but
  -- `%`, `#`, `?` and the backslash; of a command it receives its JSON likewise, if it
  -- has no `+` either.
  pub received-escape :
      (json : Text)
      → IsSafe json
      → (w.received (escape_settings json) ≡ with_breaks false json)
        × (HasNoPlus json → w.received (escape_command json) ≡ with_breaks false json)
  unfolding escape_settings escape_command
  received-escape json h =
      let settings = received-settings false json h in
      (
        settings,
        λ k. ap w.received (sym (replace_plus-HasNoPlus (codes "%2B") _ (no_plus k))) ∙ settings,
      )
    where
      no_plus :
          HasNoPlus json
          → HasNoPlus (
              replace_char b'.'
                (codes "%2E")
                (replace_char b'/' (codes "%2F") (escape_breaks false json)))
      no_plus k =
          replace_char-HasNoPlus b'.' (codes "%2E") _ (refl, (refl, (refl, tt)))
            (replace_char-HasNoPlus b'/' (codes "%2F") _ (refl, (refl, (refl, tt)))
              (escape_breaks-HasNoPlus false json k))
