-- ===== src/Web/Address/Tests.antt =====
-- A webdis that decodes what follows a `%`, and a line of a command.
use faculty_auxie_mm.Web.Address.Laws.{with_breaks, HasNoPlus, received-escape}
use faculty_auxie_mm.Web.Address.{is_special, Webdis, escape_settings, escape_command}
use faculty_auxie_mm.Prelude.Text.{Text, codes}
use faculty_auxie_mm.Prelude.{
  ◌∷◌, ◌==◌, ◌+◌, ◌-◌, ◌*◌, [], ℕ, if◌then◌else◌, ltb, ◌≡◌, ◌++◌, true, false, refl, arith,
}

abbrev pub digit : ℕ → ℕ
digit c = if ltb c b'A' then c - b'0' else c - b'A' + 10

abbrev pub decoded : Text → Text
decoded [] = []
decoded (c ∷ []) = c ∷ []
decoded (c ∷ d ∷ []) = c ∷ decoded (d ∷ [])
decoded (c ∷ d ∷ e ∷ t) = elim (c == b'%') [
  | true ↦ (digit d * 16 + digit e) ∷ decoded t
  | false ↦ c ∷ decoded (d ∷ e ∷ t)
]

pub decoded-plain : (c : ℕ) (t : Text) → is_special c ≡ false → decoded (c ∷ t) ≡ c ∷ decoded t
decoded-plain c [] h = refl
decoded-plain c (d ∷ []) h = refl
decoded-plain c (d ∷ e ∷ t) h =
    let other : (c == b'%') ≡ false = ground (arith, h) in rw (other, decoded) refl

abbrev pub decoding_webdis : Webdis
decoding_webdis = record {
  received = decoded;
  received-nil = refl;
  received-plain = decoded-plain;
  received-return = λ t. refl;
  received-feed = λ t. refl;
  received-slash = λ t. refl;
  received-dot = λ t. refl;
  received-plus = λ t. refl;
}

abbrev line : Text
line = codes "ETH/BTC" ++ 10 ∷ codes "1.5"

received-escape_example :
    (decoding_webdis.received (escape_settings line) ≡ with_breaks false line)
    × (HasNoPlus line → decoding_webdis.received (escape_command line) ≡ with_breaks false line)
received-escape_example = received-escape decoding_webdis line (ground arith)

escaped_line : escape_command line ≡ codes "ETH%2FBTC%0D%0A1%2E5"
unfolding escape_command
escaped_line = refl
