-- ===== src/Web/Address.antt =====
-- The addresses by which the web front end stores settings and publishes commands through webdis:
-- handleClick of packages/web/src/components/trade/ActionCard.js, handleDelete of ActiveOrderTable.js
-- beside it, updateService of packages/web/src/contexts/GlobalContext.js. What webdis receives of the
-- last part of an address, behind the browser, is a parameter.
pub mod Laws
pub mod Tests
use faculty_auxie_mm.Prelude.Text.{Text, codes}
use faculty_auxie_mm.Prelude.{◌≡◌, ◌∷◌, ◌++◌, ◌==◌, ◌||◌, [], false, Bool, ℕ, ltb, if◌then◌else◌}

-- `.replaceAll(/(?:\r\n|\r|\n)/g, '%0D%0A')`, where the flag says that a carriage return came before.
unfoldable pub escape_breaks : Bool → Text → Text
escape_breaks after_return [] = []
escape_breaks after_return (c ∷ t) =
    let rest = escape_breaks (c == 13) t in
    if c == 13
    then codes "%0D%0A" ++ rest
    else if c == 10
    then (if after_return then rest else codes "%0D%0A" ++ rest)
    else c ∷ rest

-- `.replaceAll(character, replacement)`
unfoldable pub replace_char : ℕ → Text → Text → Text
replace_char character replacement [] = []
replace_char character replacement (c ∷ t) =
    let rest = replace_char character replacement t in
    if c == character then replacement ++ rest else c ∷ rest

-- A command as it is published.
unfoldable pub escape_command : Text → Text
unfolding escape_breaks replace_char
escape_command json =
    replace_char b'.' (codes "%2E") (replace_char b'/' (codes "%2F") (escape_breaks false json))

-- Settings as they are stored.
unfoldable pub escape_settings : Text → Text
unfolding escape_command
escape_settings json = replace_char b'+' (codes "%2B") (escape_command json)

-- Characters that an address gives a meaning or that a browser drops or changes in it, of those that
-- the code does not replace: a backslash becomes a slash, a tab is dropped, and what is not of ASCII is
-- sent as bytes.
abbrev pub is_unsafe : ℕ → Bool
is_unsafe c = (c == b'%') || (c == b'#') || (c == b'?') || (c == 92) || ltb c 32 || ltb 126 c

abbrev pub is_special : ℕ → Bool
is_special c = is_unsafe c || (c == b'/') || (c == b'.') || (c == b'+')

pub record Webdis : Type 0 where
  pub received : Text → Text
  pub received-nil : received [] ≡ []
  pub received-plain : (c : ℕ) (t : Text) → is_special c ≡ false → received (c ∷ t) ≡ c ∷ received t
  pub received-return : (t : Text) → received (codes "%0D" ++ t) ≡ 13 ∷ received t
  pub received-feed : (t : Text) → received (codes "%0A" ++ t) ≡ 10 ∷ received t
  pub received-slash : (t : Text) → received (codes "%2F" ++ t) ≡ b'/' ∷ received t
  pub received-dot : (t : Text) → received (codes "%2E" ++ t) ≡ b'.' ∷ received t
  pub received-plus : (t : Text) → received (codes "%2B" ++ t) ≡ b'+' ∷ received t
