-- ===== src/Types/Strings.antt =====
-- The strings that the types normalise, as lists of ASCII code points: `str.upper`, and the test
-- `not s.strip()`.
use unified_trading_executio.Base.{
  ℕ, ◌-◌, ◌≡◌, refl, Bool, true, false, ◌&&◌, ◌||◌, List, [], ◌∷◌, arith, leb, if◌then◌else◌,
  Option, none, some,
}

abbrev pub Text : Type 0
Text = List ℕ

unfoldable pub upper_char : ℕ → ℕ
upper_char c = if leb 97 c && leb c 122 then c - 32 else c

unfoldable pub upper : Text → Text
unfolding upper_char
upper [] = []
upper (c ∷ s) = upper_char c ∷ upper s

unfoldable pub is_space : ℕ → Bool
is_space c = (leb 9 c && leb c 13) || (leb 28 c && leb c 32)

-- `not s.strip()`
unfoldable pub is_blank : Text → Bool
unfolding is_space
is_blank [] = true
is_blank (c ∷ s) = is_space c && is_blank s

upper_char-upper_char : (c : ℕ) → upper_char (upper_char c) ≡ upper_char c
unfolding upper_char
upper_char-upper_char c = ground arith

pub upper-upper : (s : Text) → upper (upper s) ≡ upper s
unfolding upper
upper-upper [] = refl
upper-upper (c ∷ s) = cc (upper_char-upper_char c, upper-upper s)

-- `s.upper() if s is not None else None`
abbrev pub upper_optional : Option Text → Option Text
upper_optional none = none
upper_optional (some s) = some (upper s)

abbrev pub is_blank_optional : Option Text → Bool
is_blank_optional none = false
is_blank_optional (some s) = is_blank s

pub upper_optional-upper_optional :
    (o : Option Text) → upper_optional (upper_optional o) ≡ upper_optional o
upper_optional-upper_optional none = refl
upper_optional-upper_optional (some s) = cc (upper-upper s)
