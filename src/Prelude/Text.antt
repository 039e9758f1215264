-- ===== src/Prelude/Text.antt =====
-- Text as a list of code points, and the operations on it that the program calls. The case
-- mappings are those of ASCII.
use Prim.Native.Char.{code}
use Prim.Native.String.{String}
use Prim.Native.Nat.{ℕ, ◌+◌, ◌-◌}
use mathlib.Core.Path.{◌≡◌, refl, sym, ap, ap₂, ◌∙◌}
use mathlib.Core.Logic.{◌↔◌}
use mathlib.Core.Bool.{Bool, true, false, ◌&&◌, ◌||◌}
use mathlib.Core.List.{List, [], ◌∷◌, ◌++◌}
use native.Mathlib.Omega.{arith}
use yacht_sql.Prelude.Tests.{◌==◌, leb, if◌then◌else◌}

abbrev pub Text : Type 0
Text = List ℕ

-- The code points of a literal.
abbrev pub codes : String → Text
codes String.[] = []
codes (String.◌∷◌ c s) = code c ∷ codes s

unfoldable pub text_eq : Text → Text → Bool
text_eq [] [] = true
text_eq (a ∷ s) (b ∷ t) = (a == b) && text_eq s t
text_eq _ _ = false

pub text_eq_sound : (s t : Text) → text_eq s t ≡ true → s ≡ t
unfolding text_eq
text_eq_sound [] [] h = refl
text_eq_sound [] (b ∷ t) h = cc
text_eq_sound (a ∷ s) [] h = cc
text_eq_sound (a ∷ s) (b ∷ t) h = ground (arith, text_eq_sound s t)

pub text_eq_refl : (s : Text) → text_eq s s ≡ true
unfolding text_eq
text_eq_refl [] = refl
text_eq_refl (a ∷ s) = ground (arith, text_eq_refl s)

pub text_eq_complete : (s t : Text) → s ≡ t → text_eq s t ≡ true
text_eq_complete s t e = ap (text_eq s) (sym e) ∙ text_eq_refl s

pub text_eq_iff : (s t : Text) → (text_eq s t ≡ true) ↔ (s ≡ t)
text_eq_iff s t = (text_eq_sound s t, text_eq_complete s t)

unfoldable pub upper_char : ℕ → ℕ
upper_char c = if leb b'a' c && leb c b'z' then c - 32 else c

unfoldable pub lower_char : ℕ → ℕ
lower_char c = if leb b'A' c && leb c b'Z' then c + 32 else c

-- s.to_uppercase()
unfoldable pub to_uppercase : Text → Text
unfolding upper_char
to_uppercase [] = []
to_uppercase (c ∷ s) = upper_char c ∷ to_uppercase s

-- s.to_lowercase()
unfoldable pub to_lowercase : Text → Text
unfolding lower_char
to_lowercase [] = []
to_lowercase (c ∷ s) = lower_char c ∷ to_lowercase s

-- a.eq_ignore_ascii_case(b)
unfoldable pub eq_ignore_ascii_case : Text → Text → Bool
unfolding text_eq to_lowercase
eq_ignore_ascii_case a b = text_eq (to_lowercase a) (to_lowercase b)

upper_char_idem : (c : ℕ) → upper_char (upper_char c) ≡ upper_char c
unfolding upper_char
upper_char_idem c = ground arith

pub to_uppercase_idem : (s : Text) → to_uppercase (to_uppercase s) ≡ to_uppercase s
unfolding to_uppercase
to_uppercase_idem [] = refl
to_uppercase_idem (c ∷ s) = ap₂ ◌∷◌ (upper_char_idem c) (to_uppercase_idem s)

pub to_uppercase-append : (s t : Text) → to_uppercase (s ++ t) ≡ to_uppercase s ++ to_uppercase t
unfolding to_uppercase
to_uppercase-append [] t = refl
to_uppercase-append (c ∷ s) t = ap (◌∷◌ (upper_char c)) (to_uppercase-append s t)

-- s.starts_with(prefix)
unfoldable pub starts_with : Text → Text → Bool
starts_with s [] = true
starts_with [] (p ∷ ps) = false
starts_with (c ∷ s) (p ∷ ps) = (c == p) && starts_with s ps

pub starts_with-append : (p s : Text) → starts_with (p ++ s) p ≡ true
unfolding starts_with
starts_with-append [] s = refl
starts_with-append (c ∷ p) s = ground (arith, starts_with-append p s)

-- s.ends_with(suffix)
unfoldable pub ends_with : Text → Text → Bool
unfolding text_eq
ends_with [] suffix = text_eq [] suffix
ends_with (c ∷ s) suffix = text_eq (c ∷ s) suffix || ends_with s suffix

-- key.contains('.')
unfoldable pub contains_dot : Text → Bool
contains_dot [] = false
contains_dot (c ∷ s) = (c == b'.') || contains_dot s

-- key.split('.').collect()
unfoldable pub split_dot : Text → List Text
split_dot [] = [] ∷ []
split_dot (c ∷ s) = let rest = split_dot s in if c == b'.' then [] ∷ rest else push_front c rest
  where
    push_front : ℕ → List Text → List Text
    push_front c [] = (c ∷ []) ∷ []
    push_front c (part ∷ parts) = (c ∷ part) ∷ parts

-- format!("{}.{}", a, b)
abbrev pub qualified : Text → Text → Text
qualified a b = a ++ b'.' ∷ b
