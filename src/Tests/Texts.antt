-- ===== src/Tests/Texts.antt =====
-- Strings of two and three bytes.
use mos_moody_hunter.Base.{ℕ, ◌≡◌, refl, none, some, List, [], ◌∷◌, arith}
use mos_moody_hunter.Strings.{negsuc, difference, strlen, strncmp, memcmp}
use mos_moody_hunter.Strings.Laws.{IsText}

abbrev abc : List ℕ
abc = b'a' ∷ b'b' ∷ b'c' ∷ []

abbrev abd : List ℕ
abd = b'a' ∷ b'b' ∷ b'd' ∷ []

abc-IsText : IsText abc
abc-IsText = (λ e. omega (arith, e), (λ e. omega (arith, e), (λ e. omega (arith, e), tt)))

abd-IsText : IsText abd
abd-IsText = (λ e. omega (arith, e), (λ e. omega (arith, e), (λ e. omega (arith, e), tt)))

strncmp_less : strncmp abc abd 3 ≡ some (negsuc 0)
unfolding strncmp difference
strncmp_less = refl

memcmp_out : memcmp abc abd 4 ≡ some (negsuc 0)
unfolding memcmp difference
memcmp_out = refl

unterminated : strlen abc ≡ none
unfolding strlen
unterminated = refl
