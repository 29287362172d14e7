-- ===== src/Prelude/Codes.antt =====
-- Texts as lists of code points, with the tests that the code makes on strings.
use Prim.Native.Nat.{ℕ}
use Prim.Native.Char.{code}
use Prim.Native.String.{String}
use mathlib.Core.Path.{◌≡◌, refl}
use mathlib.Core.Logic.{◌↔◌}
use mathlib.Core.Bool.{Bool, true, false, ◌&&◌, ◌||◌}
use mathlib.Core.List.{List, [], ◌∷◌, ◌++◌}
use native.Mathlib.Omega.{arith}
use hook_tracker.Prelude.Tests.{◌==◌}

abbrev pub codes : String → List ℕ
codes String.[] = []
codes (String.◌∷◌ c s) = code c ∷ codes s

-- `a === b`
abbrev pub text_eq : List ℕ → List ℕ → Bool
text_eq [] [] = true
text_eq [] (b ∷ bs) = false
text_eq (a ∷ as') [] = false
text_eq (a ∷ as') (b ∷ bs) = a == b && text_eq as' bs

-- `s.startsWith(p)`
abbrev pub starts_with : List ℕ → List ℕ → Bool
starts_with [] s = true
starts_with (p ∷ ps) [] = false
starts_with (p ∷ ps) (c ∷ s) = p == c && starts_with ps s

-- `s.includes(c)` for one character.
abbrev pub includes : ℕ → List ℕ → Bool
includes c [] = false
includes c (d ∷ s) = d == c || includes c s

pub text_eq_iff : (a b : List ℕ) → (text_eq a b ≡ true) ↔ (a ≡ b)
text_eq_iff [] [] = (λ h. refl, λ h. refl)
text_eq_iff [] (b ∷ bs) = (λ h. cc, λ h. cc)
text_eq_iff (a ∷ as') [] = (λ h. cc, λ h. cc)
text_eq_iff (a ∷ as') (b ∷ bs) =
    (λ h. ground (arith, (text_eq_iff as' bs).0), λ h. ground (arith, (text_eq_iff as' bs).1))

pub starts_with-append : (p s : List ℕ) → starts_with p (p ++ s) ≡ true
starts_with-append [] s = refl
starts_with-append (p ∷ ps) s = ground (arith, starts_with-append ps s)

-- What follows the prefix.
pub starts_with-split : (p s : List ℕ) → starts_with p s ≡ true → (rest : List ℕ) × (s ≡ p ++ rest)
starts_with-split [] s h = (s, refl)
starts_with-split (p ∷ ps) [] h = cc
starts_with-split (p ∷ ps) (c ∷ s) h =
    let (rest, e) = starts_with-split ps s (ground arith) in (rest, ground arith)
