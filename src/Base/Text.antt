-- ===== src/Base/Text.antt =====
-- Texts and buffers are lists of bytes. A C string is what stands before the first NUL.
use Prim.Native.Nat.{ℕ}
use Prim.Native.Char.{code}
use Prim.Native.String.{String}
use mathlib.Core.Path.{◌≡◌, refl}
use mathlib.Core.Logic.{◌↔◌}
use mathlib.Core.Bool.{Bool, true, false, ◌&&◌}
use mathlib.Core.List.{List, [], ◌∷◌}
use native.Mathlib.Omega.{arith}
use security_addon.Base.Test.{◌==◌}

abbrev pub Bytes : Type 0
Bytes = List ℕ

abbrev pub codes : String → Bytes
codes String.[] = []
codes (String.◌∷◌ c s) = code c ∷ codes s

-- `!strcmp(a, b)`
unfoldable pub equal : (left right : Bytes) → Bool
equal (l ∷ left) (r ∷ right) = equal left right && l == r
equal (l ∷ left) [] = false
equal [] (r ∷ right) = false
equal [] [] = true

pub equal_iff : (left right : Bytes) → (equal left right ≡ true) ↔ (left ≡ right)
unfolding equal
equal_iff (l ∷ left) (r ∷ right) = ground (equal_iff left right, arith)
equal_iff (l ∷ left) [] = ground arith
equal_iff [] (r ∷ right) = ground arith
equal_iff [] [] = (λ _. refl, λ _. refl)

pub equal_refl : (text : Bytes) → equal text text ≡ true
equal_refl text = (equal_iff text text).1 refl
