-- ===== src/Prelude/Text.antt =====
-- C strings as the list of their bytes, without the terminator: text literals, and equality.
use Prim.Native.Char.{code}
use Prim.Native.String.{String}
use vaelen.Prelude.{ℕ, List, [], ◌∷◌, Bool, true, false, ◌&&◌, ◌==◌, ◌≡◌, refl, ap₂, arith}

abbrev pub bytes : String → List ℕ
bytes String.[] = []
bytes (String.◌∷◌ c s) = code c ∷ bytes s

-- `strcmp(a, b) == 0`
abbrev pub equal : List ℕ → List ℕ → Bool
equal [] [] = true
equal (a ∷ as') (b ∷ bs) = a == b && equal as' bs
equal _ _ = false

pub equal_sound : (xs ys : List ℕ) → equal xs ys ≡ true → xs ≡ ys
equal_sound [] [] same = refl
equal_sound [] (y ∷ ys) same = ground arith
equal_sound (x ∷ xs) [] same = ground arith
equal_sound (x ∷ xs) (y ∷ ys) same =
    ap₂ (λ c cs. c ∷ cs) (ground arith) (equal_sound xs ys (ground arith))

pub equal_refl : (xs : List ℕ) → equal xs xs ≡ true
equal_refl [] = refl
equal_refl (x ∷ xs) = ground (arith, equal_refl xs)
