-- ===== src/Strings/Chars/Compare.antt =====
-- `strlen` and `strcmp` of lib/string.c on the strings that memory holds.
use vaelen.Prelude.{
  ==_same, ==_differ, ℕ, zero, suc, ◌+◌, ◌<◌, ◌≡◌, ◌≢◌, refl, ap, sym, ◌∙◌, Bool, true, false, ltb,
  ◌==◌, if◌then◌else◌, List, [], ◌∷◌, length, Option, none, some, arith, ◌↔◌, ℕ_discrete, subst,
  ap₂,
}
use vaelen.Prelude.Int.{ℤ, pos, ltb_ℤ}
use vaelen.Strings.{Bytes, byte_difference}
use vaelen.Strings.Chars.{length_from, strlen, strcmp}

-- The string at `p`: its bytes, none of them 0, and the terminator behind them.
abbrev pub Holds : Bytes → ℕ → List ℕ → Type 0
Holds m p [] = m p ≡ 0
Holds m p (c ∷ cs) = (m p ≡ c) × (c ≢ 0) × Holds m (p + 1) cs

length_from-Holds :
    (cs : List ℕ) (fuel s len : ℕ) (m : Bytes)
    → length cs < fuel
    → Holds m (s + len) cs
    → length_from fuel s len m ≡ some (len + length cs)
unfolding length_from
length_from-Holds cs zero s len m h holds = absurd (omega arith)
length_from-Holds [] (suc fuel) s len m h holds = rw holds (ap some (omega arith))
length_from-Holds (c ∷ cs) (suc fuel) s len m h (e, ne, rest) = rw e rw (==_differ c 0 ne) (
    length_from-Holds cs fuel s (len + 1) m (omega arith)
      (subst (λ q. Holds m q cs) (omega arith) rest)
    ∙ ap some (omega arith))

-- Which of two strings comes first in the order of their bytes, as unsigned numbers.
abbrev pub precedes : List ℕ → List ℕ → Bool
precedes [] [] = false
precedes [] (y ∷ ys) = true
precedes (x ∷ xs) [] = false
precedes (x ∷ xs) (y ∷ ys) = if x == y then precedes xs ys else ltb x y

-- The answer of `strcmp` for two strings.
abbrev pub Ordered : List ℕ → List ℕ → Option ℤ → Type 0
Ordered xs ys none = ⊥
Ordered xs ys (some r) = ((r ≡ pos 0) ↔ (xs ≡ ys)) × (ltb_ℤ r (pos 0) ≡ precedes xs ys)

pub strlen-Holds :
    (cs : List ℕ) (fuel s : ℕ) (m : Bytes)
    → length cs < fuel
    → Holds m s cs
    → strlen fuel s m ≡ some (length cs)
unfolding strlen
strlen-Holds cs fuel s m h holds =
    length_from-Holds cs fuel s 0 m h (subst (λ q. Holds m q cs) (omega arith) holds)
    ∙ ap some (omega arith)

-- Two strings whose first bytes differ.
Ordered-differ :
    (x y : ℕ) (xs ys : List ℕ) → x ≢ y → Ordered (x ∷ xs) (y ∷ ys) (some (byte_difference x y))
Ordered-differ x y xs ys ne =
    ((λ r. absurd (ground arith), λ q. absurd (ne (head q))), rw (==_differ x y ne) ground arith)
  where
    head : x ∷ xs ≡ y ∷ ys → x ≡ y
    head q = cc

Ordered-cons :
    (x y : ℕ) (xs ys : List ℕ) (o : Option ℤ)
    → x ≡ y
    → Ordered xs ys o
    → Ordered (x ∷ xs) (y ∷ ys) o
Ordered-cons x y xs ys none e none_right = none_right
Ordered-cons x y xs ys (some r) e (equal, order) =
    ((λ z. ap₂ ◌∷◌ e (equal.0 z), λ q. equal.1 (tail q)), rw (==_same x y e) order)
  where
    tail : x ∷ xs ≡ y ∷ ys → xs ≡ ys
    tail q = cc

Ordered-shorter : (y : ℕ) (ys : List ℕ) → y ≢ 0 → Ordered [] (y ∷ ys) (some (byte_difference 0 y))
Ordered-shorter y ys ne =
    ((λ r. absurd (ground arith), λ q. absurd (omega (arith, ap length q))), ground arith)

Ordered-longer : (x : ℕ) (xs : List ℕ) → x ≢ 0 → Ordered (x ∷ xs) [] (some (byte_difference x 0))
Ordered-longer x xs ne =
    ((λ r. absurd (ground arith), λ q. absurd (omega (arith, ap length q))), ground arith)

-- `strcmp` of two strings ends once it is given more rounds than the first has bytes; its answer is
-- 0 exactly when the strings are equal, and negative exactly when the first comes before the second
-- in the order of their bytes.
pub strcmp-Ordered :
    (xs ys : List ℕ) (fuel s1 s2 : ℕ) (m : Bytes)
    → Holds m s1 xs
    → Holds m s2 ys
    → length xs < fuel
    → Ordered xs ys (strcmp fuel s1 s2 m)
unfolding strcmp
strcmp-Ordered xs ys zero s1 s2 m hx hy h = absurd (omega arith)
strcmp-Ordered [] [] (suc fuel) s1 s2 m hx hy h = rw hx rw hy ((λ r. refl, λ q. refl), refl)
strcmp-Ordered [] (y ∷ ys) (suc fuel) s1 s2 m hx (e, ne, rest) h =
    rw hx rw e (Ordered-shorter y ys ne)
strcmp-Ordered (x ∷ xs) [] (suc fuel) s1 s2 m (e, ne, rest) hy h =
    rw e rw hy rw (==_differ x 0 ne) (Ordered-longer x xs ne)
strcmp-Ordered (x ∷ xs) (y ∷ ys) (suc fuel) s1 s2 m (ex, nx, restx) (ey, ny, resty) h =
    rw ex rw ey rw (==_differ x 0 nx) elim (ℕ_discrete x y) [
      | yes e ↦
          subst
            (λ b.
              Ordered (x ∷ xs) (y ∷ ys)
                (if b then strcmp fuel (s1 + 1) (s2 + 1) m else some (byte_difference x y)))
            (sym (==_same x y e))
            (Ordered-cons x y xs ys _ e
              (strcmp-Ordered xs ys fuel (s1 + 1) (s2 + 1) m restx resty (omega arith)))
      | no ne ↦
          subst
            (λ b.
              Ordered (x ∷ xs) (y ∷ ys)
                (if b then strcmp fuel (s1 + 1) (s2 + 1) m else some (byte_difference x y)))
            (sym (==_differ x y ne)) (Ordered-differ x y xs ys ne)
    ]
