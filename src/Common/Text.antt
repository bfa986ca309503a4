-- ===== src/Common/Text.antt =====
-- C strings as lists of their bytes, without the terminator.
use Prim.Native.Char.{code}
use Prim.Native.String.{String}
use lpf.Common.{
  ℕ, ◌-◌, ◌≡◌, ◌≢◌, refl, ap, Bool, true, false, ◌&&◌, ◌==◌, List, [], ◌∷◌, length, take,
  Bool-cases, inl, inr, arith,
}

abbrev pub Text : Type 0
Text = List ℕ

-- The bytes of an ASCII literal.
abbrev pub text : String → Text
text String.[] = []
text (String.◌∷◌ c s) = code c ∷ text s

-- `strcmp(a, b) == 0`
unfoldable pub same_string : Text → Text → Bool
same_string [] [] = true
same_string [] (y ∷ ys) = false
same_string (x ∷ xs) [] = false
same_string (x ∷ xs) (y ∷ ys) = x == y && same_string xs ys

-- `strstarts(s, prefix)`
unfoldable pub starts_with : Text → Text → Bool
starts_with s [] = true
starts_with [] (p ∷ ps) = false
starts_with (c ∷ s) (p ∷ ps) = c == p && starts_with s ps

-- `strscpy(dest, s, n)`: at most `n - 1` bytes are kept.
abbrev pub strscpy : ℕ → Text → Text
strscpy n s = take (n - 1) s

pub same_string_refl : (n : List ℕ) → same_string n n ≡ true
unfolding same_string
same_string_refl [] = refl
same_string_refl (x ∷ xs) = ground (arith, same_string_refl xs)

pub same_string-eq : (n m : List ℕ) → same_string n m ≡ true → n ≡ m
unfolding same_string
same_string-eq [] [] h = refl
same_string-eq [] (y ∷ ys) h = cc
same_string-eq (x ∷ xs) [] h = cc
same_string-eq (x ∷ xs) (y ∷ ys) h = ground (arith, same_string-eq xs ys)

pub same_string-length : (n m : List ℕ) → length n ≢ length m → same_string n m ≡ false
same_string-length n m ne = elim (Bool-cases (same_string n m)) [
  | inl e ↦ absurd (ne (ap length (same_string-eq n m e)))
  | inr e ↦ e
]
