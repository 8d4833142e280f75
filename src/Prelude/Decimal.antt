-- ===== src/Prelude/Decimal.antt =====
-- `f"{n:012d}"`: a number in decimal, padded with zeros to at least twelve digits.
use Prim.Native.Char.{Char, code}
use Prim.Native.String.{String, [], ◌∷◌}
use Prim.Native.Nat.{ℕ, zero, suc, ◌+◌, ◌-◌, ◌*◌, ◌/◌, ◌%◌, ◌≤◌, ◌<◌}
use mathlib.Core.Path.{◌≡◌, refl, sym, ap, ◌∙◌}
use mathlib.Core.Bool.{◌&&◌}
use mathlib.Core.Logic.{inl, inr}
use native.Mathlib.Omega.{arith}
use atlas_db_agent.Prelude.Tests.{◌==◌, if◌then◌else◌, Bool-cases}

digit : ℕ → Char
digit zero = "0"
digit (suc zero) = "1"
digit (suc (suc zero)) = "2"
digit (suc (suc (suc zero))) = "3"
digit (suc (suc (suc (suc zero)))) = "4"
digit (suc (suc (suc (suc (suc zero))))) = "5"
digit (suc (suc (suc (suc (suc (suc zero)))))) = "6"
digit (suc (suc (suc (suc (suc (suc (suc zero))))))) = "7"
digit (suc (suc (suc (suc (suc (suc (suc (suc zero)))))))) = "8"
digit (suc (suc (suc (suc (suc (suc (suc (suc (suc r))))))))) = "9"

-- The digits of `n` in front of `s`, while there are digits or `width` asks for zeros; one round
-- of the fuel makes one digit.
digits_onto : ℕ → ℕ → ℕ → String → String
unfolding digit
digits_onto zero width n s = s
digits_onto (suc fuel) width n s =
    let more = digits_onto fuel (width - 1) (n / 10) (digit (n % 10) ∷ s) in
    if width == 0 && n == 0 then s else more

-- A number is less than ten to its own power, so `12 + n` rounds are enough.
pub padded12 : ℕ → String
unfolding digits_onto
padded12 n = digits_onto (12 + n) 12 n []

-- The number that a text of digits stands for, behind the digits already read.
read : String → ℕ → ℕ
read [] a = a
read (c ∷ s) a = read s (a * 10 + (code c - 48))

code-digit : (d : ℕ) → d < 10 → code (digit d) - 48 ≡ d
unfolding digit
code-digit zero h = refl
code-digit (suc zero) h = refl
code-digit (suc (suc zero)) h = refl
code-digit (suc (suc (suc zero))) h = refl
code-digit (suc (suc (suc (suc zero)))) h = refl
code-digit (suc (suc (suc (suc (suc zero))))) h = refl
code-digit (suc (suc (suc (suc (suc (suc zero)))))) h = refl
code-digit (suc (suc (suc (suc (suc (suc (suc zero))))))) h = refl
code-digit (suc (suc (suc (suc (suc (suc (suc (suc zero)))))))) h = refl
code-digit (suc (suc (suc (suc (suc (suc (suc (suc (suc r))))))))) h = omega arith

read_digit : (n : ℕ) → n / 10 * 10 + (code (digit (n % 10)) - 48) ≡ n
read_digit n = omega (arith, code-digit (n % 10) (omega arith))

read-digits_onto :
    (fuel width n : ℕ) (s : String) → n ≤ fuel → read (digits_onto fuel width n s) 0 ≡ read s n
unfolding digits_onto read
read-digits_onto zero width n s h = ap (read s) (omega arith)
read-digits_onto (suc fuel) width n s h = elim (Bool-cases (width == 0 && n == 0)) [
  | inl stop ↦ rw stop (ap (read s) (ground arith))
  | inr more ↦ rw more (
      read-digits_onto fuel (width - 1) (n / 10) (digit (n % 10) ∷ s) (omega arith)
      ∙ ap (read s) (read_digit n))
]

-- Different numbers are printed differently.
pub padded12_injective : (n m : ℕ) → padded12 n ≡ padded12 m → n ≡ m
unfolding padded12 read
padded12_injective n m h =
    sym (read-digits_onto (12 + n) 12 n [] (omega arith))
    ∙ ap (λ s. read s 0) h
    ∙ read-digits_onto (12 + m) 12 m [] (omega arith)

padded12_small : padded12 42 ≡ "000000000042"
unfolding padded12
padded12_small = refl
