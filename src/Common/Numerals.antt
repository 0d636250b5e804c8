-- ===== src/Common/Numerals.antt =====
-- `str(n)` of a number.
use Prim.Native.Char.{Char, code}
use Prim.Native.Nat.{ℕ, zero, suc, ◌+◌, ◌-◌, ◌*◌, ◌/◌, ◌<◌}
use Prim.Native.String.{String, [], ◌∷◌, ◌++◌, char_at}
use mathlib.Core.Logic.{inl, inr}
use text.Mathlib.TextLemmas.{nil-append, cons-append}
use mathlib.Core.Bool.{true, false}
use mathlib.Core.Path.{◌≡◌, refl, sym, ap, ◌∙◌}
use native.Mathlib.Omega.{arith}
use auth_n_z.Common.Tests.{leb, if◌then◌else◌, Bool-cases}

digit : ℕ → Char
digit k = char_at "0123456789" k

-- the digits of a number, on fuel
digits : ℕ → ℕ → String
digits zero n = ""
digits (suc fuel) n =
    let rest = digits fuel (n / 10) in
    (if leb 10 n then rest else "") ++ (digit (n - n / 10 * 10) ∷ "")

-- a number has at most as many digits as it says, and one
pub show_nat : ℕ → String
show_nat n = digits (suc n) n

-- the number that digits write, after others
read : ℕ → String → ℕ
read n [] = n
read n (c ∷ s) = read (n * 10 + (code c - 48)) s

read-append : (n : ℕ) (s t : String) → read n (s ++ t) ≡ read (read n s) t
unfolding read
read-append n [] t = ap (read n) (nil-append t)
read-append n (c ∷ s) t = ap (read n) (cons-append c s t) ∙ read-append (n * 10 + (code c - 48)) s t

code-digit : (k : ℕ) → k < 10 → code (digit k) - 48 ≡ k
unfolding digit
code-digit zero h = refl
code-digit (suc zero) h = refl
code-digit (suc (suc zero)) h = refl
code-digit (suc (suc (suc zero))) h = refl
code-digit (suc (suc (suc (suc zero)))) h = refl
code-digit (suc (suc (suc (suc (suc zero))))) h = refl
code-digit (suc (suc (suc (suc (suc (suc zero)))))) h = refl
code-digit (suc (suc (suc (suc (suc (suc (suc zero))))))) h = refl
code-digit (suc (suc (suc (suc (suc (suc (suc (suc zero)))))))) h = refl
code-digit (suc (suc (suc (suc (suc (suc (suc (suc (suc zero))))))))) h = refl
code-digit (suc (suc (suc (suc (suc (suc (suc (suc (suc (suc k)))))))))) h = omega arith

digits_more :
    (fuel n : ℕ)
    → leb 10 n ≡ true
    → digits (suc fuel) n ≡ digits fuel (n / 10) ++ (digit (n - n / 10 * 10) ∷ "")
unfolding digits
digits_more fuel n more = rw (more) refl

digits_last : (fuel n : ℕ) → leb 10 n ≡ false → digits (suc fuel) n ≡ digit (n - n / 10 * 10) ∷ ""
unfolding digits
digits_last fuel n last = rw (last) (nil-append (digit (n - n / 10 * 10) ∷ ""))

read-digits : (fuel n : ℕ) → n < fuel → read 0 (digits fuel n) ≡ n
unfolding read
read-digits zero n h = omega arith
read-digits (suc fuel) n h = elim (Bool-cases (leb 10 n)) [
  | inl more ↦
      let large : 9 < n = ground arith in
      rw (digits_more fuel n more, read-append)
        (omega (
          arith,
          read-digits fuel (n / 10) (omega arith),
          code-digit (n - n / 10 * 10) (omega arith),
        ))
  | inr last ↦
      let small : n < 10 = ground arith in
      rw (digits_last fuel n last) (omega (arith, code-digit (n - n / 10 * 10) (omega arith)))
]

-- Two numbers that are written alike are one.
pub show_nat-inj : (n m : ℕ) → show_nat n ≡ show_nat m → n ≡ m
unfolding show_nat
show_nat-inj n m e =
    sym (read-digits (suc n) n (omega arith)) ∙ ap (read 0) e ∙ read-digits (suc m) m (omega arith)
