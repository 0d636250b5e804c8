-- ===== src/Common/Text.antt =====
-- Python's `str` methods that the program calls, over ASCII: `lower`, `strip`, `endswith`, slices
-- and `split` at a character.
use Prim.Native.Char.{Char, code}
use Prim.Native.Nat.{ℕ, zero, suc, ◌-◌}
use Prim.Native.String.{String, [], ◌∷◌, char_at}
use mathlib.Core.Bool.{Bool, false, ◌&&◌, ◌||◌}
use text.Mathlib.Text.{◌==◌, starts_with}
use auth_n_z.Common.Tests.{leb, nat_eq, if◌then◌else◌}

abbrev is_upper : Char → Bool
is_upper c = leb b'A' (code c) && leb (code c) b'Z'

lower_char : Char → Char
lower_char c = if is_upper c then char_at "abcdefghijklmnopqrstuvwxyz" (code c - b'A') else c

-- `s.lower()`
unfoldable pub lower : String → String
unfolding lower_char
lower [] = []
lower (c ∷ s) = lower_char c ∷ lower s

-- the characters that `strip()` removes: TAB to CR, FS to US, and the space
abbrev pub space : Char → Bool
space c = leb 9 (code c) && leb (code c) 13 || leb 28 (code c) && leb (code c) 32

-- the double quote of `strip('"')` and the single one of `strip("'")`
abbrev pub quotes : ℕ → Char → Bool
quotes q c = nat_eq (code c) q

strip_left : (Char → Bool) → String → String
strip_left drop? [] = []
strip_left drop? (c ∷ s) = let rest = strip_left drop? s in if drop? c then rest else c ∷ s

strip_right : (Char → Bool) → String → String
strip_right drop? [] = []
strip_right drop? (c ∷ s) =
    let rest = strip_right drop? s in if drop? c && rest == "" then "" else c ∷ rest

-- `s.strip()`
unfoldable pub strip : String → String
unfolding strip_left strip_right
strip s = strip_right space (strip_left space s)

-- `s.strip().strip('"').strip("'")`
pub strip_quotes : String → String
unfolding strip strip_left strip_right
strip_quotes s =
    let one_side = λ (q : ℕ) (t : String). strip_right (quotes q) (strip_left (quotes q) t) in
    one_side b'\'' (one_side b'"' (strip s))

-- `not s.strip()`
abbrev pub blank : String → Bool
blank s = strip s == ""

-- `s.endswith(t)`, for a `t` that is not empty
unfoldable pub ends_with : String → String → Bool
ends_with [] t = false
ends_with (c ∷ s) t = (c ∷ s) == t || ends_with s t

-- `s[:-1]`
unfoldable pub drop_last : String → String
drop_last [] = []
drop_last (c ∷ s) = if s == "" then "" else c ∷ drop_last s

-- `s[n:]`
unfoldable pub drop : ℕ → String → String
drop zero s = s
drop (suc n) [] = []
drop (suc n) (c ∷ s) = drop n s

-- `s.split(c, 1)[0]`: what stands before the first `c`, or all of `s`
unfoldable pub before : ℕ → String → String
before k [] = []
before k (c ∷ s) = if nat_eq (code c) k then "" else c ∷ before k s

-- `t in s`
unfoldable pub has_text : String → String → Bool
has_text t [] = t == ""
has_text t (c ∷ s) = starts_with (c ∷ s) t || has_text t s

-- `s.replace(c, "")`
unfoldable pub without : Char → String → String
without c [] = []
without c (d ∷ s) = let rest = without c s in if nat_eq (code d) (code c) then rest else d ∷ rest
