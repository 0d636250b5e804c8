-- ===== src/Common/Members.antt =====
-- Python's `set` of strings, and `in` on a list of strings.
use Prim.Native.String.{String, ◌++◌ as text_append}
use mathlib.Core.Path.{◌≡◌, refl}
use mathlib.Core.Bool.{Bool, false, ◌||◌, ◌&&◌, not}
use mathlib.Core.Option.{Option, none, some}
use mathlib.Core.List.{List, [], ◌∷◌, ◌++◌}
use native.Mathlib.Omega.{arith}
use text.Mathlib.Text.{◌==◌}
use text.Mathlib.TextEquality.{eq_iff}
use auth_n_z.Common.Tests.{if◌then◌else◌}

-- `x in xs`
unfoldable pub contains : String → List String → Bool
contains x [] = false
contains x (y ∷ ys) = y == x || contains x ys

-- `s.add(x)`
unfoldable pub add : String → List String → List String
unfolding contains
add x s = if contains x s then s else x ∷ s

-- `s.discard(x)`
unfoldable pub discard : String → List String → List String
discard x [] = []
discard x (y ∷ ys) = let rest = discard x ys in if y == x then rest else y ∷ rest

pub contains-add :
    (x y : String) (s : List String) → contains y (add x s) ≡ (x == y || contains y s)
unfolding add
contains-add x y s = ground (arith, eq_iff x y)

pub contains-append :
    (x : String) (xs ys : List String) → contains x (xs ++ ys) ≡ (contains x xs || contains x ys)
unfolding contains
contains-append x [] ys = refl
contains-append x (y ∷ xs) ys = ground (arith, contains-append x xs ys)

pub contains-discard :
    (x y : String) (s : List String) → contains y (discard x s) ≡ (not (x == y) && contains y s)
unfolding contains discard
contains-discard x y [] = ground arith
contains-discard x y (z ∷ s) =
    ground (arith, eq_iff x y, eq_iff z x, eq_iff z y, contains-discard x y s)

pub ruleset member_laws = (contains-add, contains-append, contains-discard)

-- `a or d`
abbrev pub text_or : Option String → String → String
text_or none d = d
text_or (some a) d = if a == "" then d else a

-- `"".join(ss)`
unfoldable pub concat : List String → String
concat [] = ""
concat (s ∷ ss) = text_append s (concat ss)
