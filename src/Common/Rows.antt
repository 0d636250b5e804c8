-- ===== src/Common/Rows.antt =====
-- The tables of the database: a table is the list of its rows, a query goes through them in order,
-- and a transaction that raises leaves them as they were.
use Prim.Native.Nat.{ℕ, suc, ◌≤◌, ◌<◌}
use Prim.Native.String.{String}
use mathlib.Core.Path.{◌≡◌, refl}
use mathlib.Core.Logic.{◌⊎◌, inl, inr}
use mathlib.Core.Bool.{Bool, true, false, ◌&&◌}
use mathlib.Core.Option.{Option, none, some}
use mathlib.Core.List.{List, [], ◌∷◌}
use native.Mathlib.Omega.{arith}
use auth_n_z.Common.Tests.{if◌then◌else◌, is_some, ltb, length}

-- the result of an operation that may raise
pub data Reply {ℓ} (A : Type ℓ) : Type ℓ where
  ok : A → Reply A
  raised : String → Reply A

infixl 5 ◌>>=◌
abbrev pub ◌>>=◌ {ℓ κ} : {A : Type ℓ} {B : Type κ} → Reply A → (A → Reply B) → Reply B
ok a >>= f = f a
raised e >>= f = raised e

module _ {ℓ} {A : Type ℓ} where
  -- `select(…).where(p)`
  unfoldable pub rows_where : (A → Bool) → List A → List A
  rows_where p [] = []
  rows_where p (r ∷ rs) = let rest = rows_where p rs in if p r then r ∷ rest else rest

  -- `scalars().first()` of such a query
  unfoldable pub first_where : (A → Bool) → List A → Option A
  first_where p [] = none
  first_where p (r ∷ rs) = if p r then some r else first_where p rs

  -- `update(…).where(p).values(…)`
  unfoldable pub update_where : (A → Bool) → (A → A) → List A → List A
  update_where p f [] = []
  update_where p f (r ∷ rs) = (if p r then f r else r) ∷ update_where p f rs

  -- the number of rows that a condition selects, and `rowcount` of an update or a deletion
  unfoldable pub count_where : (A → Bool) → List A → ℕ
  count_where p [] = 0
  count_where p (r ∷ rs) = let rest = count_where p rs in if p r then suc rest else rest

  -- `scalar_one_or_none()`
  abbrev pub one_or_none : List A → Reply (Option A)
  one_or_none [] = ok none
  one_or_none (r ∷ []) = ok (some r)
  one_or_none (r ∷ s ∷ rs) = raised "MultipleResultsFound"

  pub rows_where-length : (p : A → Bool) (rs : List A) → length (rows_where p rs) ≡ count_where p rs
  unfolding rows_where count_where
  rows_where-length p [] = refl
  rows_where-length p (r ∷ rs) = ground (arith, rows_where-length p rs)

  pub first_where-count :
      (p : A → Bool) (rs : List A) → is_some (first_where p rs) ≡ ltb 0 (count_where p rs)
  unfolding first_where count_where
  first_where-count p [] = ground arith
  first_where-count p (r ∷ rs) = ground (arith, first_where-count p rs)

  pub first_where_holds :
      (p : A → Bool) (rs : List A) (r : A) → first_where p rs ≡ some r → p r ≡ true
  unfolding first_where
  first_where_holds p [] r h = ground arith
  first_where_holds p (s ∷ rs) r h = ground (arith, first_where_holds p rs r)

  -- rows that a condition leaves
  pub count_where-rows :
      (p q : A → Bool) (rs : List A)
      → count_where p (rows_where q rs) ≡ count_where (λ r. p r && q r) rs
  unfolding count_where rows_where
  count_where-rows p q [] = refl
  count_where-rows p q (r ∷ rs) = ground (arith, count_where-rows p q rs)

  -- a condition that an update does not change
  pub count_where-update :
      (p q : A → Bool) (f : A → A) (rs : List A)
      → ((r : A) → p (f r) ≡ p r)
      → count_where p (update_where q f rs) ≡ count_where p rs
  unfolding count_where update_where
  count_where-update p q f [] same = refl
  count_where-update p q f (r ∷ rs) same = ground (arith, same r, count_where-update p q f rs same)

  -- a condition that no row meets after an update
  pub count_where-gone :
      (p q : A → Bool) (f : A → A) (rs : List A)
      → ((r : A) → p r ≡ true → q r ≡ true)
      → ((r : A) → p (f r) ≡ false)
      → count_where p (update_where q f rs) ≡ 0
  unfolding count_where update_where
  count_where-gone p q f [] within off = refl
  count_where-gone p q f (r ∷ rs) within off =
      ground (arith, within r, off r, count_where-gone p q f rs within off)

  pub first_where-none :
      (p : A → Bool) (rs : List A) → count_where p rs ≡ 0 → first_where p rs ≡ none
  unfolding count_where first_where
  first_where-none p [] h = refl
  first_where-none p (r ∷ rs) h = ground (arith, first_where-none p rs)

  pub first_where-same :
      (p q : A → Bool) (rs : List A) → ((r : A) → p r ≡ q r) → first_where p rs ≡ first_where q rs
  unfolding first_where
  first_where-same p q [] same = refl
  first_where-same p q (r ∷ rs) same = ground (arith, same r, first_where-same p q rs same)

  pub count_where-same :
      (p q : A → Bool) (rs : List A) → ((r : A) → p r ≡ q r) → count_where p rs ≡ count_where q rs
  unfolding count_where
  count_where-same p q [] same = refl
  count_where-same p q (r ∷ rs) same = ground (arith, same r, count_where-same p q rs same)

  pub count_where-false :
      (p : A → Bool) (rs : List A) → ((r : A) → p r ≡ false) → count_where p rs ≡ 0
  unfolding count_where
  count_where-false p [] off = refl
  count_where-false p (r ∷ rs) off = ground (arith, off r, count_where-false p rs off)

  pub count_where-rows-le :
      (p q : A → Bool) (rs : List A) → count_where p (rows_where q rs) ≤ count_where p rs
  unfolding count_where rows_where
  count_where-rows-le p q [] = omega arith
  count_where-rows-le p q (r ∷ rs) = ground (arith, count_where-rows-le p q rs)

  -- the first of the rows that a query gives is a row of the table
  pub rows_where-head :
      (p q : A → Bool) (rs : List A) (r : A) (more : List A)
      → rows_where p rs ≡ r ∷ more
      → q r ≡ true
      → 0 < count_where q rs
  unfolding count_where rows_where
  rows_where-head p q [] r more h meets = ground arith
  rows_where-head p q (s ∷ rs) r more h meets = ground (arith, rows_where-head p q rs r more)

-- To split on the result of an operation and keep the equation.
pub Reply-cases {ℓ} :
    {A : Type ℓ} (m : Reply A) → ((a : A) × (m ≡ ok a)) ⊎ ((e : String) × (m ≡ raised e))
Reply-cases (ok a) = inl (a, refl)
Reply-cases (raised e) = inr (e, refl)
