-- ===== src/Permission/Closure.antt =====
-- The walk through the hierarchy ends: each round takes a role off the queue, and a role is queued
-- only when it is new.
use auth_n_z.Common.{
  if◌then◌else◌, Bool-cases, length, lookup, contains, add, contains-add, contains-append, ℕ, zero,
  suc, ◌+◌, ◌≤◌, ◌<◌, String, ◌≡◌, refl, inl, inr, true, false, some, List, [], ◌∷◌, ◌++◌, map,
  arith, ◌==◌, eq_iff, eq_refl,
}
use auth_n_z.Permission.Roles.{
  Hierarchy, normalize_all, set_of, inherited, offer, walk, universe, fuel_for, expand_roles,
  normalize_role,
}

-- how many entries of the list are not in the set
missing : List String → List String → ℕ
missing seen [] = 0
missing seen (u ∷ us) = (if contains u seen then 0 else 1) + missing seen us

missing-le-length : (seen us : List String) → missing seen us ≤ length us
unfolding missing
missing-le-length seen [] = omega arith
missing-le-length seen (u ∷ us) = ground (arith, missing-le-length seen us)

missing-add-le : (n : String) (seen us : List String) → missing (add n seen) us ≤ missing seen us
unfolding missing
missing-add-le n seen [] = omega arith
missing-add-le n seen (u ∷ us) = ground (arith, contains-add n u seen, missing-add-le n seen us)

missing-add-lt :
    (n : String) (seen us : List String)
    → contains n seen ≡ false
    → contains n us ≡ true
    → missing (add n seen) us < missing seen us
unfolding missing contains
missing-add-lt n seen [] new m = cc
missing-add-lt n seen (u ∷ us) new m = ground (
  arith,
  contains-add n u seen,
  eq_iff u n,
  eq_iff n u,
  missing-add-lt n seen us,
  missing-add-le n seen us,
)

abbrev pub Within : List String → List String → Type 0
Within [] us = Unit
Within (x ∷ xs) us = (contains x us ≡ true) × Within xs us

Within-append_left : (xs us vs : List String) → Within xs us → Within xs (us ++ vs)
Within-append_left [] us vs h = tt
Within-append_left (x ∷ xs) us vs h =
    (rw contains-append (ground arith), Within-append_left xs us vs h.1)

Within-append_right : (xs us vs : List String) → Within xs vs → Within xs (us ++ vs)
Within-append_right [] us vs h = tt
Within-append_right (x ∷ xs) us vs h =
    (rw contains-append (ground arith), Within-append_right xs us vs h.1)

Within-cons : (x : String) (xs us : List String) → Within xs us → Within xs (x ∷ us)
unfolding contains
Within-cons x [] us h = tt
Within-cons x (y ∷ xs) us h = (ground arith, Within-cons x xs us h.1)

Within-self : (xs : List String) → Within xs xs
unfolding contains
Within-self [] = tt
Within-self (x ∷ xs) = (ground (arith, eq_refl x), Within-cons x xs xs (Within-self xs))

inherited-Within : (h : Hierarchy) (role : String) → Within (inherited h role) (universe h)
unfolding universe lookup
inherited-Within [] role = tt
inherited-Within ((k, names) ∷ h) role = elim (Bool-cases (k == role)) [
  | inl e ↦ rw e (
      Within-append_left (map normalize_role names) (map normalize_role names) (universe h)
        (Within-self (map normalize_role names)))
  | inr e ↦ rw e (
      Within-append_right (inherited h role) (map normalize_role names) (universe h)
        (inherited-Within h role))
]

length-append : (xs ys : List String) → length (xs ++ ys) ≡ length xs + length ys
length-append [] ys = omega arith
length-append (x ∷ xs) ys = omega (arith, length-append xs ys)

abbrev work : List String → List String × List String → ℕ
work us (seen, queue) = length queue + missing seen us

offer-work-le :
    (us ns seen queue : List String)
    → Within ns us
    → work us (offer ns (seen, queue)) ≤ work us (seen, queue)
unfolding offer
offer-work-le us [] seen queue w = omega arith
offer-work-le us (n ∷ ns) seen queue w = ground (
  arith,
  offer-work-le us ns (add n seen) (if contains n seen then queue else queue ++ n ∷ []),
  length-append queue (n ∷ []),
  missing-add-le n seen us,
  missing-add-lt n seen us,
)

walk_ends :
    (fuel : ℕ) (h : Hierarchy) (queue seen : List String)
    → work (universe h) (seen, queue) ≤ fuel
    → (result : List String) × (walk fuel h queue seen ≡ some result)
unfolding walk
walk_ends fuel h [] seen le = (seen, refl)
walk_ends zero h (role ∷ queue) seen le = absurd (omega arith)
walk_ends (suc fuel) h (role ∷ queue) seen le =
    let (seen', queue') = offer (inherited h role) (seen, queue) in
    walk_ends fuel h queue' seen' (
      omega
        (arith, offer-work-le (universe h) (inherited h role) seen queue (inherited-Within h role)))

-- The walk that `expand_roles` makes ends within its fuel, and its set is what is returned.
pub expand_roles_ends :
    (h : Hierarchy) (direct : List String)
    → walk (fuel_for h direct) h (normalize_all direct) (set_of (normalize_all direct))
      ≡ some (expand_roles h direct)
unfolding expand_roles
expand_roles_ends h direct =
    let normalized = normalize_all direct in
    let (result, e) =
      walk_ends (fuel_for h direct) h normalized (set_of normalized)
        (omega (arith, missing-le-length (set_of normalized) (universe h))) in
    rw e
