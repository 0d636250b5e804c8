-- ===== src/Permission/Complete.antt =====
-- The walk finds exactly the roles that the hierarchy passes on.
use auth_n_z.Common.{
  if◌then◌else◌, Bool-cases, contains, add, contains-add, contains-append, ℕ, zero, suc, String,
  ◌≡◌, refl, sym, ◌∙◌, subst, ◌↔◌, ◌⊎◌, inl, inr, true, some, List, [], ◌∷◌, ◌++◌, arith, ◌==◌,
  eq_iff, eq_refl,
}
use auth_n_z.Permission.Closure.{expand_roles_ends}
use auth_n_z.Permission.Roles.{
  fuel_for, expand_roles, Hierarchy, normalize_all, set_of, inherited, offer, walk,
}

-- The roles that a user has: the direct ones, and what they inherit in any number of steps.
pub data Has (h : Hierarchy) (direct : List String) : String → Type 0 where
  directly : {x : String} → contains x (normalize_all direct) ≡ true → Has h direct x
  inherits : {x y : String} → Has h direct x → contains y (inherited h x) ≡ true → Has h direct y

abbrev AllHas : Hierarchy → List String → List String → Type 0
AllHas h direct xs = (x : String) → contains x xs ≡ true → Has h direct x

contains-set_of : (x : String) (xs : List String) → contains x (set_of xs) ≡ contains x xs
unfolding set_of contains
contains-set_of x [] = refl
contains-set_of x (y ∷ ys) = ground (arith, contains-add y x (set_of ys), contains-set_of x ys)

contains_of_eq :
    (x y : String) (xs : List String)
    → (x == y) ≡ true
    → contains x xs ≡ true
    → contains y xs ≡ true
contains_of_eq x y xs e m = ground (arith, eq_iff x y)

-- Soundness: the set and the queue hold nothing but what the user has.
offer-AllHas :
    (h : Hierarchy) (direct ns seen queue : List String)
    → AllHas h direct ns
    → AllHas h direct seen
    → AllHas h direct queue
    → AllHas h direct (offer ns (seen, queue)).0 × AllHas h direct (offer ns (seen, queue)).1
unfolding offer contains
offer-AllHas h direct [] seen queue hn hs hq = (hs, hq)
offer-AllHas h direct (n ∷ ns) seen queue hn hs hq =
    let new : Has h direct n = hn n (ground (arith, eq_refl n)) in
    offer-AllHas h direct ns (add n seen) (if contains n seen then queue else queue ++ n ∷ [])
      (λ x m. hn x (ground arith))
      (λ x m. elim (Bool-cases (n == x)) [
        | inl e ↦ subst (Has h direct) ((eq_iff n x).0 e) new
        | inr e ↦ hs x (ground (arith, contains-add n x seen))
      ])
      (λ x m. elim (Bool-cases (n == x)) [
        | inl e ↦ subst (Has h direct) ((eq_iff n x).0 e) new
        | inr e ↦ hq x (ground (arith, contains-append x queue (n ∷ [])))
      ])

walk-AllHas :
    (fuel : ℕ) (h : Hierarchy) (direct queue seen : List String) {result : List String}
    → AllHas h direct queue
    → AllHas h direct seen
    → walk fuel h queue seen ≡ some result
    → AllHas h direct result
unfolding walk contains
walk-AllHas fuel h direct [] seen {result} hq hs e = λ x m. hs x (ground arith)
walk-AllHas zero h direct (role ∷ queue) seen hq hs e = cc
walk-AllHas (suc fuel) h direct (role ∷ queue) seen hq hs e =
    let top : Has h direct role = hq role (ground (arith, eq_refl role)) in
    let (hs', hq') =
      offer-AllHas h direct (inherited h role) seen queue (λ x m. inherits top m) hs
        (λ x m. hq x (ground arith)) in
    walk-AllHas fuel h direct (offer (inherited h role) (seen, queue)).1
      (offer (inherited h role) (seen, queue)).0 hq' hs' e

-- Completeness: what is seen is still queued, or all that it inherits is seen too.
abbrev Closed : Hierarchy → List String → List String → Type 0
Closed h queue seen =
    (x : String)
    → contains x seen ≡ true
    → (contains x queue ≡ true)
      ⊎ ((y : String) → contains y (inherited h x) ≡ true → contains y seen ≡ true)

abbrev Subset : List String → List String → Type 0
Subset xs ys = (x : String) → contains x xs ≡ true → contains x ys ≡ true

-- one round of the inner loop only adds, sees all that is offered, and queues what is new
offer_grows :
    (ns seen queue : List String) (x : String)
    → (contains x seen ≡ true → contains x (offer ns (seen, queue)).0 ≡ true)
      × (contains x queue ≡ true → contains x (offer ns (seen, queue)).1 ≡ true)
      × (contains x ns ≡ true → contains x (offer ns (seen, queue)).0 ≡ true)
      × (contains x (offer ns (seen, queue)).0 ≡ true
          → (contains x seen ≡ true) ⊎ (contains x (offer ns (seen, queue)).1 ≡ true))
unfolding offer contains
offer_grows [] seen queue x = (λ m. m, λ m. m, λ m. cc, λ m. inl m)
offer_grows (n ∷ ns) seen queue x =
    let rest = offer_grows ns (add n seen) (if contains n seen then queue else queue ++ n ∷ []) x in
    (
      λ m. rest.0 (ground (arith, contains-add n x seen)),
      λ m. rest.1 (ground (arith, contains-append x queue (n ∷ []))),
      λ m. elim (Bool-cases (n == x)) [
        | inl e ↦ rest.0 (ground (arith, contains-add n x seen))
        | inr e ↦ rest.2 (ground arith)
      ],
      λ m. elim (rest.3 m) [
        | inl s ↦ elim (Bool-cases (contains x seen)) [
          | inl old ↦ inl old
          | inr new ↦ inr (
              rest.1 (
                ground
                  (arith, contains-add n x seen, contains-append x queue (n ∷ []), eq_iff n x)))
        ]
        | inr q ↦ inr q
      ],
    )

round-Closed :
    (h : Hierarchy) (role : String) (queue seen : List String)
    → Closed h (role ∷ queue) seen
    → Closed h (offer (inherited h role) (seen, queue)).1 (offer (inherited h role) (seen, queue)).0
unfolding contains
round-Closed h role queue seen c x m =
    let grows = λ (y : String). offer_grows (inherited h role) seen queue y in
    elim ((grows x).3 m) [
      | inr q ↦ inl q
      | inl s ↦ elim (c x s) [
        | inr all ↦ inr (λ y i. (grows y).0 (all y i))
        | inl q ↦ elim (Bool-cases (role == x)) [
          | inl e ↦ inr (λ y i. (grows y).2 (rw ((eq_iff role x).0 e) i))
          | inr e ↦ inl ((grows x).1 (ground arith))
        ]
      ]
    ]

walk-Closed :
    (fuel : ℕ) (h : Hierarchy) (queue seen : List String) {result : List String}
    → Closed h queue seen
    → walk fuel h queue seen ≡ some result
    → Closed h [] result × Subset seen result
unfolding walk
walk-Closed fuel h [] seen {result} c e =
    let same : seen ≡ result = cc in (subst (Closed h []) same c, λ x m. rw (← same) m)
walk-Closed zero h (role ∷ queue) seen c e = cc
walk-Closed (suc fuel) h (role ∷ queue) seen c e =
    let next = offer (inherited h role) (seen, queue) in
    let (closed, sub) = walk-Closed fuel h next.1 next.0 (round-Closed h role queue seen c) e in
    (closed, λ x m. sub x ((offer_grows (inherited h role) seen queue x).0 m))

Has-contains :
    (h : Hierarchy) (direct result : List String)
    → Closed h [] result
    → Subset (normalize_all direct) result
    → {x : String} → Has h direct x
    → contains x result ≡ true
unfolding contains
Has-contains h direct result c sub (directly m) = sub _ m
Has-contains h direct result c sub (inherits {x = x} {y = y} p m) =
    elim (c x (Has-contains h direct result c sub p)) [ inl none_left ↦ cc | inr all ↦ all y m ]

-- `expand_roles` returns exactly the roles of the user: the direct ones in their normal form, and
-- all that these inherit through the hierarchy in any number of steps. Cycles in the hierarchy do
-- no harm.
pub expand_roles_iff :
    (h : Hierarchy) (direct : List String) (role : String)
    → (contains role (expand_roles h direct) ≡ true) ↔ Has h direct role
expand_roles_iff h direct role =
    let normalized = normalize_all direct in
    let start : (x : String) → contains x (set_of normalized) ≡ contains x normalized =
      λ x. contains-set_of x normalized in
    let (closed, sub) =
      walk-Closed (fuel_for h direct) h normalized (set_of normalized)
        (λ x m. inl (sym (start x) ∙ m)) (expand_roles_ends h direct) in
    (
      walk-AllHas (fuel_for h direct) h direct normalized (set_of normalized) (λ x m. directly m)
          (λ x m. directly (sym (start x) ∙ m)) (expand_roles_ends h direct) role,
      Has-contains h direct (expand_roles h direct) closed (λ x m. sub x (start x ∙ m)),
    )
