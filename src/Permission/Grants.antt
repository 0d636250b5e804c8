-- ===== src/Permission/Grants.antt =====
-- What the loop over a user's roles in `get_effective_permissions` collects.
use auth_n_z.Common.{
  if◌then◌else◌, Bool-cases, contains, add, contains-add, String, ◌≡◌, refl, sym, ◌∙◌, ◌↔◌, ◌⊎◌,
  inl, inr, Bool, true, ◌||◌, List, [], ◌∷◌, arith, ◌==◌, eq_iff, eq_refl,
}
use auth_n_z.Permission.Evaluator.{
  Evaluator, perms_of, union, insert_sorted, sorted, collect, covers, any_covers,
}

contains-union :
    (x : String) (ps acc : List String)
    → contains x (union ps acc) ≡ (contains x ps || contains x acc)
unfolding union contains
contains-union x [] acc = refl
contains-union x (p ∷ ps) acc =
    ground (arith, contains-union x ps (add p acc), contains-add p x acc)

contains-insert_sorted :
    (x p : String) (ps : List String) → contains x (insert_sorted p ps) ≡ (p == x || contains x ps)
unfolding insert_sorted contains
contains-insert_sorted x p [] = refl
contains-insert_sorted x p (q ∷ ps) = ground (arith, contains-insert_sorted x p ps)

contains-sorted : (x : String) (ps : List String) → contains x (sorted ps) ≡ contains x ps
unfolding sorted contains
contains-sorted x [] = refl
contains-sorted x (p ∷ ps) =
    ground (arith, contains-insert_sorted x p (sorted ps), contains-sorted x ps)

-- A granted entry that meets a requirement.
abbrev pub Meets : String → String → Type 0
Meets required perm = (perm ≡ "*") ⊎ (perm ≡ required) ⊎ (covers required perm ≡ true)

-- the test of `has_permission` on a list of granted entries
abbrev pub accepts : String → List String → Bool
accepts required granted =
    if contains "*" granted || contains required granted then true else any_covers required granted

any_covers_sound :
    (required : String) (ps : List String)
    → any_covers required ps ≡ true
    → (p : String) × (contains p ps ≡ true) × (covers required p ≡ true)
unfolding any_covers contains
any_covers_sound required [] h = cc
any_covers_sound required (p ∷ ps) h = elim (Bool-cases (covers required p)) [
  | inl c ↦ (p, ground (arith, eq_refl p), c)
  | inr c ↦ let (q, m, d) = any_covers_sound required ps (ground arith) in (q, ground arith, d)
]

any_covers_complete :
    (required : String) (ps : List String) (p : String)
    → contains p ps ≡ true
    → covers required p ≡ true
    → any_covers required ps ≡ true
unfolding any_covers contains
any_covers_complete required [] p m c = cc
any_covers_complete required (q ∷ ps) p m c = elim (Bool-cases (q == p)) [
  | inl e ↦ rw ((eq_iff q p).0 e, c)
  | inr e ↦ elim (Bool-cases (covers required q)) [
    | inl d ↦ rw d
    | inr d ↦ rw d (any_covers_complete required ps p (ground arith) c)
  ]
]

pub accepts_iff :
    (required : String) (ps : List String)
    → (accepts required ps ≡ true) ↔ ((p : String) × (contains p ps ≡ true) × Meets required p)
accepts_iff required ps = (
  λ h. elim (Bool-cases (contains "*" ps)) [
    | inl star ↦ ("*", star, inl refl)
    | inr no_star ↦ elim (Bool-cases (contains required ps)) [
      | inl exact ↦ (required, exact, inr (inl refl))
      | inr other ↦
          let (p, m, c) = any_covers_sound required ps (ground arith) in (p, m, inr (inr c))
    ]
  ],
  λ h. elim h.2 [
    | inl star ↦ ground arith
    | inr (inl exact) ↦ ground arith
    | inr (inr c) ↦ rw (any_covers_complete required ps h.0 h.1 c) (ground arith)
  ],
)

-- What the roles of the loop grant.
pub data Collected (e : Evaluator) (roles acc : List String) (p : String) : Type 0 where
  before_loop : contains p acc ≡ true → Collected e roles acc p
  by_role :
      (role : String)
      → contains role roles ≡ true
      → contains p (perms_of e role) ≡ true
      → Collected e roles acc p

pub collect_sound :
    (e : Evaluator) (required : String) (roles acc : List String) (p : String)
    → contains p (collect e roles acc) ≡ true
    → Meets required p
    → (q : String) × Collected e roles acc q × Meets required q
unfolding collect contains
collect_sound e required [] acc p m h = (p, before_loop (sym (contains-sorted p acc) ∙ m), h)
collect_sound e required (r ∷ rs) acc p m h = elim (Bool-cases (contains "*" (perms_of e r))) [
  | inl star ↦ ("*", by_role r (ground (arith, eq_refl r)) star, inl refl)
  | inr no_star ↦
      let (q, c, k) = collect_sound e required rs (union (perms_of e r) acc) p (ground arith) h in
      elim c [
        | by_role role m' k' ↦ (q, by_role role (ground arith) k', k)
        | before_loop m' ↦ elim (Bool-cases (contains q (perms_of e r))) [
          | inl here ↦ (q, by_role r (ground (arith, eq_refl r)) here, k)
          | inr other ↦ (q, before_loop (ground (arith, contains-union q (perms_of e r) acc)), k)
        ]
      ]
]

pub collect_complete :
    (e : Evaluator) (required : String) (roles acc : List String) (q : String)
    → Collected e roles acc q
    → Meets required q
    → (p : String) × (contains p (collect e roles acc) ≡ true) × Meets required p
unfolding collect contains
collect_complete e required [] acc q (before_loop m) h = (q, contains-sorted q acc ∙ m, h)
collect_complete e required [] acc q (by_role role m k) h = cc
collect_complete e required (r ∷ rs) acc q c h = elim (Bool-cases (contains "*" (perms_of e r))) [
  | inl star ↦ ("*", ground arith, inl refl)
  | inr no_star ↦
      let rest : Collected e rs (union (perms_of e r) acc) q = elim c [
        | before_loop m ↦ before_loop (ground (arith, contains-union q (perms_of e r) acc))
        | by_role role m k ↦ elim (Bool-cases (r == role)) [
          | inl same ↦
              before_loop (rw (contains-union q (perms_of e r) acc, (eq_iff r role).0 same, k))
          | inr other ↦ by_role role (ground arith) k
        ]
      ] in
      let (p, m, k) = collect_complete e required rs (union (perms_of e r) acc) q rest h in
      (p, ground arith, k)
]
