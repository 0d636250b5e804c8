-- ===== src/Password/Verify.antt =====
-- Verifying what was hashed.
use auth_n_z.Common.{
  Bool-cases, is_some, Option-cases, String, ◌≡◌, sym, ◌∙◌, subst, ◌≢◌, ◌⊎◌, inl, inr, true, false,
  Option, some, arith, ◌==◌, eq_iff,
}
use auth_n_z.Common.Rows.{ok, raised}
use auth_n_z.Password.Hash.{
  Argon2, PasswordHasher, is_argon2_hash, is_bcrypt_hash, is_argon2, algorithm_or, hash, verify,
}

-- what the two libraries document: the form of the hashes that they make, and that they verify the
-- password that a hash was made of
pub record Documented (H : PasswordHasher) : Type 0 where
  pub bcrypt_form :
      (salt p h : String)
      → H.bcrypt.hashpw H.bcrypt_rounds salt p ≡ ok h
      → (is_bcrypt_hash h ≡ true) × (is_argon2_hash h ≡ false)
  pub bcrypt_own :
      (salt p h : String)
      → H.bcrypt.hashpw H.bcrypt_rounds salt p ≡ ok h
      → H.bcrypt.checkpw p h ≡ some true
  pub argon2_form :
      (a : Argon2)
      → H.argon2 ≡ some a
      → (salt p h : String) → a.hash salt p ≡ ok h
      → is_argon2_hash h ≡ true
  pub argon2_own :
      (a : Argon2)
      → H.argon2 ≡ some a
      → (salt p h : String) → a.hash salt p ≡ ok h
      → a.verify h p ≡ some tt

module _ (H : PasswordHasher) where
  -- what `hash` answers for a password that is not empty
  hash_cases :
      (salt p : String) (algorithm : Option String)
      → p ≢ ""
      → (hash H salt p algorithm ≡ H.bcrypt.hashpw H.bcrypt_rounds salt p)
        ⊎ ((a : Argon2) × (H.argon2 ≡ some a) × (hash H salt p algorithm ≡ a.hash salt p))
  unfolding hash
  hash_cases salt p algorithm filled = elim (Option-cases H.argon2) [
    | inl absent ↦ inl (ground (arith, eq_iff p ""))
    | inr (a, there) ↦ elim (Bool-cases (is_argon2 (algorithm_or algorithm H))) [
      | inl wanted ↦ inr (a, there, ground (arith, eq_iff p ""))
      | inr other ↦ inl (ground (arith, eq_iff p ""))
    ]
  ]

  hash_empty :
      (salt : String) (algorithm : Option String)
      → hash H salt "" algorithm ≡ raised "Password cannot be empty"
  unfolding hash
  hash_empty salt algorithm = ground arith

  not_empty : (h : String) → is_bcrypt_hash h ≡ true ⊎ is_argon2_hash h ≡ true → (h == "") ≡ false
  not_empty h formed = elim (Bool-cases (h == "")) [
    | inr filled ↦ filled
    | inl empty ↦
        let e : h ≡ "" = ground (arith, eq_iff h "") in
        elim formed [
          | inl f ↦ let no = subst (λ t. is_bcrypt_hash t ≡ true) e f in ground arith
          | inr f ↦ let no = subst (λ t. is_argon2_hash t ≡ true) e f in ground arith
        ]
  ]

  verify_bcrypt :
      (p h : String)
      → p ≢ ""
      → is_bcrypt_hash h ≡ true
      → is_argon2_hash h ≡ false
      → H.bcrypt.checkpw p h ≡ some true
      → verify H p h ≡ true
  unfolding verify
  verify_bcrypt p h filled form apart own = ground (arith, eq_iff p "", not_empty h (inl form))

  verify_argon2 :
      (a : Argon2) (p h : String)
      → H.argon2 ≡ some a
      → p ≢ ""
      → is_argon2_hash h ≡ true
      → a.verify h p ≡ some tt
      → verify H p h ≡ true
  unfolding verify
  verify_argon2 a p h there filled form own = ground (arith, eq_iff p "", not_empty h (inr form))

  -- one of the libraries takes the password for the hash
  abbrev pub IsTaken : (password h : String) → Type 0
  IsTaken password h =
      (H.bcrypt.checkpw password h ≡ some true)
      ⊎ ((a : Argon2) × (H.argon2 ≡ some a) × (is_some (a.verify h password) ≡ true))

  verify-IsTaken : (q h : String) → verify H q h ≡ true → (q ≢ "") × IsTaken q h
  unfolding verify
  verify-IsTaken q h passed = (
    λ e. ground (arith, eq_iff q ""),
    elim (Bool-cases (is_argon2_hash h)) [
      | inl by_argon2 ↦ elim (Option-cases H.argon2) [
        | inl absent ↦ absurd (ground arith)
        | inr (a, there) ↦ inr (a, there, ground arith)
      ]
      | inr other ↦ elim (Option-cases (H.bcrypt.checkpw q h)) [
        | inl failed ↦ absurd (ground arith)
        | inr (b, checked) ↦ inl (ground arith)
      ]
    ],
  )

  -- If argon2-cffi and bcrypt do as they document, a password verifies against every hash that is
  -- made of it, with any algorithm that is asked for, and no password verifies against a hash unless
  -- it is not empty and one of the two takes it for that hash. No hash is made only if the password is
  -- empty or if bcrypt or an installed Argon2 raised on it, whose error is then handed on.
  pub verify-hash :
      Documented H
      → (salt p : String) (algorithm : Option String)
      → ((h : String) → hash H salt p algorithm ≡ ok h → verify H p h ≡ true)
        × ((q h : String) → verify H q h ≡ true → (q ≢ "") × IsTaken q h)
        × ((e : String)
            → hash H salt p algorithm ≡ raised e
            → (p ≡ "")
              ⊎ ((H.bcrypt.hashpw H.bcrypt_rounds salt p ≡ raised e)
                  ⊎ ((a : Argon2) × (H.argon2 ≡ some a) × (a.hash salt p ≡ raised e))))
  verify-hash documented salt p algorithm = elim (Bool-cases (p == "")) [
    | inl empty ↦
        let e : p ≡ "" = ground (arith, eq_iff p "") in
        (
          λ h made.
              let none_made = subst (λ q. hash H salt q algorithm ≡ ok h) e made in
              absurd (ground (arith, hash_empty salt algorithm)),
          verify-IsTaken,
          λ error failed. inl e,
        )
    | inr given ↦
        let filled : p ≢ "" = λ e. ground (arith, eq_iff p "") in
        elim (hash_cases salt p algorithm filled) [
          | inl same ↦ (
            λ h made.
                let by_bcrypt = sym same ∙ made in
                let (form, apart) = documented.bcrypt_form salt p h by_bcrypt in
                verify_bcrypt p h filled form apart (documented.bcrypt_own salt p h by_bcrypt),
            verify-IsTaken,
            λ error failed. inr (inl (sym same ∙ failed)),
          )
          | inr (a, there, same) ↦ (
            λ h made.
                let by_argon2 = sym same ∙ made in
                verify_argon2 a p h there filled (documented.argon2_form a there salt p h by_argon2)
                  (documented.argon2_own a there salt p h by_argon2),
            verify-IsTaken,
            λ error failed. inr (inr (a, there, sym same ∙ failed)),
          )
        ]
  ]
