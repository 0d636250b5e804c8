-- ===== src/Workspace/Invitations.antt =====
-- Invitations: issued, found by their token, accepted once.
use auth_n_z.Common.{
  ltb, Bool-cases, is_some, Option-cases, lower, strip, ℕ, ◌+◌, ◌*◌, ◌<◌, String, ◌≡◌, refl, ap,
  ◌∙◌, subst, ◌≢◌, ◌⊎◌, inl, inr, Bool, true, false, ◌&&◌, Option, none, some, List, [], ◌∷◌, arith,
  ◌==◌, eq_iff, eq_refl,
}
use auth_n_z.Common.Rows.{
  ok, rows_where, first_where, update_where, count_where, count_where-gone, first_where-count,
  first_where_holds, Reply-cases, one_or_none,
}
use auth_n_z.Workspace.Tables.{
  Workspace, Member, Account, Tables, Outside, is_value, has_id, hash_token, resolve_ws_uuid,
}
use auth_n_z.Workspace.Members.{
  Enrolment, Invitation, clean_email, same_key, upsert, reinvite, invited_row, activate,
  accepted_name, parse_user, is_invited_by, late, get_invitation_by_token, invite_member,
  accept_invitation,
}

first_where-and :
    (p q : Member → Bool) (ms : List Member)
    → count_where p ms ≡ 0
    → first_where (λ m. p m && q m) ms ≡ none
unfolding first_where count_where
first_where-and p q [] h = refl
first_where-and p q (m ∷ ms) h = ground (arith, first_where-and p q ms)

-- the first row that meets a condition, where only the row that an upsert writes meets it
first_where-upsert :
    (p : Member → Bool) (new : Member) (change : Member → Member) (ms : List Member)
    → p new ≡ true
    → ((m : Member) → same_key new.workspace_id new.email m ≡ true → p (change m) ≡ true)
    → count_where p ms ≡ 0
    → (first_where p (upsert new change ms) ≡ some new)
      ⊎ ((m : Member) × (same_key new.workspace_id new.email m ≡ true)
          × (first_where p (upsert new change ms) ≡ some (change m)))
unfolding first_where upsert count_where
first_where-upsert p new change [] meets meets' none_yet = inl (ground arith)
first_where-upsert p new change (m ∷ ms) meets meets' none_yet =
    elim (Bool-cases (same_key new.workspace_id new.email m)) [
      | inl same ↦ inr (m, same, ground (arith, meets' m same))
      | inr other ↦ elim (first_where-upsert p new change ms meets meets' (ground arith)) [
        | inl found ↦ inl (ground arith)
        | inr (m', same, found) ↦ inr (m', same, ground arith)
      ]
    ]

count_where-more :
    (p q : Member → Bool) (ms : List Member)
    → 0 < count_where p ms
    → ((m : Member) → p m ≡ true → q m ≡ true)
    → ltb 0 (count_where q ms) ≡ true
unfolding count_where
count_where-more p q [] some_row within = ground arith
count_where-more p q (m ∷ ms) some_row within = ground (arith, within m, count_where-more p q ms)

count_where-and :
    (p q : Member → Bool) (ms : List Member)
    → count_where p ms ≡ 0
    → count_where (λ m. p m && q m) ms ≡ 0
unfolding count_where
count_where-and p q [] h = refl
count_where-and p q (m ∷ ms) h = ground (arith, count_where-and p q ms)

module _ (out : Outside) where
  used_up :
      (user name : Option String) (token : String) (ms : List Member)
      → count_where
          (is_invited_by out token)
          (update_where (is_invited_by out token) (activate out user name) ms)
        ≡ 0
  unfolding activate is_invited_by
  used_up user name token ms =
      count_where-gone (is_invited_by out token) (is_invited_by out token) (activate out user name)
        ms (λ m h. h) (λ m. ground arith)

  found_none :
      (now : ℕ) (token : String) (t : Tables)
      → strip token ≡ token
      → count_where (is_invited_by out token) t.members ≡ 0
      → get_invitation_by_token out now token t ≡ none
  unfolding get_invitation_by_token
  found_none now token t tidy unused =
      let housed = λ (m : Member). is_some (first_where (has_id m.workspace_id) t.workspaces) in
      rw (get_invitation_by_token, tidy)
        (ground (arith, first_where-and (is_invited_by out token) housed t.members unused))

  -- A token, with no space at its ends, is good for one acceptance: after the invitation that it
  -- finds was accepted in time, the same token finds none, whoever shows it and whenever.
  pub accept_invitation_once :
      (now later : ℕ) (token : String) (user name user' name' : Option String) (invite : Invitation)
      (m : Option Member) (t t' : Tables)
      → strip token ≡ token
      → get_invitation_by_token out now token t ≡ some invite
      → invite.is_expired ≡ false
      → accept_invitation out now token user name t ≡ (ok m, t')
      → (get_invitation_by_token out later token t' ≡ none)
        × (accept_invitation out later token user' name' t' ≡ (ok none, t'))
  unfolding accept_invitation
  accept_invitation_once now later token user name user' name' invite m t t' tidy found alive
        accepted =
      let change = activate out (parse_user out user) (accepted_name out user name t) in
      let t'' : Tables = record t {
        members = update_where (is_invited_by out token) change t.members;
      } in
      let same : t'' ≡ t' = ground arith in
      let unused = used_up (parse_user out user) (accepted_name out user name t) token t.members in
      let gone : get_invitation_by_token out later token t' ≡ none =
        subst (λ u. get_invitation_by_token out later token u ≡ none) same
          (found_none later token t'' tidy unused) in
      (gone, ground arith)

  joined : Tables → String → Member → Bool
  joined t token m =
      is_invited_by out token m && is_some (first_where (has_id m.workspace_id) t.workspaces)

  found_row :
      (now : ℕ) (token : String) (t : Tables) (m : Member) (w : Workspace)
      → strip token ≡ token
      → token ≢ ""
      → first_where (joined t token) t.members ≡ some m
      → first_where (has_id m.workspace_id) t.workspaces ≡ some w
      → get_invitation_by_token out now token t
        ≡ some (record { row = m; workspace = w; is_expired = late out now m.expires_at })
  unfolding get_invitation_by_token joined
  found_row now token t m w tidy filled found there =
      let given : (token == "") ≡ false = ground (arith, eq_iff token "") in
      rw (get_invitation_by_token, tidy, given, found, there) refl

  -- the invitation that the row of `invite_member` gives
  OpensAs :
      (now : ℕ) (token : String) (e : Enrolment) (w : Workspace) (t : Tables) (expires_at : ℕ)
      → Type 0
  OpensAs now token e w t expires_at =
      (invite : Invitation) × (get_invitation_by_token out now token t ≡ some invite)
      × (invite.row.workspace_id ≡ w.id)
      × (invite.row.email ≡ clean_email e)
      × (invite.row.role ≡ e.role)
      × (invite.is_expired ≡ ltb expires_at now)

  issued :
      (id token : String) (now later : ℕ) (e : Enrolment) (user_id : Option String) (by : String)
      (days : ℕ) (w : Workspace) (t : Tables)
      → strip token ≡ token
      → token ≢ ""
      → count_where (is_invited_by out token) t.members ≡ 0
      → first_where (has_id w.id) t.workspaces ≡ some w
      → let new = invited_row out id w.id e user_id token by days now in
        OpensAs later token e w
          (record t { members = upsert new (reinvite new) t.members })
          (now + days * 86400)
  unfolding OpensAs joined invited_row reinvite is_invited_by late same_key
  issued id token now later e user_id by days w t tidy filled unused there =
      let new = invited_row out id w.id e user_id token by days now in
      let t' : Tables = record t { members = upsert new (reinvite new) t.members } in
      let digest = hash_token out token in
      let housed = λ (m : Member). is_some (first_where (has_id m.workspace_id) t.workspaces) in
      let none_yet = count_where-and (is_invited_by out token) housed t.members unused in
      elim (first_where-upsert (joined t token) new (reinvite new) t.members
        (ground (arith, eq_refl digest))
        (λ m same. ground (arith, eq_refl digest, eq_iff m.workspace_id w.id)) none_yet) [
          | inl first ↦ (
            record { row = new; workspace = w; is_expired = ltb (now + days * 86400) later },
            found_row later token t' new w tidy filled first there,
            refl,
            refl,
            refl,
            refl,
          )
          | inr (m, same, first) ↦
              let in_w : m.workspace_id ≡ w.id = ground (arith, eq_iff m.workspace_id w.id) in
              let there' = ap (λ ws. first_where (has_id ws) t.workspaces) in_w ∙ there in
              (
                record {
                  row = reinvite new m;
                  workspace = w;
                  is_expired = ltb (now + days * 86400) later;
                },
                found_row later token t' (reinvite new m) w tidy filled first there',
                in_w,
                ground (arith, eq_iff m.email (clean_email e)),
                refl,
                refl,
              )
        ]

  -- An invitation that is issued with a fresh token, not blank and with no space at its ends, is
  -- found by it: it is for the workspace that the key names, for the address in small letters and the
  -- role that were asked for, and it is expired exactly from the moment after its days are over.
  pub get_invitation-invite_member :
      (id token : String) (now later : ℕ) (key ws : String) (e : Enrolment) (by : String) (days : ℕ)
      (answer : Member × String) (t t' : Tables)
      → strip token ≡ token
      → token ≢ ""
      → count_where (is_invited_by out token) t.members ≡ 0
      → resolve_ws_uuid out key t ≡ ok (some ws)
      → invite_member out id token now key e by days t ≡ ok (answer, t')
      → (invite : Invitation) × (get_invitation_by_token out later token t' ≡ some invite)
        × (invite.row.workspace_id ≡ ws)
        × (invite.row.email ≡ clean_email e)
        × (invite.row.role ≡ e.role)
        × (invite.is_expired ≡ ltb (now + days * 86400) later)
  unfolding invite_member OpensAs
  get_invitation-invite_member id token now later key ws e by days answer t t' tidy filled unused
        resolved h =
      elim (Option-cases (first_where (has_id ws) t.workspaces)) [
        | inl gone ↦ absurd (ground arith)
        | inr (w, there) ↦
            let wanted = rows_where (λ (u : Account). lower u.email == clean_email e) t.users in
            elim (Reply-cases (one_or_none wanted)) [
              | inr (error, failed) ↦ absurd (ground arith)
              | inl (user, known) ↦
                  let user_id : Option String = elim user [ none ↦ none | some u ↦ some u.id ] in
                  let new = invited_row out id w.id e user_id token by days now in
                  let t'' : Tables = record t { members = upsert new (reinvite new) t.members } in
                  let same : t'' ≡ t' = ground arith in
                  let own : w.id ≡ ws =
                    ground (arith, first_where_holds (has_id ws) t.workspaces w, eq_iff w.id ws) in
                  let there' = ap (λ i. first_where (has_id i) t.workspaces) own ∙ there in
                  let (invite, found, in_ws, email, role, expired) =
                    issued id token now later e user_id by days w t tidy filled unused there' in
                  (
                    invite,
                    subst (λ u. get_invitation_by_token out later token u ≡ some invite) same found,
                    in_ws ∙ own,
                    email,
                    role,
                    expired,
                  )
            ]
      ]

  -- The text that is stored for a token opens the invitation as the token does: if a row with an
  -- invitation, in a workspace that is there, stores a text that is not blank and has no space at
  -- its ends, then that text, shown as a token, finds an invitation.
  pub stored_text_opens :
      (now : ℕ) (stored : String) (t : Tables)
      → strip stored ≡ stored
      → stored ≢ ""
      → 0
        < count_where
            (λ (m : Member).
              is_value stored m.invite_token
              && m.status == "invited"
              && is_some (first_where (has_id m.workspace_id) t.workspaces))
            t.members
      → is_some (get_invitation_by_token out now stored t) ≡ true
  unfolding joined is_invited_by
  stored_text_opens now stored t tidy filled there =
      let housed = λ (m : Member). is_some (first_where (has_id m.workspace_id) t.workspaces) in
      let plain =
        λ (m : Member). is_value stored m.invite_token && m.status == "invited" && housed m in
      let first =
        first_where-count (joined t stored) t.members
        ∙ count_where-more plain (joined t stored) t.members there (λ m h. ground arith) in
      elim (Option-cases (first_where (joined t stored) t.members)) [
        | inl missing ↦ cc
        | inr (m, found) ↦
            let meets = first_where_holds (joined t stored) t.members m found in
            elim (Option-cases (first_where (has_id m.workspace_id) t.workspaces)) [
              | inl gone ↦ ground arith
              | inr (w, known) ↦ ap is_some (found_row now stored t m w tidy filled found known)
            ]
      ]
