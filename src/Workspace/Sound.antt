-- ===== src/Workspace/Sound.antt =====
-- Every operation keeps the tables sound.
use auth_n_z.Common.{
  nat_eq, if◌then◌else◌, Bool-cases, is_some, or_default, Option-cases, length, lower, strip, ℕ,
  suc, ◌≤◌, ◌<◌, String, ◌≡◌, refl, sym, ap, ◌∙◌, subst, ◌⊎◌, inl, inr, Bool, not, ◌&&◌, ◌||◌,
  Option, none, some, List, [], ◌∷◌, arith, ◌==◌, eq_iff, eq_refl, text_or,
}
use auth_n_z.Common.Rows.{
  Reply, ◌>>=◌, ok, raised, rows_where, first_where, update_where, count_where, count_where-rows,
  count_where-rows-le, count_where-same, count_where-false, rows_where-head, first_where-count,
  Reply-cases, count_where-update, one_or_none,
}
use auth_n_z.Workspace.Tables.{
  Workspace, Member, Account, Tables, Outside, has_id, has_name, named, resolve_ws_uuid, fits,
}
use auth_n_z.Workspace.Workspaces.{
  insert_workspace, insert_member, add_rows, new_workspace, Updates, create_workspace,
  update_workspace, delete_workspace, creator, creator_row, apply_updates, new_slug,
}
use auth_n_z.Workspace.Slug.{slugify, free_slug}
use auth_n_z.Workspace.Members.{
  Enrolment, same_key, upsert, link, reinvite, activate, added_row, invited_row, add_member,
  invite_member, accept_invitation, update_member_role, remove_member, is_invited_by, ident_selects,
  accepted_name, row_fits, is_known, add_to, parse_user, get_invitation_by_token, clean_email,
}
use auth_n_z.Workspace.Unique.{
  IsUnique, IsSound, is_in, upsert-IsSound, update-IsSound, remove-IsSound,
}

count_where-le-in :
    (ws email : String) (ms : List Member)
    → count_where (same_key ws email) ms ≤ count_where (is_in ws) ms
unfolding count_where same_key
count_where-le-in ws email [] = omega arith
count_where-le-in ws email (m ∷ ms) = ground (arith, count_where-le-in ws email ms)

one_or_none_head :
    (ws : List Workspace) (w : Workspace)
    → one_or_none ws ≡ ok (some w)
    → (more : List Workspace) × (ws ≡ w ∷ more)
one_or_none_head [] w h = ground arith
one_or_none_head (v ∷ []) w h = ([], ground arith)
one_or_none_head (v ∷ u ∷ ws) w h = ground arith

module _ (out : Outside) (t : Tables) where
  named_there :
      (clean ws : String) → named clean t ≡ ok (some ws) → 0 < count_where (has_id ws) t.workspaces
  unfolding named
  named_there clean ws h =
      elim (Reply-cases (one_or_none (rows_where (has_name clean) t.workspaces))) [
        | inr (e, failed) ↦ ground arith
        | inl (found, e) ↦ elim (Option-cases found) [
          | inl missing ↦ ground arith
          | inr (w, there) ↦
              let (more, listed) =
                one_or_none_head (rows_where (has_name clean) t.workspaces) w (e ∙ ap ok there) in
              let same : w.id ≡ ws = ground arith in
              rows_where-head (has_name clean) (has_id ws) t.workspaces w more listed
                (ground (arith, eq_iff w.id ws))
        ]
      ]

  pub resolve_there :
      (key ws : String)
      → resolve_ws_uuid out key t ≡ ok (some ws)
      → 0 < count_where (has_id ws) t.workspaces
  unfolding resolve_ws_uuid
  resolve_there key ws h = elim (Option-cases (out.uuid (strip key))) [
    | inl other ↦ ground (arith, named_there (strip key) ws)
    | inr (wid, parsed) ↦
        ground (arith, named_there (strip key) ws, first_where-count (has_id wid) t.workspaces)
  ]

  pub resolve_cases :
      (key : String)
      → (resolve_ws_uuid out key t ≡ ok none)
        ⊎ ((ws : String) × (resolve_ws_uuid out key t ≡ ok (some ws)))
        ⊎ ((e : String) × (resolve_ws_uuid out key t ≡ raised e))
  resolve_cases key = elim (Reply-cases (resolve_ws_uuid out key t)) [
    | inr failed ↦ inr (inr failed)
    | inl (wid, e) ↦ elim (Option-cases wid) [
      | inl missing ↦ inl (e ∙ ap ok missing)
      | inr (ws, there) ↦ inr (inl (ws, e ∙ ap ok there))
    ]
  ]

pub first_where-own :
    (ws : String) (w : Workspace) (rs : List Workspace)
    → first_where (has_id ws) rs ≡ some w
    → 0 < count_where (has_id w.id) rs
unfolding first_where count_where
first_where-own ws w [] h = ground arith
first_where-own ws w (v ∷ rs) h =
    ground (arith, first_where-own ws w rs, eq_refl v.id, eq_iff v.id w.id)

module _ (t : Tables) (sound : IsSound t) where
  -- a new workspace with its first member
  add_housed :
      (w : Workspace) (m : Member) {id : String}
      → w.id ≡ id
      → m.workspace_id ≡ id
      → count_where (has_id id) t.workspaces ≡ 0
      → IsSound (record t { workspaces = w ∷ t.workspaces; members = m ∷ t.members })
  unfolding IsUnique same_key count_where
  add_housed w m {id} own own' fresh =
      let unused = sound.housed id fresh in
      record {
        unique = λ ws email. ground (
          arith,
          sound.unique ws email,
          count_where-le-in ws email t.members,
          eq_iff m.workspace_id ws,
          eq_iff w.id ws,
        );
        ids = λ ws. ground (arith, sound.ids ws, eq_iff w.id ws);
        housed = λ ws none_there.
            ground (arith, sound.housed ws, eq_iff w.id ws, eq_iff m.workspace_id ws);
      }

  without_workspace :
      (id : String)
      → IsSound (record t {
        workspaces = rows_where (λ w. not (has_id id w)) t.workspaces;
        members = rows_where (λ (m : Member). not (m.workspace_id == id)) t.members;
      })
  unfolding IsUnique
  without_workspace id = record {
    unique = λ ws email. omega (
      arith,
      sound.unique ws email,
      count_where-rows-le (same_key ws email) (λ m. not (is_in id m)) t.members,
    );
    ids = λ ws. omega (
      arith,
      sound.ids ws,
      count_where-rows-le (has_id ws) (λ w. not (has_id id w)) t.workspaces,
    );
    housed = λ ws none_there. elim (Bool-cases (id == ws)) [
      | inl same ↦
          count_where-rows (is_in ws) (λ m. not (is_in id m)) t.members
          ∙ count_where-false (λ m. is_in ws m && not (is_in id m)) t.members
              (λ m.
                ground (arith, eq_iff id ws, eq_iff m.workspace_id ws, eq_iff m.workspace_id id))
      | inr other ↦
          let kept =
            count_where-rows (has_id ws) (λ w. not (has_id id w)) t.workspaces
            ∙ count_where-same (λ w. has_id ws w && not (has_id id w)) (has_id ws) t.workspaces
                (λ w. ground (arith, eq_iff id ws, eq_iff w.id ws, eq_iff w.id id)) in
          omega (
            arith,
            sound.housed ws (sym kept ∙ none_there),
            count_where-rows-le (is_in ws) (λ m. not (is_in id m)) t.members,
          )
    ];
  }

  with_updates :
      (p : Workspace → Bool) (change : Workspace → Workspace)
      → ((w : Workspace) → (change w).id ≡ w.id)
      → IsSound (record t { workspaces = update_where p change t.workspaces })
  with_updates p change keeps =
      let same = λ (ws : String).
        count_where-update (has_id ws) p change t.workspaces (λ w. ground (arith, keeps w)) in
      record {
        unique = sound.unique;
        ids = λ ws. omega (arith, sound.ids ws, same ws);
        housed = λ ws none_there. sound.housed ws (sym (same ws) ∙ none_there);
      }

module _ (out : Outside) (t t' : Tables) (sound : IsSound t) where
  pub add_member-IsSound :
      (id : String) (now : ℕ) (key : String) (e : Enrolment) (user : Option String)
      (status : String) (by : Option String) (answer : Reply (Option Member))
      → add_member out id now key e user status by t ≡ (answer, t')
      → IsSound t'
  unfolding add_member add_to link added_row
  add_member-IsSound id now key e user status by answer h = elim (resolve_cases out t key) [
    | inl missing ↦ subst IsSound (ground arith) sound
    | inr (inr (error, failed)) ↦ subst IsSound (ground arith) sound
    | inr (inl (ws, found)) ↦
        let new = added_row out id ws e user status by now in
        let changed =
          upsert-IsSound t sound new (link new) (λ m'. refl) (λ m'. refl)
            (resolve_there out t key ws found) in
        elim (Bool-cases (row_fits new && is_known out (parse_user out user) t)) [
          | inl known ↦ subst IsSound (ground arith) changed
          | inr unknown ↦ subst IsSound (ground arith) sound
        ]
  ]

  pub invite_member-IsSound :
      (id token : String) (now : ℕ) (key : String) (e : Enrolment) (by : String) (days : ℕ)
      (answer : Member × String)
      → invite_member out id token now key e by days t ≡ ok (answer, t')
      → IsSound t'
  unfolding invite_member reinvite invited_row
  invite_member-IsSound id token now key e by days answer h = elim (resolve_cases out t key) [
    | inl missing ↦ ground arith
    | inr (inr (error, failed)) ↦ ground arith
    | inr (inl (ws, found)) ↦ elim (Option-cases (first_where (has_id ws) t.workspaces)) [
      | inl gone ↦ ground arith
      | inr (w, there) ↦
          let wanted = rows_where (λ (u : Account). lower u.email == clean_email e) t.users in
          elim (Reply-cases (one_or_none wanted)) [
            | inr (error, failed) ↦ ground arith
            | inl (user, known) ↦
                let user_id : Option String = elim user [ none ↦ none | some u ↦ some u.id ] in
                let new = invited_row out id w.id e user_id token by days now in
                let same : record t { members = upsert new (reinvite new) t.members } ≡ t' =
                  ground arith in
                subst IsSound same (
                  upsert-IsSound t sound new (reinvite new) (λ m'. refl) (λ m'. refl)
                    (first_where-own ws w t.workspaces there))
          ]
    ]
  ]

  pub accept_invitation-IsSound :
      (now : ℕ) (token : String) (user name : Option String) (answer : Reply (Option Member))
      → accept_invitation out now token user name t ≡ (answer, t')
      → IsSound t'
  unfolding accept_invitation activate
  accept_invitation-IsSound now token user name answer h =
      let change = activate out (parse_user out user) (accepted_name out user name t) in
      let chosen = is_invited_by out (strip token) in
      let changed = update-IsSound t sound chosen change (λ m'. refl) (λ m'. refl) in
      elim (Option-cases (get_invitation_by_token out now (strip token) t)) [
        | inl missing ↦ subst IsSound (ground arith) sound
        | inr (invite, there) ↦ elim (Bool-cases invite.is_expired) [
          | inl expired ↦ subst IsSound (ground arith) sound
          | inr alive ↦
              elim (Bool-cases (
                not (nat_eq (count_where chosen t.members) 0)
                && not (
                    fits 255 (or_default (accepted_name out user name t) "")
                    && is_known out (parse_user out user) t))) [
                      | inl unknown ↦ subst IsSound (ground arith) sound
                      | inr known ↦ subst IsSound (ground arith) changed
                    ]
        ]
      ]

  pub update_member_role-IsSound :
      (key ident role : String) (found : Bool)
      → update_member_role out key ident role t ≡ ok (found, t')
      → IsSound t'
  unfolding update_member_role
  update_member_role-IsSound key ident role found h = elim (Bool-cases (strip ident == "")) [
    | inl empty ↦ subst IsSound (ground arith) sound
    | inr given ↦ elim (resolve_cases out t key) [
      | inl missing ↦ subst IsSound (ground arith) sound
      | inr (inr (error, failed)) ↦ ground arith
      | inr (inl (ws, there)) ↦
          let chosen = ident_selects out t ws (strip (out.unquote (strip ident))) in
          subst IsSound (ground arith) (
            update-IsSound t sound chosen (λ m. record m { role = role }) (λ m'. refl) (λ m'. refl))
    ]
  ]

  pub remove_member-IsSound :
      (key ident : String) (found : Bool)
      → remove_member out key ident t ≡ ok (found, t')
      → IsSound t'
  unfolding remove_member
  remove_member-IsSound key ident found h = elim (Bool-cases (strip ident == "")) [
    | inl empty ↦ subst IsSound (ground arith) sound
    | inr given ↦ elim (resolve_cases out t key) [
      | inl missing ↦ subst IsSound (ground arith) sound
      | inr (inr (error, failed)) ↦ ground arith
      | inr (inl (ws, there)) ↦
          let chosen = ident_selects out t ws (strip (out.unquote (strip ident))) in
          subst IsSound (ground arith) (remove-IsSound t sound (λ m. not (chosen m)))
    ]
  ]

  add_rows-IsSound :
      (w : Workspace) (m : Member) → m.workspace_id ≡ w.id → IsSound (add_rows out w m t).1
  unfolding add_rows insert_workspace insert_member
  add_rows-IsSound w m own = elim (Reply-cases (insert_workspace w t >>= insert_member m)) [
    | inr (e, failed) ↦ rw (add_rows, failed) sound
    | inl (t'', inserted) ↦
        let fresh : count_where (has_id w.id) t.workspaces ≡ 0 = ground arith in
        let same : record t { workspaces = w ∷ t.workspaces; members = m ∷ t.members } ≡ t'' =
          ground arith in
        rw (add_rows, inserted) (subst IsSound same (add_housed t sound w m refl own fresh))
  ]

  pub create_workspace-IsSound :
      (id member random : String) (now : ℕ) (name by : String) (slug description : Option String)
      (answer : Reply (Option Workspace))
      → create_workspace out id member random now name by slug description t ≡ some (answer, t')
      → IsSound t'
  unfolding create_workspace creator_row new_workspace
  create_workspace-IsSound id member random now name by slug description answer h =
      let m = creator_row out member id by (creator out by t) now in
      let base = slugify random (text_or slug (strip name)) in
      elim (Option-cases (free_slug (suc (length t.workspaces)) base 1 t.workspaces)) [
        | inl taken ↦ absurd (ground arith)
        | inr (target, found) ↦
            let w = new_workspace out id now name by description target in
            let same : (add_rows out w m t).1 ≡ t' = ground arith in
            subst IsSound same (add_rows-IsSound w m refl)
      ]

  pub update_workspace-IsSound :
      (random : String) (now : ℕ) (key : String) (updates : Updates) (w : Option Workspace)
      → update_workspace out random now key updates t ≡ ok (w, t')
      → IsSound t'
  unfolding update_workspace apply_updates
  update_workspace-IsSound random now key updates w h =
      let parsed : Option String = if key == "" then none else out.uuid (strip key) in
      elim (Option-cases parsed) [
        | inl unparsed ↦ subst IsSound (ground arith) sound
        | inr (wid, fine) ↦ elim (Reply-cases (new_slug out random wid updates.slug t)) [
          | inr (error, taken) ↦ ground arith
          | inl (slug, free) ↦
              let changed =
                with_updates t sound (has_id wid) (apply_updates out now updates slug)
                  (λ w'. refl) in
              elim (Bool-cases (
                or_default updates.name "" == ""
                  && not (is_some updates.description)
                  && not (is_some slug)
                || nat_eq (count_where (has_id wid) t.workspaces) 0)) [
                  | inl nothing ↦ subst IsSound (ground arith) sound
                  | inr some_change ↦ subst IsSound (ground arith) changed
                ]
        ]
      ]

  pub delete_workspace-IsSound :
      (key : String) (found : Bool) → delete_workspace out key t ≡ ok (found, t') → IsSound t'
  unfolding delete_workspace
  delete_workspace-IsSound key found h = elim (Bool-cases (key == "")) [
    | inl empty ↦ subst IsSound (ground arith) sound
    | inr given ↦ elim (resolve_cases out t key) [
      | inl missing ↦ subst IsSound (ground arith) sound
      | inr (inr (error, failed)) ↦ ground arith
      | inr (inl (ws, there)) ↦ subst IsSound (ground arith) (without_workspace t sound ws)
    ]
  ]
