-- ===== src/Workspace/Unique.antt =====
-- What holds of the tables after any sequence of operations: one membership for each workspace and
-- email, and every membership in a workspace that is there.
use auth_n_z.Common.{
  nat_eq, if◌then◌else◌, ◌≤◌, ◌<◌, String, ◌≡◌, ◌∙◌, subst, ◌≢◌, Bool, ◌&&◌, List, [], ◌∷◌, arith,
  ◌==◌, eq_iff,
}
use auth_n_z.Common.Rows.{
  rows_where, update_where, count_where, count_where-rows-le, count_where-update,
}
use auth_n_z.Workspace.Tables.{Member, Tables, has_id}
use auth_n_z.Workspace.Members.{same_key, upsert}

-- The constraint of the table: no two rows of one workspace and email.
unfoldable pub IsUnique : List Member → Type 0
IsUnique ms = (ws email : String) → count_where (same_key ws email) ms ≤ 1

upsert-IsUnique :
    (new : Member) (change : Member → Member) (ms : List Member)
    → ((ws email : String) (m : Member) → same_key ws email (change m) ≡ same_key ws email m)
    → (ws email : String)
    → count_where (same_key ws email) (upsert new change ms) ≡ (
        if same_key ws email new && nat_eq (count_where (same_key ws email) ms) 0
        then 1
        else count_where (same_key ws email) ms)
unfolding upsert same_key count_where
upsert-IsUnique new change [] keeps ws email = ground arith
upsert-IsUnique new change (m ∷ ms) keeps ws email = ground (
  arith,
  keeps ws email m,
  upsert-IsUnique new change ms keeps ws email,
  eq_iff m.workspace_id new.workspace_id,
  eq_iff m.email new.email,
  eq_iff m.workspace_id ws,
  eq_iff new.workspace_id ws,
  eq_iff m.email email,
  eq_iff new.email email,
)

abbrev pub is_in : String → Member → Bool
is_in ws m = m.workspace_id == ws

upsert-is_in :
    (new : Member) (change : Member → Member) (ms : List Member) (ws : String)
    → ((m : Member) → (change m).workspace_id ≡ m.workspace_id)
    → new.workspace_id ≢ ws
    → count_where (is_in ws) (upsert new change ms) ≡ count_where (is_in ws) ms
unfolding upsert same_key count_where
upsert-is_in new change [] ws keeps other = ground (arith, eq_iff new.workspace_id ws)
upsert-is_in new change (m ∷ ms) ws keeps other =
    ground (arith, keeps m, upsert-is_in new change ms ws keeps other, eq_iff new.workspace_id ws)

-- One row for each workspace and email; one workspace for each id; no member of a workspace that is
-- not there.
pub record IsSound (t : Tables) : Type 0 where
  pub unique : IsUnique t.members
  pub ids : (ws : String) → count_where (has_id ws) t.workspaces ≤ 1
  pub housed :
      (ws : String)
      → count_where (has_id ws) t.workspaces ≡ 0
      → count_where (is_in ws) t.members ≡ 0

module _ (t : Tables) (sound : IsSound t) where
  pub upsert-IsSound :
      (new : Member) (change : Member → Member)
      → ((m : Member) → (change m).workspace_id ≡ m.workspace_id)
      → ((m : Member) → (change m).email ≡ m.email)
      → 0 < count_where (has_id new.workspace_id) t.workspaces
      → IsSound (record t { members = upsert new change t.members })
  unfolding IsUnique same_key
  upsert-IsSound new change keeps keeps' there = record {
    unique = λ ws email. ground (
      arith,
      sound.unique ws email,
      upsert-IsUnique new change t.members (λ ws' email' m. ground (arith, keeps m, keeps' m)) ws
          email,
    );
    ids = sound.ids;
    housed = λ ws none_there.
        let other : new.workspace_id ≢ ws =
          λ e. omega (arith, subst (λ w. 0 < count_where (has_id w) t.workspaces) e there) in
        upsert-is_in new change t.members ws keeps other ∙ sound.housed ws none_there;
  }

  pub update-IsSound :
      (p : Member → Bool) (change : Member → Member)
      → ((m : Member) → (change m).workspace_id ≡ m.workspace_id)
      → ((m : Member) → (change m).email ≡ m.email)
      → IsSound (record t { members = update_where p change t.members })
  unfolding IsUnique same_key
  update-IsSound p change keeps keeps' = record {
    unique = λ ws email. ground (
      arith,
      sound.unique ws email,
      count_where-update (same_key ws email) p change t.members
          (λ m. ground (arith, keeps m, keeps' m)),
    );
    ids = sound.ids;
    housed = λ ws none_there.
        count_where-update (is_in ws) p change t.members (λ m. ground (arith, keeps m))
        ∙ sound.housed ws none_there;
  }

  pub remove-IsSound : (p : Member → Bool) → IsSound (record t { members = rows_where p t.members })
  unfolding IsUnique
  remove-IsSound p = record {
    unique = λ ws email.
        omega (arith, sound.unique ws email, count_where-rows-le (same_key ws email) p t.members);
    ids = sound.ids;
    housed = λ ws none_there.
        omega (arith, sound.housed ws none_there, count_where-rows-le (is_in ws) p t.members);
  }
