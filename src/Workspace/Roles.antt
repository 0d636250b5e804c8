-- ===== src/Workspace/Roles.antt =====
-- Changing and removing members by an identifier, and finding a workspace by name.
use auth_n_z.Common.{
  ltb, length, lower, strip, ◌<◌, String, ◌≡◌, refl, sym, ap, ◌∙◌, ◌≢◌, Bool, true, not, ◌&&◌, none,
  some, List, [], ◌∷◌, arith, ◌==◌, eq_iff, eq_refl,
}
use auth_n_z.Common.Rows.{
  ok, raised, rows_where, update_where, count_where, count_where-gone, rows_where-length,
  one_or_none,
}
use auth_n_z.Workspace.Tables.{Workspace, Member, Tables, Outside, has_name, named, resolve_ws_uuid}
use auth_n_z.Workspace.Members.{ident_selects, is_ws_role, update_member_role}

many_raise : (ws : List Workspace) → 1 < length ws → one_or_none ws ≡ raised "MultipleResultsFound"
many_raise [] h = ground arith
many_raise (w ∷ []) h = ground arith
many_raise (w ∷ v ∷ ws) h = refl

-- a row that an update does not select keeps what holds of it
kept :
    (p q : Member → Bool) (f : Member → Member) (ms : List Member)
    → ((m : Member) → q (f m) ≡ q m)
    → count_where (λ m. p m && not (q m)) (update_where q f ms)
      ≡ count_where (λ m. p m && not (q m)) ms
unfolding count_where update_where
kept p q f [] same = refl
kept p q f (m ∷ ms) same = ground (arith, same m, kept p q f ms same)

none_within :
    (p q : Member → Bool) (ms : List Member)
    → count_where q ms ≡ 0
    → ((m : Member) → p m ≡ true → q m ≡ true)
    → count_where p ms ≡ 0
unfolding count_where
none_within p q [] none_there within = refl
none_within p q (m ∷ ms) none_there within = ground (arith, within m, none_within p q ms)

module _ (out : Outside) where
  -- Where two workspaces or more each have a text as their name or as their slug, in any case, and the
  -- text is neither empty nor a UUID, none of them is found by it: the query raises, for the workspace
  -- whose slug it is as well.
  pub resolve_ws_uuid_ambiguous :
      (key : String) (t : Tables)
      → key ≢ ""
      → out.uuid (strip key) ≡ none
      → 1 < count_where (has_name (strip key)) t.workspaces
      → resolve_ws_uuid out key t ≡ raised "MultipleResultsFound"
  unfolding resolve_ws_uuid named
  resolve_ws_uuid_ambiguous key t filled other two =
      let many =
        many_raise (rows_where (has_name (strip key)) t.workspaces)
          (omega (arith, rows_where-length (has_name (strip key)) t.workspaces)) in
      ground (arith, eq_iff key "")

  -- the text by which `update_member_role` and `remove_member` find a member
  abbrev pub ident_of : String → String
  ident_of given = strip (out.unquote (strip given))

  role_kept :
      (t : Tables) (ws ident role : String) (m : Member)
      → ident_selects out t ws ident (record m { role = role }) ≡ ident_selects out t ws ident m
  unfolding ident_selects
  role_kept t ws ident role m = refl

  -- An accepted change of role gives one of the four roles of a workspace; every row that the
  -- identifier selects in the workspace has it then, the answer says whether there is one, and no
  -- other row changes.
  pub update_member_role-rows :
      (key given role ws : String) (found : Bool) (t t' : Tables)
      → strip given ≢ ""
      → resolve_ws_uuid out key t ≡ ok (some ws)
      → update_member_role out key given role t ≡ ok (found, t')
      → let chosen = ident_selects out t ws (ident_of given) in
        (is_ws_role out role ≡ true)
        × (found ≡ ltb 0 (count_where chosen t.members))
        × (count_where (λ m. chosen m && not (m.role == role)) t'.members ≡ 0)
        × ((p : Member → Bool)
            → count_where (λ m. p m && not (chosen m)) t'.members
              ≡ count_where (λ m. p m && not (chosen m)) t.members)
  unfolding update_member_role
  update_member_role-rows key given role ws found t t' filled resolved h =
      let chosen = ident_selects out t ws (ident_of given) in
      let change = λ (m : Member). record m { role = role } in
      let same : record t { members = update_where chosen change t.members } ≡ t' =
        ground (arith, eq_iff (strip given) "") in
      let ms : t'.members ≡ update_where chosen change t.members = ap (λ u. u.members) (sym same) in
      (
        ground arith,
        ground (arith, eq_iff (strip given) ""),
        ap (count_where (λ m. chosen m && not (m.role == role))) ms
            ∙ count_where-gone (λ m. chosen m && not (m.role == role)) chosen change t.members
                (λ m e. ground arith) (λ m. ground (arith, eq_refl role)),
        λ p.
            ap (count_where (λ m. p m && not (chosen m))) ms
            ∙ kept p chosen change t.members (role_kept t ws (ident_of given) role),
      )

  -- The identifier selects by the display name too: after an accepted change of role, every member
  -- of the workspace whose name is the identifier, in any case, has the new role, whatever its
  -- email.
  pub update_member_role-names :
      (key given role ws : String) (found : Bool) (t t' : Tables)
      → strip given ≢ ""
      → resolve_ws_uuid out key t ≡ ok (some ws)
      → update_member_role out key given role t ≡ ok (found, t')
      → count_where
          (λ (m : Member).
            m.workspace_id == ws && lower m.name == lower (ident_of given) && not (m.role == role))
          t'.members
        ≡ 0
  unfolding ident_selects
  update_member_role-names key given role ws found t t' filled resolved h =
      let chosen = ident_selects out t ws (ident_of given) in
      let (_, _, done, _) =
        update_member_role-rows key given role ws found t t' filled resolved h in
      none_within
        (λ m.
          m.workspace_id == ws && lower m.name == lower (ident_of given) && not (m.role == role))
        (λ m. chosen m && not (m.role == role)) t'.members done (λ m e. ground arith)
