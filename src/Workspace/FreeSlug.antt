-- ===== src/Workspace/FreeSlug.antt =====
-- The search for a free slug, and what `create_workspace` does with the slug that it finds.
use text.Mathlib.TextLemmas.{append_cancel_left, append-nil, cons-append}
use auth_n_z.Common.{
  ltb, nat_eq, if◌then◌else◌, Bool-cases, length, strip, ℕ, zero, suc, ◌+◌, ◌<◌, String, ◌≡◌, refl,
  sym, ap, ◌∙◌, subst, ◌≢◌, inl, inr, Bool, true, false, not, ◌&&◌, ◌||◌, Option, some, List, [],
  ◌∷◌, arith, ◌==◌, eq_iff, eq_refl, text_append, text_or, show_nat, show_nat-inj,
}
use auth_n_z.Common.Rows.{
  rows_where, count_where, count_where-rows, count_where-same, rows_where-length,
}
use auth_n_z.Workspace.Tables.{Workspace, Member, Tables, Outside, has_id, fits}
use auth_n_z.Workspace.Slug.{slugify, candidate, is_taken, free_slug}
use auth_n_z.Common.Rows.{ok, raised, first_where}
use auth_n_z.Workspace.Workspaces.{
  create_workspace, new_workspace, add_rows, insert_workspace, insert_member, get_workspace,
  creator, creator_row,
}

numbered-ne : (base : String) (n : ℕ) → base ≢ text_append base (text_append "-" (show_nat n))
numbered-ne base n e =
    let tail = append_cancel_left base "" (text_append "-" (show_nat n)) (append-nil base ∙ e) in
    cc (tail, cons-append "-" "" (show_nat n))

candidate-inj : (base : String) (i j : ℕ) → candidate base i ≡ candidate base j → i ≡ j
unfolding candidate
candidate-inj base i j e = elim (Bool-cases (nat_eq i 1)) [
  | inl one ↦ elim (Bool-cases (nat_eq j 1)) [
    | inl one' ↦ ground arith
    | inr more' ↦ absurd (numbered-ne base j (ground arith))
  ]
  | inr more ↦ elim (Bool-cases (nat_eq j 1)) [
    | inl one' ↦ absurd (numbered-ne base i (ground arith))
    | inr more' ↦
        let same : text_append base (text_append "-" (show_nat i))
            ≡ text_append base (text_append "-" (show_nat j)) =
          ground arith in
        let tails =
          append_cancel_left base (text_append "-" (show_nat i)) (text_append "-" (show_nat j))
            same in
        show_nat-inj i j (append_cancel_left "-" (show_nat i) (show_nat j) tails)
  ]
]

-- the workspaces with another slug
others : String → List Workspace → List Workspace
others slug ws = rows_where (λ (w : Workspace). not (w.slug == slug)) ws

taken-others :
    (slug other : String) (ws : List Workspace)
    → slug ≢ other
    → is_taken slug (others other ws) ≡ is_taken slug ws
unfolding others
taken-others slug other ws differ = ap (ltb 0) (
    count_where-rows (λ (w : Workspace). w.slug == slug) (λ (w : Workspace). not (w.slug == other))
      ws
    ∙ count_where-same (λ (w : Workspace). w.slug == slug && not (w.slug == other))
        (λ (w : Workspace). w.slug == slug) ws
        (λ w. ground (arith, eq_iff w.slug slug, eq_iff w.slug other)))

-- the search goes the same way without the workspaces of a slug that it does not try any more
free_slug-others :
    (fuel : ℕ) (base : String) (tried counter : ℕ) (ws : List Workspace)
    → tried < counter
    → free_slug fuel base counter (others (candidate base tried) ws)
      ≡ free_slug fuel base counter ws
unfolding free_slug
free_slug-others zero base tried counter ws past = refl
free_slug-others (suc fuel) base tried counter ws past =
    let differ : candidate base counter ≢ candidate base tried =
      λ e. omega (arith, candidate-inj base counter tried e) in
    ground (
      arith,
      taken-others (candidate base counter) (candidate base tried) ws differ,
      free_slug-others fuel base tried (counter + 1) ws,
    )

count_split :
    (p : Workspace → Bool) (ws : List Workspace)
    → count_where p ws + count_where (λ w. not (p w)) ws ≡ length ws
unfolding count_where
count_split p [] = omega arith
count_split p (w ∷ ws) = ground (arith, count_split p ws)

length-others :
    (slug : String) (ws : List Workspace)
    → is_taken slug ws ≡ true
    → length (others slug ws) < length ws
unfolding others
length-others slug ws taken = ground (
  arith,
  rows_where-length (λ (w : Workspace). not (w.slug == slug)) ws,
  count_split (λ (w : Workspace). w.slug == slug) ws,
)

free_slug_found :
    (fuel : ℕ) (base : String) (counter : ℕ) (ws : List Workspace)
    → length ws < fuel
    → (slug : String) × (free_slug fuel base counter ws ≡ some slug)
unfolding free_slug
free_slug_found zero base counter ws enough = absurd (omega arith)
free_slug_found (suc fuel) base counter ws enough =
    elim (Bool-cases (is_taken (candidate base counter) ws)) [
      | inr free ↦ (candidate base counter, ground arith)
      | inl taken ↦
          let ws' = others (candidate base counter) ws in
          let (slug, found) =
            free_slug_found fuel base (counter + 1) ws'
              (omega (arith, length-others (candidate base counter) ws taken)) in
          let same = free_slug-others fuel base counter (counter + 1) ws (omega arith) in
          (slug, rw (taken) (sym same ∙ found))
    ]

free_slug_free :
    (fuel : ℕ) (base : String) (counter : ℕ) (ws : List Workspace) (slug : String)
    → free_slug fuel base counter ws ≡ some slug
    → is_taken slug ws ≡ false
unfolding free_slug
free_slug_free zero base counter ws slug found = absurd (ground arith)
free_slug_free (suc fuel) base counter ws slug found =
    elim (Bool-cases (is_taken (candidate base counter) ws)) [
      | inr free ↦
          let same : candidate base counter ≡ slug = ground arith in
          subst (λ s. is_taken s ws ≡ false) same free
      | inl taken ↦
          let later : free_slug fuel base (counter + 1) ws ≡ some slug = ground arith in
          free_slug_free fuel base (counter + 1) ws slug later
    ]

-- a row that does not clash goes in exactly if its texts fit
insert_workspace_answer :
    (w : Workspace) (t : Tables)
    → count_where (has_id w.id) t.workspaces ≡ 0
    → is_taken w.slug t.workspaces ≡ false
    → insert_workspace w t ≡ (
        if fits 255 w.name && fits 255 w.slug && fits 255 w.created_by
        then ok (record t { workspaces = w ∷ t.workspaces })
        else raised "DBAPIError")
unfolding insert_workspace
insert_workspace_answer w t new free = ground arith

no_clash :
    (id ws email : String) (ms : List Member)
    → count_where (λ (n : Member). n.id == id) ms ≡ 0
    → count_where (λ (n : Member). n.workspace_id == ws) ms ≡ 0
    → count_where (λ (n : Member). n.id == id || n.workspace_id == ws && n.email == email) ms ≡ 0
unfolding count_where
no_clash id ws email [] new none_there = refl
no_clash id ws email (n ∷ ms) new none_there = ground (arith, no_clash id ws email ms)

insert_member_answer :
    (m : Member) (t : Tables)
    → count_where (λ (n : Member). n.id == m.id) t.members ≡ 0
    → count_where (λ (n : Member). n.workspace_id == m.workspace_id) t.members ≡ 0
    → insert_member m t ≡ (
        if fits 255 m.email && fits 255 m.name && fits 100 m.department && fits 255 m.invited_by
        then ok (record t { members = m ∷ t.members })
        else raised "DBAPIError")
unfolding insert_member
insert_member_answer m t new none_there =
    ground (arith, no_clash m.id m.workspace_id m.email t.members new none_there)

-- the texts of the two rows are within the lengths of their columns
abbrev pub rows_fit : Workspace → Member → Bool
rows_fit w m =
    (fits 255 w.name && fits 255 w.slug && fits 255 w.created_by)
    && (fits 255 m.email && fits 255 m.name && fits 100 m.department && fits 255 m.invited_by)

module _ (out : Outside) (w : Workspace) (m : Member) (t : Tables) where
  abbrev added : Tables
  added = record t { workspaces = w ∷ t.workspaces; members = m ∷ t.members }

  read_back : out.uuid (strip w.id) ≡ some w.id → w.id ≢ "" → get_workspace out w.id added ≡ some w
  unfolding get_workspace first_where
  read_back own filled = ground (arith, eq_iff w.id "", eq_refl w.id)

  add_rows_answer :
      m.workspace_id ≡ w.id
      → count_where (has_id w.id) t.workspaces ≡ 0
      → is_taken w.slug t.workspaces ≡ false
      → count_where (λ (n : Member). n.id == m.id) t.members ≡ 0
      → count_where (λ (n : Member). n.workspace_id == w.id) t.members ≡ 0
      → out.uuid (strip w.id) ≡ some w.id
      → w.id ≢ ""
      → add_rows out w m t
        ≡ (if rows_fit w m then (ok (some w), added) else (raised "DBAPIError", t))
  unfolding add_rows
  add_rows_answer own new free new' none_there parses filled = ground (
    arith,
    insert_workspace_answer w t new free,
    insert_member_answer m (record t { workspaces = w ∷ t.workspaces }) new' (rw own none_there),
    read_back parses filled,
  )

-- With new ids (the workspace's a UUID in its canonical text), creating a workspace ends, and finds a
-- slug that no workspace has. If the texts of the new workspace and of the creator's membership then
-- fit into their columns, both rows are added and the answer is that workspace; if not, the
-- database's error is raised and the tables are as they were.
pub create_workspace_fresh :
    (out : Outside) (id member random : String) (now : ℕ) (name by : String)
    (slug description : Option String) (t : Tables)
    → count_where (has_id id) t.workspaces ≡ 0
    → count_where (λ (n : Member). n.id == member) t.members ≡ 0
    → count_where (λ (n : Member). n.workspace_id == id) t.members ≡ 0
    → out.uuid (strip id) ≡ some id
    → id ≢ ""
    → (w : Workspace) × (m : Member) × (count_where
          (λ (v : Workspace). v.slug == w.slug)
          t.workspaces
        ≡ 0)
      × ((w.id ≡ id) × (w.name ≡ strip name) × (w.created_by ≡ by))
      × ((m.workspace_id ≡ id) × (m.role ≡ "admin") × (m.invited_by ≡ by))
      × (create_workspace out id member random now name by slug description t
          ≡ some (
              if rows_fit w m
              then (
                ok (some w),
                record t { workspaces = w ∷ t.workspaces; members = m ∷ t.members },
              )
              else (raised "DBAPIError", t)))
unfolding create_workspace new_workspace creator_row
create_workspace_fresh out id member random now name by slug description t new new' none_there
      parses filled =
    let base = slugify random (text_or slug (strip name)) in
    let (target, found) =
      free_slug_found (suc (length t.workspaces)) base 1 t.workspaces (omega arith) in
    let free = free_slug_free (suc (length t.workspaces)) base 1 t.workspaces target found in
    let w = new_workspace out id now name by description target in
    let m = creator_row out member id by (creator out by t) now in
    (
      w,
      m,
      ground arith,
      (refl, refl, refl),
      (refl, refl, refl),
      rw (create_workspace, found)
          (ap some (add_rows_answer out w m t refl new free new' none_there parses filled)),
    )
