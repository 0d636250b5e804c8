-- ===== src/Workspace/Examples.antt =====
-- The workspaces at concrete tables.
use auth_n_z.Common.{
  ltb, if◌then◌else◌, is_some, lower, strip, before, ◌≤◌, String, ◌≡◌, refl, ◌≢◌, true, false, not,
  ◌&&◌, none, some, List, [], ◌∷◌, arith, ◌==◌, starts_with, text_append,
}
use auth_n_z.Common.Rows.{ok, raised, rows_where, first_where, update_where, count_where}
use auth_n_z.Workspace.Tables.{
  Workspace, Member, Account, Tables, Outside, has_id, named, resolve_ws_uuid, hash_token,
  account_of, text_length,
}
use auth_n_z.Workspace.Slug.{keep_words, join_words, slugify, candidate, free_slug}
use auth_n_z.Workspace.Workspaces.{
  tidy_text, creator, creator_row, create_workspace, new_workspace, add_rows, insert_workspace,
  insert_member, get_workspace, department_or,
}
use auth_n_z.Workspace.Members.{
  Enrolment, Invitation, clean_email, same_key, upsert, invited_row, invited_name, activate,
  accepted_name, parse_user, is_invited_by, late, get_invitation_by_token, invite_member,
  accept_invitation, is_known, get_member, key_selects, any_selects, member_keys, ident_selects,
  update_member_role,
}
use auth_n_z.Workspace.Unique.{is_in}
use auth_n_z.Workspace.FreeSlug.{rows_fit, create_workspace_fresh}
use auth_n_z.Workspace.Steps.{Reach, here, next, creates, invites, start, Reach-sound}
use auth_n_z.Workspace.Invitations.{
  accept_invitation_once, get_invitation-invite_member, stored_text_opens,
}
use auth_n_z.Workspace.Roles.{ident_of, resolve_ws_uuid_ambiguous, update_member_role-names}

abbrev outside : Outside
outside = record {
  uuid = λ t. if starts_with t "u-" then some t else none;
  sha256 = text_append "h:";
  unquote = λ t. t;
}

abbrev alice : Account
alice = record {
  id = "u-alice";
  username = "Alice";
  email = "alice@x.org";
  meta_name = none;
  meta_department = some (some "Research");
}

abbrev users : List Account
users = alice ∷ []

abbrev lab : Workspace
lab = record {
  id = "u-w1";
  name = "The Lab";
  slug = "the-lab";
  description = none;
  created_by = "u-alice";
  created_at = 5;
  updated_at = 5;
}

abbrev owner : Member
owner = record {
  id = "u-m1";
  workspace_id = "u-w1";
  user_id = some "u-alice";
  email = "alice@x.org";
  name = "Alice";
  role = "admin";
  department = "Research";
  status = "active";
  invited_by = "u-alice";
  invite_token = none;
  expires_at = none;
  invited_at = 5;
}

abbrev founded : Tables
founded = record { workspaces = lab ∷ []; members = owner ∷ []; users = users }

abbrev token : String
token = "tok"

abbrev bob : Enrolment
bob = record { email = " Bob@x.org"; name = none; role = "viewer"; department = "General" }

abbrev guest : Member
guest = record {
  id = "u-m2";
  workspace_id = "u-w1";
  user_id = none;
  email = "bob@x.org";
  name = "bob";
  role = "viewer";
  department = "General";
  status = "invited";
  invited_by = "Admin";
  invite_token = some "h:tok";
  expires_at = some 604810;
  invited_at = 10;
}

abbrev opened : Tables
opened = record { workspaces = lab ∷ []; members = owner ∷ guest ∷ []; users = users }

abbrev bob_active : Member
bob_active = record guest { status = "active"; invite_token = none; expires_at = none }

abbrev joined : Tables
joined = record { workspaces = lab ∷ []; members = owner ∷ bob_active ∷ []; users = users }

founding :
    create_workspace outside "u-w1" "u-m1" "workspace-0" 5 " The Lab" "u-alice" none none
      (start users)
    ≡ some (ok (some lab), founded)
unfolding create_workspace new_workspace add_rows insert_workspace insert_member get_workspace
    department_or text_length creator_row creator free_slug slugify keep_words join_words candidate
    tidy_text strip lower count_where first_where
founding = refl

inviting :
    invite_member outside "u-m2" token 10 "the-lab" bob "Admin" 7 founded
    ≡ ok ((record guest { invite_token = some token }, "The Lab"), opened)
unfolding invite_member text_length resolve_ws_uuid named rows_where first_where invited_row upsert
    same_key lower strip invited_name hash_token before
inviting = refl

history : Reach outside users opened
unfolding count_where
history =
    next
      (next here (
        creates "u-w1" "u-m1" "workspace-0" 5 " The Lab" "u-alice" none none (ok (some lab))
          founding))
      (invites "u-m2" token 10 "the-lab" bob "Admin" 7
        (record guest { invite_token = some token }, "The Lab") inviting)

Reach-sound_example :
    ((ws email : String) → count_where (same_key ws email) opened.members ≤ 1)
    × ((ws : String) → count_where (has_id ws) opened.workspaces ≤ 1)
    × ((ws : String)
        → count_where (has_id ws) opened.workspaces ≡ 0
        → count_where (is_in ws) opened.members ≡ 0)
Reach-sound_example = Reach-sound outside users history

abbrev new_id : String
new_id = "u-w2"

create_workspace_fresh_example :
    (w : Workspace) × (m : Member) × (count_where
        (λ (v : Workspace). v.slug == w.slug)
        founded.workspaces
      ≡ 0)
    × ((w.id ≡ new_id) × (w.name ≡ strip "The lab") × (w.created_by ≡ "u-alice"))
    × ((m.workspace_id ≡ new_id) × (m.role ≡ "admin") × (m.invited_by ≡ "u-alice"))
    × (create_workspace outside new_id "u-m3" "workspace-1" 6 "The lab" "u-alice" none none founded
        ≡ some (
            if rows_fit w m
            then (
              ok (some w),
              record founded { workspaces = w ∷ lab ∷ []; members = m ∷ owner ∷ [] },
            )
            else (raised "DBAPIError", founded)))
unfolding count_where strip
create_workspace_fresh_example =
    create_workspace_fresh outside new_id "u-m3" "workspace-1" 6 "The lab" "u-alice" none none
      founded refl refl refl refl (λ e. cc e)

abbrev twice : String → String
twice s = text_append s s

-- a slug of 256 characters
abbrev long_slug : String
long_slug = twice (twice (twice (twice "aaaaaaaaaaaaaaaa")))

long_slug_raises :
    create_workspace outside new_id "u-m3" "workspace-1" 6 "The lab" "u-alice"
      (some long_slug)
      none
      founded
    ≡ some (raised "DBAPIError", founded)
unfolding create_workspace new_workspace add_rows insert_workspace text_length creator_row creator
    free_slug slugify keep_words join_words candidate tidy_text strip lower count_where first_where
long_slug_raises = refl

found_there :
    get_invitation_by_token outside 20 token opened
    ≡ some (record { row = guest; workspace = lab; is_expired = false })
unfolding get_invitation_by_token first_where is_invited_by strip late hash_token
found_there = refl

accepting : accept_invitation outside 20 token none none opened ≡ (ok (some bob_active), joined)
unfolding accept_invitation text_length is_known get_invitation_by_token first_where is_invited_by
    strip late hash_token parse_user accepted_name activate count_where update_where resolve_ws_uuid
    named rows_where lower get_member member_keys any_selects key_selects account_of
accepting = refl

-- a user id that no account has breaks the foreign key, and the invitation stays
stranger :
    accept_invitation outside 20 token (some "u-eve") none opened
    ≡ (raised "IntegrityError", opened)
unfolding accept_invitation text_length is_known get_invitation_by_token first_where is_invited_by
    strip late hash_token parse_user accepted_name activate count_where update_where
stranger = refl

filled : token ≢ ""
filled e = cc e

accept_invitation_once_example :
    (get_invitation_by_token outside 30 token joined ≡ none)
    × (accept_invitation outside 30 token (some "u-eve") none joined ≡ (ok none, joined))
unfolding strip
accept_invitation_once_example =
    accept_invitation_once outside 20 30 token none none (some "u-eve") none
      (record { row = guest; workspace = lab; is_expired = false }) (some bob_active) opened joined
      refl found_there refl accepting

unused : count_where (is_invited_by outside token) founded.members ≡ 0
unfolding count_where is_invited_by hash_token strip
unused = refl

known : resolve_ws_uuid outside "the-lab" founded ≡ ok (some "u-w1")
unfolding resolve_ws_uuid named rows_where lower strip
known = refl

get_invitation-invite_member_example :
    (invite : Invitation) × (get_invitation_by_token outside 20 token opened ≡ some invite)
    × (invite.row.workspace_id ≡ "u-w1")
    × (invite.row.email ≡ clean_email bob)
    × (invite.row.role ≡ "viewer")
    × (invite.is_expired ≡ ltb 604810 20)
unfolding strip
get_invitation-invite_member_example =
    get_invitation-invite_member outside "u-m2" token 10 20 "the-lab" "u-w1" bob "Admin" 7
      (record guest { invite_token = some token }, "The Lab") founded opened refl filled unused
      known inviting

abbrev digest : String
digest = "h:tok"

stored_text_opens_example : is_some (get_invitation_by_token outside 20 digest opened) ≡ true
unfolding strip count_where first_where
stored_text_opens_example =
    stored_text_opens outside 20 digest opened refl (λ e. cc e) (omega arith)

-- someone names a workspace as the slug of another
abbrev squatted : Tables
squatted = record founded {
  workspaces = record lab { id = "u-w2"; name = "the-lab"; slug = "other" } ∷ lab ∷ [];
}

abbrev lab_key : String
lab_key = "the-lab"

resolve_ws_uuid_ambiguous_example :
    resolve_ws_uuid outside lab_key squatted ≡ raised "MultipleResultsFound"
unfolding strip lower count_where
resolve_ws_uuid_ambiguous_example =
    resolve_ws_uuid_ambiguous outside lab_key squatted (λ e. cc e) refl (omega arith)

-- Eve's display name is Alice's email
abbrev eve : Member
eve = record owner {
  id = "u-m9";
  user_id = some "u-eve";
  email = "eve@x.org";
  name = "alice@x.org";
  role = "viewer";
}

abbrev with_eve : Tables
with_eve = record founded { members = record owner { role = "viewer" } ∷ eve ∷ [] }

abbrev promoted : Tables
promoted = record founded { members = owner ∷ record eve { role = "admin" } ∷ [] }

abbrev alice_email : String
alice_email = "alice@x.org"

promoting : update_member_role outside "the-lab" alice_email "admin" with_eve ≡ ok (true, promoted)
unfolding update_member_role ident_selects update_where count_where resolve_ws_uuid named rows_where
    lower strip
promoting = refl

known_too : resolve_ws_uuid outside "the-lab" with_eve ≡ ok (some "u-w1")
unfolding resolve_ws_uuid named rows_where lower strip
known_too = refl

update_member_role-names_example :
    count_where
      (λ (m : Member).
        m.workspace_id == "u-w1"
        && lower m.name == lower (ident_of outside alice_email)
        && not (m.role == "admin"))
      promoted.members
    ≡ 0
unfolding strip
update_member_role-names_example =
    update_member_role-names outside "the-lab" alice_email "admin" "u-w1" true with_eve promoted
      (λ e. cc e) known_too promoting
