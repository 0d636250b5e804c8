-- ===== src/Workspace/Steps.antt =====
-- The operations of the repository as steps of its tables. Other requests come in any order between.
use auth_n_z.Common.{ℕ, ◌≤◌, String, ◌≡◌, refl, Bool, Option, some, List, [], arith}
use auth_n_z.Common.Rows.{Reply, ok, count_where}
use auth_n_z.Workspace.Tables.{Workspace, Member, Account, Tables, Outside, has_id}
use auth_n_z.Workspace.Workspaces.{Updates, create_workspace, update_workspace, delete_workspace}
use auth_n_z.Workspace.Members.{
  Enrolment, add_member, invite_member, accept_invitation, update_member_role, remove_member,
  same_key,
}
use auth_n_z.Workspace.Unique.{IsUnique, IsSound, is_in}
use auth_n_z.Workspace.Sound.{
  create_workspace-IsSound, update_workspace-IsSound, delete_workspace-IsSound, add_member-IsSound,
  invite_member-IsSound, accept_invitation-IsSound, update_member_role-IsSound,
  remove_member-IsSound,
}

-- Where an operation raises, it is a step as far as it has changed the tables before.
pub data Step (out : Outside) (t t' : Tables) : Type 0 where
  creates :
      (id member random : String) (now : ℕ) (name by : String) (slug description : Option String)
      (answer : Reply (Option Workspace))
      → create_workspace out id member random now name by slug description t ≡ some (answer, t')
      → Step out t t'
  updates :
      (random : String) (now : ℕ) (key : String) (changes : Updates) (w : Option Workspace)
      → update_workspace out random now key changes t ≡ ok (w, t')
      → Step out t t'
  deletes :
      (key : String) (found : Bool) → delete_workspace out key t ≡ ok (found, t') → Step out t t'
  enrols :
      (id : String) (now : ℕ) (key : String) (e : Enrolment) (user : Option String)
      (status : String) (by : Option String) (answer : Reply (Option Member))
      → add_member out id now key e user status by t ≡ (answer, t')
      → Step out t t'
  invites :
      (id token : String) (now : ℕ) (key : String) (e : Enrolment) (by : String) (days : ℕ)
      (answer : Member × String)
      → invite_member out id token now key e by days t ≡ ok (answer, t')
      → Step out t t'
  accepts :
      (now : ℕ) (token : String) (user name : Option String) (answer : Reply (Option Member))
      → accept_invitation out now token user name t ≡ (answer, t')
      → Step out t t'
  promotes :
      (key ident role : String) (found : Bool)
      → update_member_role out key ident role t ≡ ok (found, t')
      → Step out t t'
  removes :
      (key ident : String) (found : Bool)
      → remove_member out key ident t ≡ ok (found, t')
      → Step out t t'

-- from tables with users only
abbrev pub start : List Account → Tables
start users = record { workspaces = []; members = []; users = users }

pub data Reach (out : Outside) (users : List Account) : Tables → Type 0 where
  here : Reach out users (start users)
  next : {t t' : Tables} → Reach out users t → Step out t t' → Reach out users t'

Step-IsSound : (out : Outside) (t t' : Tables) → Step out t t' → IsSound t → IsSound t'
Step-IsSound out t t' (creates id m r now n by s d answer h) v =
    create_workspace-IsSound out t t' v id m r now n by s d answer h
Step-IsSound out t t' (updates r now key u w h) v =
    update_workspace-IsSound out t t' v r now key u w h
Step-IsSound out t t' (deletes key found h) v = delete_workspace-IsSound out t t' v key found h
Step-IsSound out t t' (enrols id now key e user status by m h) v =
    add_member-IsSound out t t' v id now key e user status by m h
Step-IsSound out t t' (invites id token now key e by days a h) v =
    invite_member-IsSound out t t' v id token now key e by days a h
Step-IsSound out t t' (accepts now token user name m h) v =
    accept_invitation-IsSound out t t' v now token user name m h
Step-IsSound out t t' (promotes key ident role found h) v =
    update_member_role-IsSound out t t' v key ident role found h
Step-IsSound out t t' (removes key ident found h) v =
    remove_member-IsSound out t t' v key ident found h

start-IsSound : (users : List Account) → IsSound (start users)
unfolding IsUnique count_where
start-IsSound users = record {
  unique = λ ws email. omega arith;
  ids = λ ws. omega arith;
  housed = λ ws h. refl;
}

Reach-IsSound : (out : Outside) (users : List Account) {t : Tables} → Reach out users t → IsSound t
Reach-IsSound out users here = start-IsSound users
Reach-IsSound out users (next {t} {t'} r step) =
    Step-IsSound out t t' step (Reach-IsSound out users r)

-- After any sequence of the operations on workspaces, members and invitations, in any order and with
-- any errors among them, a workspace has at most one row for an email, an id is that of at most one
-- workspace, and a workspace that is not there, deleted ones included, has no members and no
-- invitations.
pub Reach-sound :
    (out : Outside) (users : List Account) {t : Tables}
    → Reach out users t
    → ((ws email : String) → count_where (same_key ws email) t.members ≤ 1)
      × ((ws : String) → count_where (has_id ws) t.workspaces ≤ 1)
      × ((ws : String)
          → count_where (has_id ws) t.workspaces ≡ 0
          → count_where (is_in ws) t.members ≡ 0)
unfolding IsUnique
Reach-sound out users r = let v = Reach-IsSound out users r in (v.unique, v.ids, v.housed)
