-- ===== src/Examples/Orgs.antt =====
-- The theorems on internal/org at one organization with an invitation that is accepted twice.
use redis_meter.Base.{ℕ, some, List, [], ◌∷◌, ◌++◌, ◌≡◌, refl, eq_iff, String, arith}
use redis_meter.Base.Int.{pos}
use redis_meter.Base.Dict.{get, put, find_where, items}
use redis_meter.Org.Model.{OrgManager, OrgMember, TeamMember, new_org_manager, role_member}
use redis_meter.Org.Organizations.{Founding, founded, first_owner, is_named, create_organization}
use redis_meter.Org.Invitations.{
  Invite, invitation_of, create_invitation, accept_found, accept_invitation, admit_invited,
  invited_member,
}
use redis_meter.Org.Members.{owner_count, member_index, leave, remove_found, remove_org_member}
use redis_meter.Org.Teams.{new_team}
use redis_meter.Org.Calls
use redis_meter.Org.Calls.{Call, step, run_calls}
use redis_meter.Org.Invariant.{Inv}
use redis_meter.Org.Histories.{new-run_calls-Inv}
use redis_meter.Org.Names.{new-run_calls-NamesOnce}
use redis_meter.Org.Removal.{remove_org_member_effect}
use redis_meter.Org.Reuse.{accept_again}

abbrev acme : Founding
acme = record {
  name = "acme";
  display_name = "Acme";
  description = "";
  owner_user_id = "ann";
  owner_email = "ann@acme.org";
  owner_name = "Ann";
}

abbrev invite : Invite
invite = record {
  id = "i1";
  token = "t1";
  org_id = "o1";
  team_id = "";
  email = "bob@acme.org";
  role = role_member;
  invited_by = "ann";
  expires_in = pos 100;
}

abbrev history : List (ℕ × Call)
history =
    (1, Calls.creates_organization "o1" acme)
    ∷ (2, Calls.creates_organization "o2" acme)
    ∷ (3, Calls.creates_invitation invite)
    ∷ []

abbrev joining : List (ℕ × Call)
joining = history ++ ((4, Calls.accepts_invitation "t1" "bob" "bob@acme.org" "Bob") ∷ [])

new-run_calls-Inv_example : Inv (run_calls new_org_manager joining)
new-run_calls-Inv_example = new-run_calls-Inv joining

abbrev o1 : String
o1 = "o1"

new-run_calls-NamesOnce_example : o1 ≡ o1
unfolding run_calls step new_org_manager create_organization create_invitation accept_invitation
    accept_found admit_invited find_where is_named founded get put invitation_of
new-run_calls-NamesOnce_example =
    new-run_calls-NamesOnce joining o1 o1 (founded 1 o1 acme) (founded 1 o1 acme) refl refl refl

abbrev bob : TeamMember
bob = record {
  team_id = "t1";
  user_id = "bob";
  email = "bob@acme.org";
  name = "Bob";
  role = role_member;
  joined_at = 4;
}

abbrev founder : OrgMember
founder = first_owner 1 o1 acme

-- Ann owns the organization and Bob is a member, of a team too.
abbrev staffed : OrgManager
staffed = record {
  orgs = (o1, founded 1 o1 acme) ∷ [];
  teams = ("t1", new_team 1 "t1" o1 "core" "" "") ∷ [];
  org_members =
      (o1, first_owner 1 o1 acme ∷ invited_member 4 (invitation_of 3 invite) "bob" "" "" ∷ []) ∷ [];
  team_members = ("t1", bob ∷ []) ∷ [];
  invitations = ("t1", invitation_of 3 invite) ∷ [];
}

remove_org_member_effect_example :
    get (remove_org_member staffed o1 "bob").0.team_members "t1" ≡ some []
unfolding remove_org_member remove_found member_index invited_member first_owner owner_count get
    leave new_team invitation_of
remove_org_member_effect_example =
    (remove_org_member_effect staffed o1 "bob" "ann" "t1" (refl, tt)
      (ground (arith, eq_iff "ann" "bob")) refl).6

accept_again_example :
    get
      (accept_invitation
        (accept_invitation staffed 5 "t1" "bob" "bob@acme.org" "Bob").0
        6
        "t1"
        "eve"
        "bob@acme.org"
        "Bob").0.org_members
      o1
    ≡ some (
        (items (get staffed.org_members o1)
          ++ (invited_member 5 (invitation_of 3 invite) "bob" "bob@acme.org" "Bob" ∷ []))
        ++ (invited_member 6 (invitation_of 3 invite) "eve" "bob@acme.org" "Bob" ∷ []))
unfolding get invitation_of
accept_again_example =
    (accept_again staffed 5 6 "t1" "bob" "eve" "Bob" (invitation_of 3 invite) refl (omega arith)
      (omega arith)).2
