-- ===== src/Org/Histories.antt =====
-- The invariant of internal/org/org.go, and the calls on teams and invitations and the histories.
use redis_meter.Base.{
  ℕ, List, [], ◌∷◌, ◌≡◌, String, str_eq, arith, inl, inr, ltb, Option-cases, Bool-cases,
}
use redis_meter.Base.Dict.{
  get, is_some, put-EveryValue, remove-EveryValue, get-EveryValue, drop_where-EveryValue,
}
use redis_meter.Org.Model.{Invitation, OrgManager, new_org_manager, TeamSettings, Role}
use redis_meter.Org.Organizations.{Updates}
use redis_meter.Org.Teams.{create_team, update_team, delete_team, invites_to_team}
use redis_meter.Org.Members.{add_to_team, add_team_member, remove_team_member}
use redis_meter.Org.Invitations.{
  Invite, create_invitation, accept_found, accept_invitation, admit_invited, invited_member,
  invitation_of, revoke_invitation,
}
use redis_meter.Org.Calls
use redis_meter.Org.Calls.{Call, step, run_calls}
use redis_meter.Org.Owners.{Owned}
use redis_meter.Org.Invariant.{
  Inv, InvitesTo, create_organization-Inv, update_organization-Inv, delete_organization-Inv,
  append-Inv, add_org_member-Inv, remove_org_member-Inv, update_org_member_role-Inv,
}

-- The calls on teams and their members leave the organizations and their members alone.
create_team-Inv :
    (m : OrgManager) (now : ℕ) (id o n d e : String) → Inv m → Inv (create_team m now id o n d e).0
unfolding create_team
create_team-Inv m now id o n d e h = record {
  owned = ground (arith, h.owned);
  hosted = ground (arith, h.hosted);
}

update_team-Inv :
    (m : OrgManager) (now : ℕ) (id : String) (u : Updates TeamSettings)
    → Inv m
    → Inv (update_team m now id u).0
unfolding update_team
update_team-Inv m now id u h = record {
  owned = ground (arith, h.owned);
  hosted = ground (arith, h.hosted);
}

delete_team-Inv : (m : OrgManager) (id : String) → Inv m → Inv (delete_team m id).0
unfolding delete_team
delete_team-Inv m id h = elim (Bool-cases (is_some (get m.teams id))) [
  | inl e ↦
      rw (e, delete_team)
        (record {
          owned = h.owned;
          hosted =
              drop_where-EveryValue _ _ (invites_to_team id) m.invitations (λ i n g. g) h.hosted;
        })
  | inr e ↦ rw (e, delete_team) h
]

add_team_member-Inv :
    (m : OrgManager) (now : ℕ) (id user email name : String) (r : Role)
    → Inv m
    → Inv (add_team_member m now id user email name r).0
unfolding add_team_member add_to_team
add_team_member-Inv m now id user email name r h = record {
  owned = ground (arith, h.owned);
  hosted = ground (arith, h.hosted);
}

remove_team_member-Inv :
    (m : OrgManager) (id user : String) → Inv m → Inv (remove_team_member m id user).0
unfolding remove_team_member
remove_team_member-Inv m id user h = record {
  owned = ground (arith, h.owned);
  hosted = ground (arith, h.hosted);
}

create_invitation-Inv :
    (m : OrgManager) (now : ℕ) (v : Invite) → Inv m → Inv (create_invitation m now v).0
unfolding create_invitation invitation_of
create_invitation-Inv m now v h = elim (Bool-cases (is_some (get m.orgs v.org_id))) [
  | inl e ↦ record {
    owned = ground (arith, h.owned);
    hosted = ground (
      arith,
      h.hosted,
      put-EveryValue (InvitesTo m.orgs) m.invitations v.token (invitation_of now v) e h.hosted,
    );
  }
  | inr e ↦ rw (e, create_invitation) h
]

pub admit_invited-orgs :
    (m : OrgManager) (now : ℕ) (i : Invitation) (user email name : String)
    → (admit_invited m now i user email name).orgs ≡ m.orgs
unfolding admit_invited add_to_team
admit_invited-orgs m now i user email name = ground arith

admit_invited-Owned :
    (m : OrgManager) (now : ℕ) (i : Invitation) (user email name : String)
    → InvitesTo m.orgs i
    → Inv m
    → Owned (admit_invited m now i user email name)
unfolding admit_invited add_to_team
admit_invited-Owned m now i user email name p h = elim (Option-cases (get m.orgs i.org_id)) [
  | inl e ↦ absurd (ground (arith, p, e))
  | inr (o, e) ↦
      ground (arith, (append-Inv m i.org_id o (invited_member now i user email name) e h).owned)
]

accept_found-Inv :
    (m : OrgManager) (now : ℕ) (token : String) (i : Invitation) (user email name : String)
    → InvitesTo m.orgs i
    → Inv m
    → Inv (accept_found m now token i user email name).0
unfolding accept_found
accept_found-Inv m now token i user email name p h = elim (Bool-cases (ltb i.expires_at now)) [
  | inl e ↦
      rw (e, accept_found)
        (record {
          owned = h.owned;
          hosted = remove-EveryValue (InvitesTo m.orgs) m.invitations token h.hosted;
        })
  | inr e ↦ elim (Bool-cases (str_eq i.email email)) [
    | inl f ↦
        rw (e, f, accept_found)
          (record {
            owned = admit_invited-Owned m now i user email name p h;
            hosted =
                rw (admit_invited-orgs m now i user email name)
                  (put-EveryValue (InvitesTo m.orgs) m.invitations token _ p h.hosted);
          })
    | inr f ↦ rw (e, f, accept_found) h
  ]
]

accept_invitation-Inv :
    (m : OrgManager) (now : ℕ) (token user email name : String)
    → Inv m
    → Inv (accept_invitation m now token user email name).0
unfolding accept_invitation
accept_invitation-Inv m now token user email name h =
    elim (Option-cases (get m.invitations token)) [
      | inl e ↦ rw (e, accept_invitation) h
      | inr (i, e) ↦
          rw (e, accept_invitation)
            (accept_found-Inv m now token i user email name
              (get-EveryValue (InvitesTo m.orgs) m.invitations token i h.hosted e) h)
    ]

revoke_invitation-Inv : (m : OrgManager) (t : String) → Inv m → Inv (revoke_invitation m t).0
unfolding revoke_invitation
revoke_invitation-Inv m t h = record {
  owned = ground (arith, h.owned);
  hosted = ground (arith, h.hosted, remove-EveryValue (InvitesTo m.orgs) m.invitations t h.hosted);
}

step-Inv : (m : OrgManager) (c : ℕ × Call) → Inv m → Inv (step m c)
unfolding step
step-Inv m (now, Calls.creates_organization id f) = create_organization-Inv m now id f
step-Inv m (now, Calls.updates_organization id u) = update_organization-Inv m now id u
step-Inv m (now, Calls.deletes_organization id) = delete_organization-Inv m id
step-Inv m (now, Calls.creates_team id o n d e) = create_team-Inv m now id o n d e
step-Inv m (now, Calls.updates_team id u) = update_team-Inv m now id u
step-Inv m (now, Calls.deletes_team id) = delete_team-Inv m id
step-Inv m (now, Calls.adds_org_member o u e n r b) = add_org_member-Inv m now o u e n r b
step-Inv m (now, Calls.removes_org_member o u) = remove_org_member-Inv m o u
step-Inv m (now, Calls.changes_role o u r) = update_org_member_role-Inv m o u r
step-Inv m (now, Calls.adds_team_member t u e n r) = add_team_member-Inv m now t u e n r
step-Inv m (now, Calls.removes_team_member t u) = remove_team_member-Inv m t u
step-Inv m (now, Calls.creates_invitation v) = create_invitation-Inv m now v
step-Inv m (now, Calls.accepts_invitation t u e n) = accept_invitation-Inv m now t u e n
step-Inv m (now, Calls.revokes_invitation t) = revoke_invitation-Inv m t

run_calls-Inv : (m : OrgManager) (cs : List (ℕ × Call)) → Inv m → Inv (run_calls m cs)
unfolding run_calls
run_calls-Inv m [] h = h
run_calls-Inv m (c ∷ cs) h = run_calls-Inv (step m c) cs (step-Inv m c h)

-- After any sequence of calls from a new manager, each organization has members, one of them an
-- owner at least; no other identifier has members; and each invitation, open or accepted, is to an
-- organization that exists.
pub new-run_calls-Inv : (cs : List (ℕ × Call)) → Inv (run_calls new_org_manager cs)
unfolding new_org_manager get
new-run_calls-Inv cs = run_calls-Inv new_org_manager cs (record { owned = λ k. tt; hosted = tt })
