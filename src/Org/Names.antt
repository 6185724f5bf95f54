-- ===== src/Org/Names.antt =====
-- The names of the organizations in internal/org/org.go.
use redis_meter.Base.{
  ℕ, none, some, List, [], ◌∷◌, ◌≡◌, refl, sym, ap, subst, ◌∙◌, String, eq_refl, arith, inl, inr,
  Option-cases, Bool-cases,
}
use redis_meter.Base.Dict.{
  Dict, get, put, remove, is_some, find_where, found_in_put, found_in_remove,
}
use redis_meter.Org.Model.{OrgSettings, Organization, Invitation, OrgManager, new_org_manager, Role}
use redis_meter.Org.Organizations.{
  is_named, Founding, founded, Updates, updated_org, create_organization, update_organization,
  delete_organization,
}
use redis_meter.Org.Teams.{create_team, update_team, delete_team}
use redis_meter.Org.Members.{
  add_org_member, remove_found, remove_org_member, update_org_member_role, add_to_team,
  add_team_member, remove_team_member,
}
use redis_meter.Org.Invitations.{
  create_invitation, accept_found, accept_invitation, revoke_invitation,
}
use redis_meter.Org.Histories.{admit_invited-orgs}
use redis_meter.Org.Calls
use redis_meter.Org.Calls.{Call, step, run_calls}

-- Two identifiers of one name are the same.
abbrev pub NamesOnce : Dict Organization → Type 0
NamesOnce orgs =
    (j k : String) (o p : Organization)
    → get orgs j ≡ some o
    → get orgs k ≡ some p
    → o.name ≡ p.name
    → j ≡ k

unnamed :
    (d : Dict Organization) (k : String) (o : Organization)
    → get d k ≡ some o
    → find_where (is_named o.name) d ≡ none
    → ⊥
unfolding get find_where is_named
unnamed [] k o e f = ground (arith, e)
unnamed ((j, v) ∷ d) k o e f = ground (arith, e, f, eq_refl o.name, unnamed d k o)

put-NamesOnce :
    (d : Dict Organization) (id : String) (o : Organization)
    → ((k : String) (p : Organization) → get d k ≡ some p → p.name ≡ o.name → k ≡ id)
    → NamesOnce d
    → NamesOnce (put d id o)
put-NamesOnce d id o f h j k p q a b e = elim (found_in_put d id j o p a) [
  | inl (x, y) ↦ elim (found_in_put d id k o q b) [
    | inl (z, w) ↦ sym x ∙ z
    | inr z ↦ sym x ∙ sym (f k q z (sym e ∙ ap (λ o. o.name) (sym y)))
  ]
  | inr x ↦ elim (found_in_put d id k o q b) [
    | inl (z, w) ↦ f j p x (e ∙ ap (λ o. o.name) (sym w)) ∙ z
    | inr z ↦ h j k p q x z e
  ]
]

remove-NamesOnce : (d : Dict Organization) (id : String) → NamesOnce d → NamesOnce (remove d id)
remove-NamesOnce d id h j k p q a b e =
    h j k p q (found_in_remove d id j p a) (found_in_remove d id k q b) e

create_organization-NamesOnce :
    (m : OrgManager) (now : ℕ) (id : String) (f : Founding)
    → NamesOnce m.orgs
    → NamesOnce (create_organization m now id f).0.orgs
unfolding create_organization founded
create_organization-NamesOnce m now id f h =
    elim (Option-cases (find_where (is_named f.name) m.orgs)) [
      | inl e ↦
          rw (e, create_organization)
            (put-NamesOnce m.orgs id (founded now id f)
              (λ k p g n.
                absurd (unnamed m.orgs k p g (ap (λ x. find_where (is_named x) m.orgs) n ∙ e)))
              h)
      | inr (o, e) ↦ rw (e, create_organization) h
    ]

update_organization-NamesOnce :
    (m : OrgManager) (now : ℕ) (id : String) (u : Updates OrgSettings)
    → NamesOnce m.orgs
    → NamesOnce (update_organization m now id u).0.orgs
unfolding update_organization updated_org
update_organization-NamesOnce m now id u h = elim (Option-cases (get m.orgs id)) [
  | inl e ↦ rw (e, update_organization) h
  | inr (o, e) ↦
      rw (e, update_organization)
        (put-NamesOnce m.orgs id (updated_org now u o) (λ k p g n. h k id p o g e n) h)
]

delete_organization-NamesOnce :
    (m : OrgManager) (id : String) → NamesOnce m.orgs → NamesOnce (delete_organization m id).0.orgs
unfolding delete_organization
delete_organization-NamesOnce m id h = elim (Bool-cases (is_some (get m.orgs id))) [
  | inl e ↦ rw (e, delete_organization) (remove-NamesOnce m.orgs id h)
  | inr e ↦ rw (e, delete_organization) h
]

-- The calls on members, teams and invitations leave the map of organizations alone.
module _ (m : OrgManager) (now : ℕ) (a b c d : String) (r : Role) where
  remove_org_member-orgs : (remove_org_member m a b).0.orgs ≡ m.orgs
  unfolding remove_org_member remove_found
  remove_org_member-orgs = ground arith

  update_org_member_role-orgs : (update_org_member_role m a b r).0.orgs ≡ m.orgs
  unfolding update_org_member_role
  update_org_member_role-orgs = ground arith

  accept_found-orgs : (i : Invitation) → (accept_found m now a i b c d).0.orgs ≡ m.orgs
  unfolding accept_found
  accept_found-orgs i = ground (arith, admit_invited-orgs m now i b c d)

  accept_invitation-orgs : (accept_invitation m now a b c d).0.orgs ≡ m.orgs
  unfolding accept_invitation
  accept_invitation-orgs = elim (Option-cases (get m.invitations a)) [
    | inl e ↦ rw (e, accept_invitation) refl
    | inr (i, e) ↦ rw (e, accept_invitation) (accept_found-orgs i)
  ]

step-NamesOnce : (m : OrgManager) (c : ℕ × Call) → NamesOnce m.orgs → NamesOnce (step m c).orgs
unfolding step add_org_member create_team update_team delete_team add_team_member add_to_team
    remove_team_member create_invitation revoke_invitation
step-NamesOnce m (now, Calls.creates_organization id f) h =
    create_organization-NamesOnce m now id f h
step-NamesOnce m (now, Calls.updates_organization id u) h =
    update_organization-NamesOnce m now id u h
step-NamesOnce m (now, Calls.deletes_organization id) h = delete_organization-NamesOnce m id h
step-NamesOnce m (now, Calls.creates_team id o n d e) h = subst NamesOnce (sym (ground arith)) h
step-NamesOnce m (now, Calls.updates_team id u) h = subst NamesOnce (sym (ground arith)) h
step-NamesOnce m (now, Calls.deletes_team id) h = subst NamesOnce (sym (ground arith)) h
step-NamesOnce m (now, Calls.adds_org_member o u e n r b) h = subst NamesOnce (sym (ground arith)) h
step-NamesOnce m (now, Calls.removes_org_member o u) h =
    rw (remove_org_member-orgs m now o u o u o) h
step-NamesOnce m (now, Calls.changes_role o u r) h =
    rw (update_org_member_role-orgs m now o u o u r) h
step-NamesOnce m (now, Calls.adds_team_member t u e n r) h = subst NamesOnce (sym (ground arith)) h
step-NamesOnce m (now, Calls.removes_team_member t u) h = subst NamesOnce (sym (ground arith)) h
step-NamesOnce m (now, Calls.creates_invitation v) h = subst NamesOnce (sym (ground arith)) h
step-NamesOnce m (now, Calls.accepts_invitation t u e n) h =
    rw (accept_invitation-orgs m now t u e n t) h
step-NamesOnce m (now, Calls.revokes_invitation t) h = subst NamesOnce (sym (ground arith)) h

run_calls-NamesOnce :
    (m : OrgManager) (cs : List (ℕ × Call)) → NamesOnce m.orgs → NamesOnce (run_calls m cs).orgs
unfolding run_calls
run_calls-NamesOnce m [] h = h
run_calls-NamesOnce m (c ∷ cs) h = run_calls-NamesOnce (step m c) cs (step-NamesOnce m c h)

-- After any sequence of calls from a new manager, no two organizations have the same name.
pub new-run_calls-NamesOnce : (cs : List (ℕ × Call)) → NamesOnce (run_calls new_org_manager cs).orgs
unfolding new_org_manager get
new-run_calls-NamesOnce cs =
    run_calls-NamesOnce new_org_manager cs (λ j k p q a b e. absurd (ground (arith, a)))
