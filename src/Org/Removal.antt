-- ===== src/Org/Removal.antt =====
-- What RemoveOrgMember of internal/org/org.go does to an organization's members and to the teams.
use redis_meter.Base.{
  ℕ, suc, Bool, false, Option, none, some, List, [], ◌∷◌, ◌≡◌, ◌≢◌, refl, ◌∙◌, String, str_eq,
  eq_iff, eq_refl, if◌then◌else◌, arith, inl, inr, Option-cases, Bool-cases, get_elem?, any,
}
use redis_meter.Base.Dict.{Dict, get, get-put, HasDistinctKeys}
use redis_meter.Org.Model.{Team, OrgMember, TeamMember, OrgManager, in_team}
use redis_meter.Org.Members.{
  owner_count, member_index, remove_at, is_last_owner, leave, leave_team, leave_teams, remove_found,
  remove_org_member,
}

-- How many entries of the list are the user's.
unfoldable pub times : List OrgMember → String → ℕ
times [] user = 0
times (m ∷ ms) user = let rest = times ms user in if str_eq m.user_id user then suc rest else rest

-- The last entry of the user goes, and the others stay.
times-remove_at :
    (ms : List OrgMember) (user other : String) (i : ℕ)
    → member_index ms user ≡ some i
    → (suc (times (remove_at ms i) user) ≡ times ms user)
      × (other ≢ user → times (remove_at ms i) other ≡ times ms other)
unfolding times member_index remove_at
times-remove_at [] user other i e = ground (arith, e)
times-remove_at (m ∷ ms) user other i e = elim (Option-cases (member_index ms user)) [
  | inl f ↦ ground (arith, e, f, eq_iff m.user_id user, eq_iff m.user_id other)
  | inr (j, f) ↦ ground (arith, e, f, times-remove_at ms user other j f)
]

leave_out : (ms : List TeamMember) (user : String) → in_team ms user ≡ false → leave ms user ≡ ms
unfolding in_team leave any
leave_out [] user e = refl
leave_out (m ∷ ms) user e = ground (arith, e, leave_out ms user)

-- What a team's list is without the user's first entry.
abbrev pub left : Option (List TeamMember) → String → Option (List TeamMember)
left none user = none
left (some ms) user = some (leave ms user)

get-leave_team :
    (tm : Dict (List TeamMember)) (id user j : String)
    → get (leave_team tm id user) j ≡ (if str_eq id j then left (get tm j) user else get tm j)
unfolding leave_team
get-leave_team tm id user j = elim (Option-cases (get tm id)) [
  | inl e ↦ ground (arith, e, eq_iff id j)
  | inr (ms, e) ↦ ground (arith, e, eq_iff id j, leave_out ms user, get-put tm id j (leave ms user))
]

abbrev pub is_in : String → Option Team → Bool
is_in org_id none = false
is_in org_id (some t) = str_eq t.org_id org_id

get-leave_teams :
    (ts : Dict Team) (org_id user j : String) (tm : Dict (List TeamMember))
    → HasDistinctKeys ts
    → get (leave_teams ts org_id user tm) j
      ≡ (if is_in org_id (get ts j) then left (get tm j) user else get tm j)
unfolding leave_teams get
get-leave_teams [] org_id user j tm h = refl
get-leave_teams ((id, t) ∷ ts) org_id user j tm h =
    get-leave_teams ts org_id user j _ h.1
    ∙ ground (arith, eq_iff id j, h.0, get-leave_team tm id user j)

-- If RemoveOrgMember answers without an error, the organization had members, and it has one entry
-- of the user less and as many as before of each other user. In each team of the organization the
-- first entry of the user is gone, and every other list of team members is as before.
pub remove_org_member_effect :
    (m : OrgManager) (org_id user other team_id : String)
    → HasDistinctKeys m.teams
    → other ≢ user
    → (remove_org_member m org_id user).1 ≡ none
    → (ms : List OrgMember) × (rest : List OrgMember) × (get m.org_members org_id ≡ some ms)
      × (get (remove_org_member m org_id user).0.org_members org_id ≡ some rest)
      × (suc (times rest user) ≡ times ms user)
      × (times rest other ≡ times ms other)
      × (get (remove_org_member m org_id user).0.team_members team_id ≡ (
          if is_in org_id (get m.teams team_id)
          then left (get m.team_members team_id) user
          else get m.team_members team_id))
unfolding remove_org_member remove_found
remove_org_member_effect m org_id user other team_id d n e =
    elim (Option-cases (get m.org_members org_id)) [
      | inl f ↦ ground (arith, e, f)
      | inr (ms, f) ↦ elim (Option-cases (member_index ms user)) [
        | inl g ↦ ground (arith, e, f, g)
        | inr (i, g) ↦ elim (Bool-cases (is_last_owner (get_elem? ms i) (owner_count ms))) [
          | inl o ↦ ground (arith, e, f, g, o)
          | inr o ↦
              rw (f, g, o, remove_org_member)
                (
                  ms,
                  remove_at ms i,
                  refl,
                  get-put m.org_members org_id org_id (remove_at ms i) ∙ rw (eq_refl org_id),
                  (times-remove_at ms user other i g).0,
                  (times-remove_at ms user other i g).1 n,
                  get-leave_teams m.teams org_id user team_id m.team_members d,
                )
        ]
      ]
    ]
