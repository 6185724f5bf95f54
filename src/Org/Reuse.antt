-- ===== src/Org/Reuse.antt =====
-- What an accepted invitation of internal/org/org.go still allows.
use redis_meter.Base.{
  ℕ, ◌≤◌, false, none, some, [], ◌∷◌, ◌++◌, ◌≡◌, refl, ap, ◌∙◌, String, eq_refl, ltb, arith,
}
use redis_meter.Base.Dict.{get, items, get-put}
use redis_meter.Org.Model.{OrgManager, Invitation}
use redis_meter.Org.Members.{add_to_team}
use redis_meter.Org.Invitations.{admit_invited, invited_member, accept_found, accept_invitation}

get_org_members-admit_invited :
    (m : OrgManager) (now : ℕ) (i : Invitation) (user email name : String)
    → get (admit_invited m now i user email name).org_members i.org_id
      ≡ some (items (get m.org_members i.org_id) ++ (invited_member now i user email name ∷ []))
unfolding admit_invited add_to_team
get_org_members-admit_invited m now i user email name =
    let members = items (get m.org_members i.org_id) in
    ground (
      arith,
      eq_refl i.org_id,
      get-put m.org_members i.org_id i.org_id
          (members ++ (invited_member now i user email name ∷ [])),
    )

-- Up to its expiry, an invitation is accepted whenever the e-mail is the invited one: the members of
-- the organization get one more entry, and the invitation keeps what the next acceptance reads.
pub accept_effect :
    (m : OrgManager) (now : ℕ) (token user name : String) (i : Invitation)
    → get m.invitations token ≡ some i
    → now ≤ i.expires_at
    → ((accept_invitation m now token user i.email name).1 ≡ none)
      × (get (accept_invitation m now token user i.email name).0.org_members i.org_id
          ≡ some
              (items (get m.org_members i.org_id) ++ (invited_member now i user i.email name ∷ [])))
      × (get (accept_invitation m now token user i.email name).0.invitations token
          ≡ some (record i { accepted_at = now }))
unfolding accept_invitation accept_found
accept_effect m now token user name i e h =
    let f : ltb i.expires_at now ≡ false = ground (arith, h) in
    rw (e, accept_invitation)
      (rw (f, eq_refl i.email, accept_found)
        (
          refl,
          get_org_members-admit_invited m now i user i.email name,
          get-put m.invitations token token _ ∙ rw (eq_refl token),
        ))

-- An invitation that was accepted once is accepted again, by any user with the invited e-mail, up
-- to its expiry: both calls answer without an error, and the organization has both entries.
pub accept_again :
    (m : OrgManager) (now later : ℕ) (token first second name : String) (i : Invitation)
    → get m.invitations token ≡ some i
    → now ≤ i.expires_at
    → later ≤ i.expires_at
    → let once = accept_invitation m now token first i.email name in
      let twice = accept_invitation once.0 later token second i.email name in
      (once.1 ≡ none)
      × (twice.1 ≡ none)
      × (get twice.0.org_members i.org_id
          ≡ some (
              (items (get m.org_members i.org_id) ++ (invited_member now i first i.email name ∷ []))
              ++ (invited_member later i second i.email name ∷ [])))
unfolding invited_member
accept_again m now later token first second name i e h k =
    let (a, b, c) = accept_effect m now token first name i e h in
    let once = accept_invitation m now token first i.email name in
    let (x, y, z) =
      accept_effect once.0 later token second name (record i { accepted_at = now }) c k in
    (a, x, y ∙ ap (λ o. some (items o ++ (invited_member later i second i.email name ∷ []))) b)
