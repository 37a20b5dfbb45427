-- ===== src/Handlers/Shares/Links/Laws.antt =====
-- backend/internal/handlers/shares.go: what making, revoking and replacing a link leaves in the table.
use purp_tape.Base.{
  ℕ, ◌≡◌, refl, sym, ap, ◌∙◌, inl, inr, Bool, true, false, Option-cases, String, Option, none, some,
  List, [], arith, str_eq, eq_iff,
}
use purp_tape.Http.{Request, Answer, refused, done}
use purp_tape.Db.{Database, DbResult, Project, ok, failed}
use purp_tape.Db.Projects.{get_project_by_id, row_of}
use purp_tape.Db.ShareLinks
use purp_tape.Db.ShareLinks.{
  ShareLink, find_link, create_share_link, get_share_link_by_hash, revoke,
}
use purp_tape.Helpers.Requests.{get_user_id}
use purp_tape.Handlers.Shares.Links.{
  LinkRequest, stored, owns, generate_share_link, revoke_as, is_own_link, revoked,
  revoke_share_link, regenerated, regenerate_share_hash,
}

pub row_lem : (o : Option ShareLink) {l : ShareLink} → row_of o ≡ ok l → o ≡ some l
row_lem none h = absurd (ground arith)
row_lem (some a) h = ground arith

pub owns_iff :
    (db : Database) (project_id user_id : String)
    → owns db project_id user_id ≡ true
    → (p : Project) × (get_project_by_id db project_id user_id ≡ ok p) × (p.user_id ≡ user_id)
unfolding owns
owns_iff db project_id user_id = found (get_project_by_id db project_id user_id)
  where
    found :
        (result : DbResult Project)
        → elim result as (λ x. Bool) [ ok p ↦ str_eq p.user_id user_id | failed ↦ false ] ≡ true
        → (p : Project) × (result ≡ ok p) × (p.user_id ≡ user_id)
    found (ok p) h = (p, refl, ground (arith, eq_iff p.user_id user_id))
    found failed h = absurd (ground arith)

module _ (db : Database) (table : List ShareLink) (r : Request) (headers : List (String × String))
    (status : ℕ) (message : String) where
  generate_share_link-refused :
      (bcrypt : String → Option String) (created : Bool) (id hash : String) (now : ℕ)
      (body : Option LinkRequest)
      → (generate_share_link db table bcrypt created id hash now r body).1
        ≡ refused headers status message
      → (generate_share_link db table bcrypt created id hash now r body).0 ≡ table
  unfolding generate_share_link stored create_share_link ShareLinks.find_link
  generate_share_link-refused bcrypt created id hash now body h = ground arith

  revoke_share_link-refused :
      (updated : Bool) (now : ℕ)
      → (revoke_share_link db table updated now r).1 ≡ refused headers status message
      → (revoke_share_link db table updated now r).0 ≡ table
  unfolding revoke_share_link revoked ShareLinks.revoke_share_link
  revoke_share_link-refused updated now h = ground arith

  regenerate_share_hash-refused :
      (created updated : Bool) (id new_hash : String) (now : ℕ)
      → (regenerate_share_hash db table created updated id new_hash now r).1
        ≡ refused headers status message
      → (regenerate_share_hash db table created updated id new_hash now r).0 ≡ table
  unfolding regenerate_share_hash regenerated create_share_link
  regenerate_share_hash-refused created updated id new_hash now h = ground arith

module _ (db : Database) (table : List ShareLink) (r : Request) where
  -- The user of the request owns the project of the request.
  unfoldable pub IsOwner : Type 0
  IsOwner =
      (user_id : String) × (p : Project) × (get_user_id r ≡ some user_id)
      × (get_project_by_id db (r.path_value "project_id") user_id ≡ ok p)
      × (p.user_id ≡ user_id)

  pub is_owner :
      (user_id : String)
      → get_user_id r ≡ some user_id
      → owns db (r.path_value "project_id") user_id ≡ true
      → IsOwner
  unfolding IsOwner
  is_owner user_id u o =
      let p = owns_iff db (r.path_value "project_id") user_id o in (user_id, p.0, u, p.1, p.2)

  pub create_is_new :
      (created : Bool) (new : ShareLink) (after : List ShareLink)
      → create_share_link created new table ≡ some after
      → find_link new.hash table ≡ none
  unfolding create_share_link
  create_is_new created new after h = ground arith

  pub found_in_table :
      (hash : String) (old : ShareLink)
      → get_share_link_by_hash db hash table ≡ ok old
      → find_link hash table ≡ some old
  unfolding get_share_link_by_hash
  found_in_table hash old h = ground (arith, row_lem (find_link hash table))

  module _ (updated : Bool) (now : ℕ) where
    revoke_of_user :
        (user_id : String)
        → get_user_id r ≡ some user_id
        → revoke_share_link db table updated now r ≡ revoke_as db table updated now r user_id
    unfolding revoke_share_link
    revoke_of_user user_id e = rw (e, revoke_share_link)

    revoke_of_none :
        get_user_id r ≡ none
        → revoke_share_link db table updated now r ≡ (table, refused [] 401 "unauthorized")
    unfolding revoke_share_link
    revoke_of_none e = rw (e, revoke_share_link)

    -- The link of the request is the user's own, and the table has it as revoked.
    IsRevoked : String → List ShareLink × Answer (Unit {0}) → Type 0
    IsRevoked user_id result =
        IsOwner
        × ((link : ShareLink) × (get_share_link_by_hash db (r.path_value "share_hash") table
              ≡ ok link)
            × (link.project_id ≡ r.path_value "project_id")
            × (link.creator_id ≡ user_id))
        × (result.0 ≡ revoke now (r.path_value "share_hash") table)

    own_link_lem :
        (project_id user_id : String) (result : DbResult ShareLink)
        → is_own_link project_id user_id result ≡ true
        → (link : ShareLink) × (result ≡ ok link)
          × (link.project_id ≡ project_id)
          × (link.creator_id ≡ user_id)
    unfolding is_own_link
    own_link_lem project_id user_id failed h = absurd (ground arith)
    own_link_lem project_id user_id (ok link) h = (
      link,
      refl,
      ground (arith, eq_iff link.project_id project_id),
      ground (arith, eq_iff link.creator_id user_id),
    )

    revoke_as-done :
        (user_id : String)
        → get_user_id r ≡ some user_id
        → (revoke_as db table updated now r user_id).1 ≡ done 204 tt
        → IsRevoked user_id (revoke_as db table updated now r user_id)
    unfolding revoke_as IsRevoked revoked ShareLinks.revoke_share_link
    revoke_as-done user_id u h = (
      is_owner user_id u (ground arith),
      own_link_lem (r.path_value "project_id") user_id
          (get_share_link_by_hash db (r.path_value "share_hash") table) (ground arith),
      ground arith,
    )

    -- A link is revoked only by the owner of its project, and only if he made it; the table then has it
    -- as revoked now, and all other links as before.
    pub revoke_share_link-done :
        (revoke_share_link db table updated now r).1 ≡ done 204 tt
        → (user_id : String) × IsOwner
          × ((link : ShareLink) × (get_share_link_by_hash db (r.path_value "share_hash") table
                ≡ ok link)
              × (link.project_id ≡ r.path_value "project_id")
              × (link.creator_id ≡ user_id))
          × ((revoke_share_link db table updated now r).0
              ≡ revoke now (r.path_value "share_hash") table)
    unfolding IsRevoked
    revoke_share_link-done h = elim (Option-cases (get_user_id r)) [
      | inl e ↦ let q = ap (λ x. x.1) (sym (revoke_of_none e)) ∙ h in absurd (ground arith)
      | inr (user_id, e) ↦
          let as_user = revoke_of_user user_id e in
          let done_by = revoke_as-done user_id e (ap (λ x. x.1) (sym as_user) ∙ h) in
          (user_id, done_by.0, done_by.1, ap (λ x. x.0) as_user ∙ done_by.2)
    ]
