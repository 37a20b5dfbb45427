-- ===== src/Handlers/Shares/Links/Create.antt =====
-- backend/internal/handlers/shares.go: what making a link leaves in the table.
use purp_tape.Base.{
  ℕ, ◌≡◌, refl, sym, ap, ◌∙◌, subst, ◌≢◌, ◌⊎◌, inl, inr, Bool, Bool-cases, Option-cases, snd-if,
  String, Option, none, some, List, [], arith, str_eq, eq_iff,
}
use purp_tape.Http.{Request, refused, done}
use purp_tape.Db.{Database}
use purp_tape.Db.ShareLinks.{ShareLink, find_link, create_share_link}
use purp_tape.Db.ShareLinks.Laws.{find_link-create}
use purp_tape.Helpers.Requests.{get_user_id}
use purp_tape.Handlers.Shares.Links.{
  LinkRequest, level_of, hash_password, new_link, stored, owns, generate_share_link, generate_with,
  generate_as,
}
use purp_tape.Handlers.Shares.Links.Laws.{IsOwner, is_owner, create_is_new}

module _ (db : Database) (table : List ShareLink) (r : Request) where
  stored-done :
      (created : Bool) (link new : ShareLink) (message : String) (o : Option (List ShareLink))
      → create_share_link created link table ≡ o
      → (stored table link message o).1 ≡ done 201 new
      → (link ≡ new) × (create_share_link created new table ≡ some (stored table link message o).0)
  unfolding stored
  stored-done created link new message none e h = absurd (ground arith)
  stored-done created link new message (some after) e h =
      let same = link_eq h in (same, ap (λ l. create_share_link created l table) (sym same) ∙ e)
    where
      link_eq : {a b : ShareLink} → done 201 a ≡ done 201 b → a ≡ b
      link_eq e = ground arith

  -- What the table is after a link was made.
  pub record IsCreated (new : ShareLink) (after : List ShareLink) : Type 0 where
    pub project : new.project_id ≡ r.path_value "project_id"
    pub level :
        (new.access_level ≡ "viewer")
        ⊎ (new.access_level ≡ "commenter")
        ⊎ (new.access_level ≡ "collaborator")
    pub not_revoked : new.revoked_at ≡ none
    pub fresh : find_link new.hash table ≡ none
    pub new_stored : find_link new.hash after ≡ some new
    pub others_kept :
        (other : String) → other ≢ new.hash → find_link other after ≡ find_link other table

  level_cases :
      (level : String)
      → (level_of level ≡ "viewer")
        ⊎ (level_of level ≡ "commenter")
        ⊎ (level_of level ≡ "collaborator")
  unfolding level_of
  level_cases level = elim (Bool-cases (str_eq level "viewer")) [
    | inl v ↦ inl (ground (arith, eq_iff level "viewer"))
    | inr v ↦ elim (Bool-cases (str_eq level "commenter")) [
      | inl c ↦ inr (inl (ground (arith, eq_iff level "commenter")))
      | inr c ↦ elim (Bool-cases (str_eq level "collaborator")) [
        | inl l ↦ inr (inr (ground (arith, eq_iff level "collaborator")))
        | inr l ↦ inl (ground arith)
      ]
    ]
  ]

  stored-IsCreated :
      (created : Bool) (id hash user_id password_hash : String) (now : ℕ) (req : LinkRequest)
      (new : ShareLink) (after : List ShareLink)
      → new_link id (r.path_value "project_id") user_id hash password_hash now req ≡ new
      → create_share_link created new table ≡ some after
      → IsCreated new after
  unfolding new_link
  stored-IsCreated created id hash user_id password_hash now req new after same made = record {
    project = ap (λ l. l.project_id) (sym same);
    level =
        subst
          (λ l.
            (l.access_level ≡ "viewer")
            ⊎ (l.access_level ≡ "commenter")
            ⊎ (l.access_level ≡ "collaborator"))
          same (level_cases req.access_level);
    not_revoked = ap (λ l. l.revoked_at) (sym same);
    fresh = create_is_new db table r created new after made;
    new_stored =
        ground
          (arith, find_link-create created new new.hash table after made, eq_iff new.hash new.hash);
    others_kept = λ other n.
        ground (arith, find_link-create created new other table after made, eq_iff new.hash other);
  }

  generate_with-done :
      (created : Bool) (id hash user_id : String) (now : ℕ) (req : LinkRequest) (o : Option String)
      (new : ShareLink)
      → (generate_with table created id hash (r.path_value "project_id") user_id now req o).1
        ≡ done 201 new
      → IsCreated new
          (generate_with table created id hash (r.path_value "project_id") user_id now req o).0
  unfolding generate_with
  generate_with-done created id hash user_id now req none new h = absurd (ground arith)
  generate_with-done created id hash user_id now req (some password_hash) new h =
      let link = new_link id (r.path_value "project_id") user_id hash password_hash now req in
      let made =
        stored-done created link new "failed to create share link"
          (create_share_link created link table) refl h in
      stored-IsCreated created id hash user_id password_hash now req new
        (stored table link "failed to create share link" (create_share_link created link table)).0
        made.0 made.1

  generate_as-done :
      (bcrypt : String → Option String) (created : Bool) (id hash : String) (now : ℕ)
      (user_id : String) (body : Option LinkRequest) (new : ShareLink)
      → get_user_id r ≡ some user_id
      → (generate_as db table bcrypt created id hash now r user_id body).1 ≡ done 201 new
      → IsOwner db table r
        × IsCreated new (generate_as db table bcrypt created id hash now r user_id body).0
  unfolding generate_as
  generate_as-done bcrypt created id hash now user_id none new u h = absurd (ground arith)
  generate_as-done bcrypt created id hash now user_id (some req) new u h =
      elim (Bool-cases (owns db (r.path_value "project_id") user_id)) [
        | inl c ↦ rw c (
          is_owner db table r user_id u c,
          generate_with-done created id hash user_id now req (hash_password bcrypt req) new
              (snd-if _ _ c h),
        )
        | inr c ↦ let q = snd-if _ _ c h in absurd (ground arith)
      ]

  module _ (bcrypt : String → Option String) (created : Bool) (id hash : String) (now : ℕ)
      (body : Option LinkRequest) where
    generate_of_user :
        (user_id : String)
        → get_user_id r ≡ some user_id
        → generate_share_link db table bcrypt created id hash now r body
          ≡ generate_as db table bcrypt created id hash now r user_id body
    unfolding generate_share_link
    generate_of_user user_id e = rw (e, generate_share_link)

    generate_of_none :
        get_user_id r ≡ none
        → generate_share_link db table bcrypt created id hash now r body
          ≡ (table, refused [] 401 "unauthorized")
    unfolding generate_share_link
    generate_of_none e = rw (e, generate_share_link)

    -- Only the owner of a project makes a link of it. The link is not revoked, gives one of the three
    -- levels of access and has a hash that no link had; the table finds it by this hash, and all other
    -- links as before.
    pub generate_share_link-IsCreated :
        (new : ShareLink)
        → (generate_share_link db table bcrypt created id hash now r body).1 ≡ done 201 new
        → IsOwner db table r
          × IsCreated new (generate_share_link db table bcrypt created id hash now r body).0
    generate_share_link-IsCreated new h = elim (Option-cases (get_user_id r)) [
      | inl e ↦ let q = ap (λ x. x.1) (sym (generate_of_none e)) ∙ h in absurd (ground arith)
      | inr (user_id, e) ↦
          let as_user = generate_of_user user_id e in
          subst (λ x. IsOwner db table r × IsCreated new x.0) (sym as_user)
            (generate_as-done bcrypt created id hash now user_id body new e
              (ap (λ x. x.1) (sym as_user) ∙ h))
    ]
