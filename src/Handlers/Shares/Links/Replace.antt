-- ===== src/Handlers/Shares/Links/Replace.antt =====
-- backend/internal/handlers/shares.go: the replacement of a link by one with a new hash.
use purp_tape.Base.{
  ℕ, ◌≡◌, refl, sym, ap, ◌∙◌, subst, ◌≢◌, ◌⊎◌, inl, inr, Bool, ◌&&◌, true, false, Bool-cases,
  Option-cases, String, Option, none, some, List, [], ◌∷◌, arith, str_eq, if◌then◌else◌, eq_iff,
}
use purp_tape.Http.{Request, Answer, done, IsRefused}
use purp_tape.Db.{Database, DbResult, Project, ok, failed}
use purp_tape.Db.Projects.{get_project_by_id}
use purp_tape.Db.ShareLinks
use purp_tape.Db.ShareLinks.{
  ShareLink, find_link, create_share_link, get_share_link_by_hash, revoke,
}
use purp_tape.Db.ShareLinks.Laws.{find_link-revoke, find_link-create}
use purp_tape.Helpers.Requests.{get_user_id}
use purp_tape.Handlers.Shares.Links.{
  owns, renewed, is_link_of, replaced, regenerated, replace_found, regenerate_as,
  regenerate_share_hash,
}
use purp_tape.Handlers.Shares.Links.Laws.{IsOwner, is_owner, create_is_new, found_in_table}

-- The settings that a new link takes over.
pub record SameSettings (old new : ShareLink) : Type 0 where
  pub same_level : new.access_level ≡ old.access_level
  pub same_publicity : new.is_public ≡ old.is_public
  pub same_protection : new.is_password_protected ≡ old.is_password_protected
  pub same_password : new.password_hash ≡ old.password_hash
  pub same_expiry : new.expires_at ≡ old.expires_at
  pub not_revoked : new.revoked_at ≡ none

module _ (db : Database) (table : List ShareLink) (r : Request) where
  -- What the table is after a link was replaced.
  pub record IsReplaced (updated : Bool) (now : ℕ) (old new : ShareLink) (after : List ShareLink)
      : Type 0 where
    pub settings : SameSettings old new
    pub new_hash : new.hash ≢ r.path_value "share_hash"
    pub new_stored : find_link new.hash after ≡ some new
    pub old_stored :
        find_link (r.path_value "share_hash") after
        ≡ some (if updated then record old { revoked_at = some now } else old)
    pub others_kept :
        (other : String)
        → other ≢ new.hash
        → other ≢ r.path_value "share_hash"
        → find_link other after ≡ find_link other table

  find_link-replaced :
      (updated : Bool) (now : ℕ) (hash other : String) (after : List ShareLink)
      → find_link other (replaced now hash updated after) ≡ (
          if updated && str_eq other hash
          then elim (find_link other after) [
            | none ↦ none
            | some l ↦ some (record l { revoked_at = some now })
          ]
          else find_link other after)
  unfolding replaced ShareLinks.revoke_share_link
  find_link-replaced true now hash other after = find_link-revoke now hash other after
  find_link-replaced false now hash other after = refl

  replaced-IsReplaced :
      (created updated : Bool) (id project_id user_id new_hash : String) (now : ℕ) (old : ShareLink)
      (after : List ShareLink)
      → find_link (r.path_value "share_hash") table ≡ some old
      → create_share_link created (renewed id project_id user_id new_hash old) table ≡ some after
      → IsReplaced updated now old
          (renewed id project_id user_id new_hash old)
          (replaced now (r.path_value "share_hash") updated after)
  unfolding renewed
  replaced-IsReplaced created updated id project_id user_id new_hash now old after found made =
      let hash = r.path_value "share_hash" in
      let fresh =
        create_is_new db table r created (renewed id project_id user_id new_hash old) after made in
      record {
        settings = ground arith;
        new_hash = λ e. absurd (clash (sym fresh ∙ ap (λ h. find_link h table) e ∙ found));
        new_stored = ground (
          arith,
          find_link-replaced updated now hash new_hash after,
          find_link-create created (renewed id project_id user_id new_hash old) new_hash table after
              made,
          eq_iff new_hash new_hash,
          eq_iff new_hash hash,
        );
        old_stored = ground (
          arith,
          find_link-replaced updated now hash hash after,
          find_link-create created (renewed id project_id user_id new_hash old) hash table after
              made,
          eq_iff new_hash hash,
          eq_iff hash hash,
        );
        others_kept = λ other n m. ground (
          arith,
          find_link-replaced updated now hash other after,
          find_link-create created (renewed id project_id user_id new_hash old) other table after
              made,
          eq_iff new_hash other,
          eq_iff other hash,
        );
      }
    where
      clash : ¬ (none ≡ some old)
      clash e = ground arith

  is_link_lem :
      (project_id : String) (result : DbResult ShareLink) (old : ShareLink)
      → is_link_of project_id result ≡ some old
      → (result ≡ ok old) × (old.project_id ≡ project_id)
  unfolding is_link_of
  is_link_lem project_id failed old h = absurd (ground arith)
  is_link_lem project_id (ok link) old h =
      (ground arith, ground (arith, eq_iff link.project_id project_id))

  -- A refused request changes nothing.
  abbrev pub IsKept : List ShareLink × Answer ShareLink → Type 0
  IsKept result = (result.0 ≡ table) × IsRefused result.1

  -- A link of the project is replaced by another one of it.
  abbrev pub Replaces : Bool → ℕ → List ShareLink × Answer ShareLink → Type 0
  Replaces updated now result =
      (old : ShareLink) × (new : ShareLink) × (find_link (r.path_value "share_hash") table
        ≡ some old)
      × (old.project_id ≡ r.path_value "project_id")
      × (result.1 ≡ done 200 new)
      × (new.project_id ≡ r.path_value "project_id")
      × IsReplaced updated now old new result.0

  module _ (created updated : Bool) (id new_hash : String) (now : ℕ) where
    abbrev new_of : String → ShareLink → ShareLink
    new_of user_id old = renewed id (r.path_value "project_id") user_id new_hash old

    regenerated_cases :
        (user_id : String) (old : ShareLink) (o : Option (List ShareLink))
        → find_link (r.path_value "share_hash") table ≡ some old
        → old.project_id ≡ r.path_value "project_id"
        → create_share_link created (new_of user_id old) table ≡ o
        → let result =
            regenerated table updated now (r.path_value "share_hash") (new_of user_id old) o in
          IsKept result ⊎ Replaces updated now result
    unfolding regenerated renewed
    regenerated_cases user_id old none found own made =
        inl (refl, ([], 500, "failed to regenerate", refl))
    regenerated_cases user_id old (some after) found own made = inr (
      old,
      new_of user_id old,
      found,
      own,
      refl,
      refl,
      replaced-IsReplaced created updated id (r.path_value "project_id") user_id new_hash now old
          after found made,
    )

    abbrev replace_of : String → Option ShareLink → List ShareLink × Answer ShareLink
    replace_of user_id o =
        replace_found table created updated id (r.path_value "project_id") user_id new_hash now
          (r.path_value "share_hash") o

    abbrev link_of : Option ShareLink
    link_of =
        is_link_of (r.path_value "project_id")
          (get_share_link_by_hash db (r.path_value "share_hash") table)

    replace_found_cases :
        (user_id : String) (o : Option ShareLink)
        → link_of ≡ o
        → IsKept (replace_of user_id o) ⊎ Replaces updated now (replace_of user_id o)
    unfolding replace_found
    replace_found_cases user_id none e = inl (refl, ([], 404, "share link not found", refl))
    replace_found_cases user_id (some old) e =
        let (got, own) =
          is_link_lem (r.path_value "project_id")
            (get_share_link_by_hash db (r.path_value "share_hash") table) old e in
        regenerated_cases user_id old (create_share_link created (new_of user_id old) table)
          (found_in_table db table r (r.path_value "share_hash") old got) own refl

    abbrev as_user : String → List ShareLink × Answer ShareLink
    as_user user_id = regenerate_as db table created updated id new_hash now r user_id

    regenerate_as_cases :
        (user_id : String)
        → get_user_id r ≡ some user_id
        → IsKept (as_user user_id) ⊎ (IsOwner db table r × Replaces updated now (as_user user_id))
    unfolding regenerate_as
    regenerate_as_cases user_id u =
        elim (Bool-cases (owns db (r.path_value "project_id") user_id)) [
          | inr c ↦ inl (rw c, ([], 403, "forbidden", rw c))
          | inl c ↦
              let q : as_user user_id ≡ replace_of user_id link_of = rw c in
              elim (replace_found_cases user_id link_of refl) [
                | inl kept ↦ inl (subst IsKept (sym q) kept)
                | inr replaces ↦
                    inr (
                      is_owner db table r user_id u c,
                      subst (Replaces updated now) (sym q) replaces,
                    )
              ]
        ]

    abbrev pub regenerate : List ShareLink × Answer ShareLink
    regenerate = regenerate_share_hash db table created updated id new_hash now r

    regenerate_cases : IsKept regenerate ⊎ (IsOwner db table r × Replaces updated now regenerate)
    unfolding regenerate_share_hash
    regenerate_cases = elim (Option-cases (get_user_id r)) [
      | inl e ↦
          inl (
            rw (e, regenerate_share_hash),
            ([], 401, "unauthorized", rw (e, regenerate_share_hash)),
          )
      | inr (user_id, e) ↦
          let q : regenerate ≡ as_user user_id = rw (e, regenerate_share_hash) in
          elim (regenerate_as_cases user_id e) [
            | inl kept ↦ inl (subst IsKept (sym q) kept)
            | inr (owner, replaces) ↦ inr (owner, subst (Replaces updated now) (sym q) replaces)
          ]
    ]

    owns_if :
        (user_id : String) (p : Project)
        → get_project_by_id db (r.path_value "project_id") user_id ≡ ok p
        → p.user_id ≡ user_id
        → owns db (r.path_value "project_id") user_id ≡ true
    unfolding owns
    owns_if user_id p found own = rw (found, owns, (eq_iff p.user_id user_id).1 own) refl

    link_of_if :
        (old : ShareLink)
        → db.available ≡ true
        → find_link (r.path_value "share_hash") table ≡ some old
        → old.project_id ≡ r.path_value "project_id"
        → link_of ≡ some old
    unfolding is_link_of get_share_link_by_hash
    link_of_if old up found own =
        ground (arith, up, found, eq_iff old.project_id (r.path_value "project_id"), own)

    created_if :
        (new : ShareLink)
        → created ≡ true
        → find_link new.hash table ≡ none
        → create_share_link created new table ≡ some (new ∷ table)
    unfolding create_share_link
    created_if new executed fresh = ground (arith, executed, fresh)

    hash_new :
        (user_id : String) (old : ShareLink)
        → find_link new_hash table ≡ none
        → find_link (new_of user_id old).hash table ≡ none
    unfolding renewed
    hash_new user_id old fresh = fresh

    answer_if :
        (old : ShareLink) (user_id : String) (p : Project)
        → db.available ≡ true
        → created ≡ true
        → find_link new_hash table ≡ none
        → get_user_id r ≡ some user_id
        → get_project_by_id db (r.path_value "project_id") user_id ≡ ok p
        → p.user_id ≡ user_id
        → find_link (r.path_value "share_hash") table ≡ some old
        → old.project_id ≡ r.path_value "project_id"
        → regenerate.1 ≡ done 200 (new_of user_id old)
    unfolding regenerate_share_hash regenerate_as replace_found regenerated
    answer_if old user_id p up executed fresh u found_p own_p found own =
        rw
          (
            u,
            regenerate_share_hash,
            owns_if user_id p found_p own_p,
            link_of_if old up found own,
            created_if (new_of user_id old) executed (hash_new user_id old fresh),
          )
          refl

    regenerate_if :
        (old : ShareLink)
        → db.available ≡ true
        → created ≡ true
        → find_link new_hash table ≡ none
        → IsOwner db table r
        → find_link (r.path_value "share_hash") table ≡ some old
        → old.project_id ≡ r.path_value "project_id"
        → Replaces updated now regenerate
    unfolding IsOwner
    regenerate_if old up executed fresh (user_id, p, u, found_p, own_p) found own =
        elim regenerate_cases [
          | inr (owner, replaces) ↦ replaces
          | inl (same, (headers, status, message, refused_)) ↦
              let e =
                sym refused_
                ∙ answer_if old user_id p up executed fresh u found_p own_p found own in
              absurd (ground (arith, e))
        ]

    -- A request to replace a link is either refused, and then changes nothing, or it is of the owner of the
    -- project and names a link of the project. The new link, which is answered, is of the project too and
    -- has the settings of the old one and a new hash; under the old hash the table has the old link,
    -- revoked if its update was executed; all other links stay. So ends every request of the owner for
    -- a link of the project whose INSERT is executed with a hash that is new.
    pub regenerate_share_hash-IsReplaced :
        (IsKept regenerate ⊎ (IsOwner db table r × Replaces updated now regenerate))
        × ((old : ShareLink)
            → db.available ≡ true
            → created ≡ true
            → find_link new_hash table ≡ none
            → IsOwner db table r
            → find_link (r.path_value "share_hash") table ≡ some old
            → old.project_id ≡ r.path_value "project_id"
            → Replaces updated now regenerate)
    regenerate_share_hash-IsReplaced = (regenerate_cases, regenerate_if)
