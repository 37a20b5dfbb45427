-- ===== src/Handlers/Shares/Access/Laws.antt =====
-- Who sees a project by a share link.
use purp_tape.Base.{
  ℕ, ◌≤◌, ◌≡◌, refl, ap, ap₂, ◌∙◌, ◌≢◌, ◌↔◌, Bool, true, false, String, Option, none, some, List,
  [], All, arith, eq_iff,
}
use purp_tape.Http.{Request, refused, done}
use purp_tape.Db.{Database, ok}
use purp_tape.Db.Projects.{get_project_by_id}
use purp_tape.Db.ShareLinks.{ShareLink, find_link, get_share_link_by_hash, revoke}
use purp_tape.Db.Projects.Laws.{get_project_by_id-nameless}
use purp_tape.Db.ShareLinks.Laws.{find_link-revoke}
use purp_tape.Handlers.Shares.Links
use purp_tape.Handlers.Shares.Links.Laws.{row_lem, revoke_share_link-done}
use purp_tape.Handlers.Shares.Tokens.{
  TokenLibrary, verify_share_access_token, extract_share_access_token,
}
use purp_tape.Handlers.Shares.Access.{
  refusal, is_expired, is_set, show_link, show_project, get_project_by_share_hash,
}

is_set-none : (o : Option ℕ) → is_set o ≡ false → o ≡ none
is_set-none none h = refl
is_set-none (some t) h = absurd (ground arith)

is_expired_iff :
    (now : ℕ) (o : Option ℕ)
    → (is_expired now o ≡ false) ↔ ((expires_at : ℕ) → o ≡ some expires_at → now ≤ expires_at)
unfolding is_expired
is_expired_iff now none = (λ h e p. absurd (ground arith), λ h. refl)
is_expired_iff now (some t) = (λ h e p. ground arith, λ h. let le = h t refl in ground arith)

module _ (lib : TokenLibrary) (key : String) where
  -- The link lets the request see its project.
  pub record IsOpen (now : ℕ) (r : Request) (link : ShareLink) : Type 0 where
    pub not_revoked : link.revoked_at ≡ none
    pub not_expired : (expires_at : ℕ) → link.expires_at ≡ some expires_at → now ≤ expires_at
    pub has_password :
        link.is_password_protected ≡ true
        → (extract_share_access_token r ≢ "")
          × (verify_share_access_token lib now
                (extract_share_access_token r)
                (r.path_value "share_hash")
                key
              ≡ true)

  pub refusal-none :
      (now : ℕ) (r : Request) (link : ShareLink)
      → refusal lib key now r link ≡ none
      → IsOpen now r link
  unfolding refusal
  refusal-none now r link h = record {
    not_revoked = is_set-none link.revoked_at (ground arith);
    not_expired = (is_expired_iff now link.expires_at).0 (ground arith);
    has_password = λ e. (ground (arith, eq_iff (extract_share_access_token r) ""), ground arith);
  }

  pub refusal_of_IsOpen :
      (now : ℕ) (r : Request) (link : ShareLink)
      → IsOpen now r link
      → refusal lib key now r link ≡ none
  unfolding refusal
  refusal_of_IsOpen now r link o =
      let live = (is_expired_iff now link.expires_at).1 o.not_expired in
      ground (arith, o.has_password, eq_iff (extract_share_access_token r) "")

  show_link_open :
      (db : Database) (now : ℕ) (r : Request) (link : ShareLink)
      → refusal lib key now r link ≡ none
      → show_link lib key db now r (ok link)
        ≡ show_project (get_project_by_id db link.project_id "")
  unfolding show_link
  show_link_open db now r link e = rw (e, show_link)

  show_link_refused :
      (db : Database) (now : ℕ) (r : Request) (link : ShareLink)
      (a : List (String × String) × ℕ × String)
      → refusal lib key now r link ≡ some a
      → show_link lib key db now r (ok link) ≡ refused a.0 a.1 a.2
  unfolding show_link
  show_link_refused db now r link a e = rw (e, show_link)

  refusal_revoked :
      (now : ℕ) (r : Request) (link : ShareLink) (t : ℕ)
      → refusal lib key now r (record link { revoked_at = some t })
        ≡ some ([], 403, "share link revoked")
  unfolding refusal
  refusal_revoked now r link t = refl

  revoked_link :
      (db : Database) (table : List ShareLink) (now : ℕ) (hash : String) (link : ShareLink)
      → get_share_link_by_hash db hash table ≡ ok link
      → get_share_link_by_hash db hash (revoke now hash table)
        ≡ ok (record link { revoked_at = some now })
  unfolding get_share_link_by_hash
  revoked_link db table now hash link h =
      let found : find_link hash table ≡ some link =
        row_lem (find_link hash table) (ground arith) in
      ground (arith, find_link-revoke now hash hash table, eq_iff hash hash)

  -- No open link shows its project as long as every project has an owner and every share names a
  -- user: the project is looked up for a user without a name.
  pub get_project_by_share_hash-not_found :
      (db : Database) (table : List ShareLink) (now : ℕ) (r : Request) (link : ShareLink)
      → All (λ p. p.user_id ≢ "") db.projects
      → All (λ s. s.shared_with_id ≢ "") db.project_shares
      → get_share_link_by_hash db (r.path_value "share_hash") table ≡ ok link
      → IsOpen now r link
      → get_project_by_share_hash lib key db table now r ≡ refused [] 404 "project not found"
  unfolding get_project_by_share_hash show_project
  get_project_by_share_hash-not_found db table now r link owned shared found open_ =
      ap (show_link lib key db now r) found
      ∙ show_link_open db now r link (refusal_of_IsOpen now r link open_)
      ∙ ap show_project (get_project_by_id-nameless db link.project_id owned shared)

  -- A link that its owner revoked is refused from then on.
  pub get_project_by_share_hash-revoked :
      (db : Database) (table : List ShareLink) (updated : Bool) (revoked_at now : ℕ)
      (r visit : Request)
      → (Links.revoke_share_link db table updated revoked_at r).1 ≡ done 204 tt
      → visit.path_value "share_hash" ≡ r.path_value "share_hash"
      → get_project_by_share_hash lib key db
          (Links.revoke_share_link db table updated revoked_at r).0
          now
          visit
        ≡ refused [] 403 "share link revoked"
  unfolding get_project_by_share_hash
  get_project_by_share_hash-revoked db table updated revoked_at now r visit h same =
      let done_by = revoke_share_link-done db table r updated revoked_at h in
      ap (show_link lib key db now visit) (
        ap₂ (λ p t. get_share_link_by_hash db p t) same done_by.3
        ∙ revoked_link db table revoked_at (r.path_value "share_hash") done_by.2.0 done_by.2.1)
      ∙ show_link_refused db now visit (record (done_by.2.0) { revoked_at = some revoked_at })
          ([], 403, "share link revoked") (refusal_revoked now visit (done_by.2.0) revoked_at)
