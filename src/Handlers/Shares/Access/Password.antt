-- ===== src/Handlers/Shares/Access/Password.antt =====
-- backend/internal/handlers/shares.go: a password, and the requests that it opens a link for.
use purp_tape.Base.{
  ℕ, ◌+◌, ◌≤◌, ◌≡◌, refl, sym, ◌∙◌, subst, ◌≢◌, ◌↔◌, inl, inr, Bool, Bool-cases, of_if, true,
  String, none, some, List, arith, str_eq, eq_iff,
}
use purp_tape.Http.{Request, done}
use purp_tape.Db.{Database, DbResult, ok, failed}
use purp_tape.Db.ShareLinks.{ShareLink, get_share_link_by_hash}
use purp_tape.Handlers.Shares.Tokens.{
  TokenLibrary, unix, generate_share_access_token, verify_share_access_token,
  extract_share_access_token,
}
use purp_tape.Handlers.Shares.Tokens.Laws.{IsLibrary, verify-generate, generate-ne-nil}
use purp_tape.Handlers.Shares.Access.{quarter, refusal, verified, verify_share_password}
use purp_tape.Handlers.Shares.Access.Laws.{IsOpen, refusal-none, refusal_of_IsOpen}

module _ (lib : TokenLibrary) (key : String) where
  verified_lem :
      (matches : String → String → Bool) (now : ℕ) (hash password token : String)
      (result : DbResult ShareLink)
      → verified lib key matches now hash password result ≡ done 200 token
      → token ≡ generate_share_access_token lib now hash quarter key
  unfolding verified
  verified_lem matches now hash password token failed h = absurd (ground arith)
  verified_lem matches now hash password token (ok link) h = ground arith

  token_of_password :
      (db : Database) (table : List ShareLink) (matches : String → String → Bool) (now : ℕ)
      (r : Request) (password token : String)
      → verify_share_password lib key db table matches now r (some password) ≡ done 200 token
      → token ≡ generate_share_access_token lib now (r.path_value "share_hash") quarter key
  unfolding verify_share_password
  token_of_password db table matches now r password token h =
      elim (Bool-cases (str_eq password "")) [
        | inl c ↦ let q = of_if (λ a. a ≡ done 200 token) _ _ c h in absurd (ground arith)
        | inr c ↦
            verified_lem matches now (r.path_value "share_hash") password token
              (get_share_link_by_hash db (r.path_value "share_hash") table)
              (of_if (λ a. a ≡ done 200 token) _ _ c h)
      ]

  -- The link of the request exists, and the password is the one that it was made with.
  pub IsAnswered : Database → List ShareLink → (String → String → Bool) → Request → String → Type 0
  IsAnswered db table matches r password =
      (stored : ShareLink) × (get_share_link_by_hash db (r.path_value "share_hash") table
        ≡ ok stored)
      × (matches stored.password_hash password ≡ true)
      × (password ≢ "")

  matched :
      (matches : String → String → Bool) (now : ℕ) (hash password token : String)
      (result : DbResult ShareLink)
      → verified lib key matches now hash password result ≡ done 200 token
      → (stored : ShareLink) × (result ≡ ok stored) × (matches stored.password_hash password ≡ true)
  unfolding verified
  matched matches now hash password token failed h = absurd (ground arith)
  matched matches now hash password token (ok link) h = (link, refl, ground (arith, h))

  answered :
      (db : Database) (table : List ShareLink) (matches : String → String → Bool) (now : ℕ)
      (r : Request) (password token : String)
      → verify_share_password lib key db table matches now r (some password) ≡ done 200 token
      → IsAnswered db table matches r password
  unfolding verify_share_password IsAnswered
  answered db table matches now r password token h = elim (Bool-cases (str_eq password "")) [
    | inl c ↦ let q = of_if (λ a. a ≡ done 200 token) _ _ c h in absurd (ground arith)
    | inr c ↦
        let (stored, found, fits) =
          matched matches now (r.path_value "share_hash") password token
            (get_share_link_by_hash db (r.path_value "share_hash") table)
            (of_if (λ a. a ≡ done 200 token) _ _ c h) in
        (stored, found, fits, λ e. ground (arith, c, eq_iff password "", e))
  ]

  answered-IsOpen :
      (db : Database) (table : List ShareLink) (matches : String → String → Bool) (now later : ℕ)
      (r r' : Request) (password token : String) (link : ShareLink)
      → IsLibrary lib key (r.path_value "share_hash") (unix (now + quarter))
      → verify_share_password lib key db table matches now r (some password) ≡ done 200 token
      → r'.path_value "share_hash" ≡ r.path_value "share_hash"
      → extract_share_access_token r' ≡ token
      → link.is_password_protected ≡ true
      → link.revoked_at ≡ none
      → ((e : ℕ) → link.expires_at ≡ some e → later ≤ e)
      → IsOpen lib key later r' link ↔ (unix later ≤ unix (now + quarter))
  answered-IsOpen db table matches now later r r' password token link is_library h same sent
        protected live lasting =
      let made = token_of_password db table matches now r password token h in
      let accepted =
        verify-generate lib now quarter (r.path_value "share_hash") key is_library later
          (r.path_value "share_hash") in
      (
        λ o.
            (accepted.0 (
              subst
                (λ t. verify_share_access_token lib later t (r.path_value "share_hash") key ≡ true)
                (sent ∙ made)
                (subst
                  (λ p.
                    verify_share_access_token lib later (extract_share_access_token r') p key
                    ≡ true)
                  same (o.has_password protected).1))).1,
        λ le. record {
          not_revoked = live;
          not_expired = lasting;
          has_password = λ e. (
            subst (λ t. t ≢ "") (sym (sent ∙ made))
                (generate-ne-nil lib now quarter (r.path_value "share_hash") key is_library),
            subst
                (λ t. verify_share_access_token lib later t (r'.path_value "share_hash") key ≡ true)
                (sym (sent ∙ made))
                (subst
                  (λ p.
                    verify_share_access_token lib later
                      (generate_share_access_token lib now (r.path_value "share_hash") quarter key)
                      p key
                    ≡ true)
                  (sym same) (accepted.1 (refl, le))),
          );
        },
      )

  -- A token is answered only to the password of the stored link of the request, which is not empty. With
  -- it, and with nothing else to stop it, a later request of the same link passes the checks on the
  -- link exactly for a quarter of an hour, to the second; without a token it does not pass them.
  pub verify_share_password-passes :
      (db : Database) (table : List ShareLink) (matches : String → String → Bool) (now later : ℕ)
      (r r' r'' : Request) (password token : String) (link : ShareLink)
      → IsLibrary lib key (r.path_value "share_hash") (unix (now + quarter))
      → verify_share_password lib key db table matches now r (some password) ≡ done 200 token
      → r'.path_value "share_hash" ≡ r.path_value "share_hash"
      → extract_share_access_token r' ≡ token
      → extract_share_access_token r'' ≡ ""
      → link.is_password_protected ≡ true
      → link.revoked_at ≡ none
      → ((e : ℕ) → link.expires_at ≡ some e → later ≤ e)
      → IsAnswered db table matches r password
        × ((refusal lib key later r' link ≡ none) ↔ (unix later ≤ unix (now + quarter)))
        × (refusal lib key later r'' link ≢ none)
  verify_share_password-passes db table matches now later r r' r'' password token link is_library h
        same sent bare protected live lasting =
      let opened =
        answered-IsOpen db table matches now later r r' password token link is_library h same sent
          protected live lasting in
      (
        answered db table matches now r password token h,
        (
          λ e. opened.0 (refusal-none lib key later r' link e),
          λ le. refusal_of_IsOpen lib key later r' link (opened.1 le),
        ),
        λ e. ((refusal-none lib key later r'' link e).has_password protected).0 bare,
      )
