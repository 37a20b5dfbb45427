-- ===== src/Handlers/Shares/Tokens/Laws.antt =====
-- When an access token is accepted.
use Prim.Native.Char.{Char, char}
use purp_tape.Base.{
  ℕ, ◌+◌, ◌≤◌, ◌≡◌, sym, ap, ◌∙◌, ◌↔◌, ◌≢◌, ◌&&◌, true, String, some, [], ◌∷◌, arith, str_eq, leb,
  eq_iff, eq_refl,
}
use purp_tape.Base.Text.{split, join}
use purp_tape.Base.Text.Join.{Lacks, split-join}
use purp_tape.Handlers.Shares.Tokens.{
  TokenLibrary, unix, generate_share_access_token, verify_share_access_token, check_parts,
  check_payload,
}

abbrev pub dot : Char
dot = char b'.' tt

-- What the source relies on, of one payload: base64 has no dot, and what was encoded is decoded again.
pub record IsLibrary (lib : TokenLibrary) (key hash : String) (exp : ℕ) : Type 0 where
  pub payload_plain : Lacks dot (lib.encode_payload hash exp)
  pub mac_plain : Lacks dot (lib.mac key (lib.encode_payload hash exp))
  pub decoded : lib.decode_payload (lib.encode_payload hash exp) ≡ some (hash, exp)

payload_iff :
    (hash expected : String) (now exp : ℕ)
    → ((str_eq hash expected && leb now exp) ≡ true) ↔ ((hash ≡ expected) × (now ≤ exp))
payload_iff hash expected now exp =
    (λ h. ground (arith, eq_iff hash expected), λ h. ground (arith, eq_iff hash expected))

module _ (lib : TokenLibrary) (made ttl : ℕ) (hash key : String)
    (is_library : IsLibrary lib key hash (unix (made + ttl))) where
  split-token :
      split b'.' (generate_share_access_token lib made hash ttl key)
      ≡ lib.encode_payload hash (unix (made + ttl))
        ∷ lib.mac key (lib.encode_payload hash (unix (made + ttl)))
        ∷ []
  unfolding generate_share_access_token join
  split-token =
      let payload = lib.encode_payload hash (unix (made + ttl)) in
      split-join dot payload (lib.mac key payload ∷ [])
        (is_library.payload_plain, (is_library.mac_plain, tt))

  -- A token that was made for a link is accepted under its key for that link alone, and up to the
  -- second in which it expires.
  pub verify-generate :
      (now : ℕ) (expected : String)
      → (verify_share_access_token lib now
            (generate_share_access_token lib made hash ttl key)
            expected
            key
          ≡ true)
        ↔ ((hash ≡ expected) × (unix now ≤ unix (made + ttl)))
  unfolding verify_share_access_token check_parts check_payload
  verify-generate now expected =
      rw (split-token, eq_refl, is_library.decoded)
        (payload_iff hash expected (unix now) (unix (made + ttl)))

  -- No token is empty.
  pub generate-ne-nil : generate_share_access_token lib made hash ttl key ≢ ""
  unfolding split
  generate-ne-nil e = absurd (two_parts (sym split-token ∙ ap (split b'.') e))
    where
      two_parts : {a b : String} → ¬ (a ∷ b ∷ [] ≡ split b'.' "")
      two_parts h = ground arith
