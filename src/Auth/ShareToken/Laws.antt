-- ===== src/Auth/ShareToken/Laws.antt =====
-- When a share token is accepted.
use Prim.Native.Nat.{bit_or, bit_xor}
use purp_tape.Base.{
  ℕ, zero, suc, ◌+◌, ◌-◌, ◌≤◌, ◌<◌, ◌≡◌, refl, sym, ap, ap₂, ◌∙◌, subst, ◌≢◌, ◌↔◌, true, false,
  none, some, List, [], ◌∷◌, arith, if◌then◌else◌, ◌==◌, length, All,
}
use purp_tape.Base.Bits.{bit_or-zero, bit_xor-zero, bit_xor_self}
use purp_tape.Auth.ShareToken.{
  rune_width, two_bytes, compare_runes, constant_time_compare, ShareToken, generate_share_token,
  verify_share_token, is_token_valid,
}

-- Every byte is a character of its own.
abbrev pub IsAscii : List ℕ → Type 0
IsAscii s = All (λ b. b < 0x80) s

ascii_width : (x : ℕ) (a : List ℕ) → x < 0x80 → rune_width x a ≡ 1
unfolding rune_width
ascii_width x a h = ground arith

compare_runes_sound :
    (result : ℕ) (a b : List ℕ)
    → IsAscii a
    → length a ≡ length b
    → compare_runes 0 result a b ≡ 0
    → (result ≡ 0) × (a ≡ b)
unfolding compare_runes
compare_runes_sound result [] [] ascii same h = (h, refl)
compare_runes_sound result [] (y ∷ b) ascii same h = absurd (omega arith)
compare_runes_sound result (x ∷ a) [] ascii same h = absurd (omega arith)
compare_runes_sound result (x ∷ a) (y ∷ b) (here, ascii) same h =
    let rest = compare_runes_sound (bit_or result (bit_xor x y)) a b ascii (omega arith) (
      ap (λ w. compare_runes (w - 1) (bit_or result (bit_xor x y)) a b) (sym (ascii_width x a here))
      ∙ h) in
    let both = bit_or-zero result (bit_xor x y) rest.0 in
    (both.0, ap₂ ◌∷◌ (bit_xor-zero x y both.1) rest.1)

compare_runes_self : (skip : ℕ) (a : List ℕ) → compare_runes skip 0 a a ≡ 0
unfolding compare_runes
compare_runes_self skip [] = refl
compare_runes_self zero (x ∷ a) =
    ap (λ r. compare_runes (rune_width x a - 1) r a a) (ap (bit_or 0) (bit_xor_self x))
    ∙ compare_runes_self (rune_width x a - 1) a
compare_runes_self (suc skip) (x ∷ a) = compare_runes_self skip a

-- Where the first text is ASCII, as a hexadecimal digest is, the comparison is equality.
pub constant_time_compare_iff :
    (a b : List ℕ) → IsAscii a → (constant_time_compare a b ≡ true) ↔ (a ≡ b)
unfolding constant_time_compare
constant_time_compare_iff a b ascii = (forward, backward)
  where
    forward : (if length a == length b then compare_runes 0 0 a b == 0 else false) ≡ true → a ≡ b
    forward h = (compare_runes_sound 0 a b ascii (ground arith) (ground arith)).1

    backward : a ≡ b → (if length a == length b then compare_runes 0 0 a b == 0 else false) ≡ true
    backward e =
        subst (λ c. (if length a == length c then compare_runes 0 0 a c == 0 else false) ≡ true) e
          (rw (compare_runes_self 0 a) (ground arith))

-- Outside ASCII it is not: two texts whose two-byte characters differ in the second byte alone
-- compare as the same.
pub constant_time_compare-continuation :
    (x y : ℕ) → 0x80 ≤ x → x ≤ 0xbf → constant_time_compare (0xc3 ∷ x ∷ []) (0xc3 ∷ y ∷ []) ≡ true
unfolding constant_time_compare compare_runes rune_width two_bytes
constant_time_compare-continuation x y low high = ground arith

module _ (sha256_hex base64 : List ℕ → List ℕ) (hex : (s : List ℕ) → IsAscii (sha256_hex s)) where
  -- A token is accepted exactly until the link expires and if its digest is the stored one. Neither
  -- may be empty.
  pub is_token_valid_iff :
      (now : ℕ) (token stored_hash : List ℕ) (expires_at : ℕ)
      → (is_token_valid sha256_hex base64 now token stored_hash expires_at ≡ true) ↔ (
          (token ≢ []) × (stored_hash ≢ []) × (now ≤ expires_at) × (sha256_hex token ≡ stored_hash))
  unfolding is_token_valid verify_share_token
  is_token_valid_iff now [] stored_hash expires_at = (λ h. ground arith, λ p. absurd (p.0 refl))
  is_token_valid_iff now (t ∷ token) [] expires_at = (λ h. ground arith, λ p. absurd (p.1 refl))
  is_token_valid_iff now (t ∷ token) (s ∷ stored_hash) expires_at =
      let same =
        constant_time_compare_iff (sha256_hex (t ∷ token)) (s ∷ stored_hash) (hex (t ∷ token)) in
      (
        λ h. (λ e. ground arith, λ e. ground arith, ground arith, same.0 (ground arith)),
        λ p. let equal = same.1 p.3 in ground arith,
      )

  -- The token that was made for a link is accepted for it as long as the link lasts, and not after.
  pub is_token_valid-generate_share_token :
      (bytes : List ℕ) (made now duration : ℕ) (st : ShareToken)
      → base64 bytes ≢ []
      → sha256_hex (base64 bytes) ≢ []
      → generate_share_token sha256_hex base64 (some bytes) made duration ≡ some st
      → (is_token_valid sha256_hex base64 now st.token st.hash st.expires_at ≡ true)
        ↔ (now ≤ made + duration)
  unfolding generate_share_token
  is_token_valid-generate_share_token bytes made now duration st token hash h =
      subst
        (λ s.
          (is_token_valid sha256_hex base64 now s.token s.hash s.expires_at ≡ true)
          ↔ (now ≤ made + duration))
        (ap (λ o. elim o as (λ x. ShareToken) [ none ↦ st | some s ↦ s ]) h)
        (λ v. (accepted.0 v).2, λ le. accepted.1 (token, hash, le, refl))
    where
      accepted :
          (is_token_valid sha256_hex base64 now
              (base64 bytes)
              (sha256_hex (base64 bytes))
              (made + duration)
            ≡ true)
          ↔ ((base64 bytes ≢ [])
              × (sha256_hex (base64 bytes) ≢ [])
              × (now ≤ made + duration)
              × (sha256_hex (base64 bytes) ≡ sha256_hex (base64 bytes)))
      accepted = is_token_valid_iff now (base64 bytes) (sha256_hex (base64 bytes)) (made + duration)
