-- ===== src/Auth/ShareToken.antt =====
-- backend/internal/auth/share_token.go: tokens of share links. A string is the list of its bytes
-- here, since the comparison ranges over the runes of one. SHA-256, printed in hexadecimal, and the
-- base64 encoding are functions on bytes; times are nanoseconds.
pub mod Laws
use Prim.Native.Nat.{bit_or, bit_xor}
use purp_tape.Base.{
  ℕ, zero, suc, ◌+◌, ◌-◌, Bool, true, false, ◌&&◌, ◌||◌, Option, none, some, List, [], ◌∷◌,
  if◌then◌else◌, ltb, leb, ◌==◌, length,
}
use purp_tape.Base.Int.{ℤ, pos, lt_int, sub_ℕ}

-- Whether a byte lies between two others.
abbrev within : ℕ → ℕ → ℕ → Bool
within low high b = leb low b && leb b high

abbrev continuation : ℕ → Bool
continuation b = within 0x80 0xbf b

-- The bytes of a rune, after its first one: what `range` checks of them, and how many bytes it
-- takes. A byte that starts no valid rune is taken alone.
two_bytes : List ℕ → ℕ
two_bytes [] = 1
two_bytes (b ∷ s) = if continuation b then 2 else 1

three_bytes : ℕ → ℕ → List ℕ → ℕ
three_bytes low high [] = 1
three_bytes low high (b ∷ []) = 1
three_bytes low high (b ∷ c ∷ s) = if within low high b && continuation c then 3 else 1

four_bytes : ℕ → ℕ → List ℕ → ℕ
four_bytes low high [] = 1
four_bytes low high (b ∷ []) = 1
four_bytes low high (b ∷ c ∷ []) = 1
four_bytes low high (b ∷ c ∷ d ∷ s) =
    if within low high b && continuation c && continuation d then 4 else 1

pub rune_width : ℕ → List ℕ → ℕ
unfolding two_bytes three_bytes four_bytes
rune_width a s =
    if ltb a 0xc2
    then 1
    else if ltb a 0xe0
    then two_bytes s
    else if a == 0xe0
    then three_bytes 0xa0 0xbf s
    else if a == 0xed
    then three_bytes 0x80 0x9f s
    else if ltb a 0xf0
    then three_bytes 0x80 0xbf s
    else if a == 0xf0
    then four_bytes 0x90 0xbf s
    else if ltb a 0xf4
    then four_bytes 0x80 0xbf s
    else if a == 0xf4
    then four_bytes 0x80 0x8f s
    else 1

-- The loop with `skip` bytes left of the rune it is at, and `result` so far.
compare_runes : ℕ → ℕ → List ℕ → List ℕ → ℕ
unfolding rune_width
compare_runes skip result [] b = result
compare_runes skip result (x ∷ a) [] = result
compare_runes (suc skip) result (x ∷ a) (y ∷ b) = compare_runes skip result a b
compare_runes zero result (x ∷ a) (y ∷ b) =
    compare_runes (rune_width x a - 1) (bit_or result (bit_xor x y)) a b

pub constant_time_compare : List ℕ → List ℕ → Bool
unfolding compare_runes
constant_time_compare a b = if length a == length b then compare_runes 0 0 a b == 0 else false

pub record ShareToken : Type 0 where
  pub token : List ℕ
  pub hash : List ℕ
  pub expires_at : ℕ

abbrev is_empty : List ℕ → Bool
is_empty [] = true
is_empty (b ∷ s) = false

-- time.Until is read twice.
pub token_almost_expired : ℕ → ℕ → ℕ → Bool
token_almost_expired first_now second_now expires_at =
    lt_int (sub_ℕ expires_at first_now) (pos 86_400_000_000_000)
    && lt_int (pos 0) (sub_ℕ expires_at second_now)

-- sql.Scanner: what a column holds, of which only a text and NULL are taken.
pub data Column : Type 0 where
  null : Column
  text : List ℕ → Column
  other : Column

pub value : ShareToken → List ℕ
value st = st.hash

pub scan : ShareToken → Column → Option ShareToken
scan st null = some st
scan st (text s) = some (record st { hash = s })
scan st other = none

module _ (sha256_hex base64 : List ℕ → List ℕ) where
  -- `none` is a failure of the random source; the bytes are 32.
  pub generate_share_token : Option (List ℕ) → ℕ → ℕ → Option ShareToken
  generate_share_token none now expiry_duration = none
  generate_share_token (some token_bytes) now expiry_duration = some (record {
    token = base64 token_bytes;
    hash = sha256_hex (base64 token_bytes);
    expires_at = now + expiry_duration;
  })

  pub verify_share_token : ℕ → List ℕ → List ℕ → ℕ → Bool
  unfolding constant_time_compare
  verify_share_token now token stored_hash expires_at =
      if ltb expires_at now then false else constant_time_compare (sha256_hex token) stored_hash

  pub is_token_valid : ℕ → List ℕ → List ℕ → ℕ → Bool
  unfolding verify_share_token
  is_token_valid now token stored_hash expires_at =
      if is_empty token || is_empty stored_hash
      then false
      else verify_share_token now token stored_hash expires_at
