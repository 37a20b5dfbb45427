-- ===== src/Db/ShareLinks/Laws.antt =====
-- What a read of a share link returns after a write.
use purp_tape.Base.{
  ℕ, ◌≡◌, Bool, true, false, String, none, some, List, [], ◌∷◌, arith, str_eq, if◌then◌else◌,
  eq_iff,
}
use purp_tape.Db.ShareLinks.{ShareLink, find_link, create_share_link, revoke}

pub find_link-revoke :
    (now : ℕ) (hash other : String) (table : List ShareLink)
    → find_link other (revoke now hash table) ≡ (
        if str_eq other hash
        then elim (find_link other table) [
          | none ↦ none
          | some l ↦ some (record l { revoked_at = some now })
        ]
        else find_link other table)
unfolding find_link revoke
find_link-revoke now hash other [] = ground arith
find_link-revoke now hash other (l ∷ table) = ground (
  arith,
  eq_iff l.hash hash,
  eq_iff l.hash other,
  eq_iff other hash,
  find_link-revoke now hash other table,
)

pub find_link-create :
    (reached : Bool) (link : ShareLink) (other : String) (table after : List ShareLink)
    → create_share_link reached link table ≡ some after
    → find_link other after ≡ (if str_eq link.hash other then some link else find_link other table)
unfolding find_link create_share_link
find_link-create true link other table after h = ground arith
find_link-create false link other table after h = absurd (ground arith)
