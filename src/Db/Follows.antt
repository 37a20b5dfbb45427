-- ===== src/Db/Follows.antt =====
-- The statements on likes and user_follows of backend/internal/db/queries_phase2.go. A row is the pair
-- that its table has as unique: a user and a track, or a follower and whom he follows.
pub mod Laws
use purp_tape.Base.{
  Bool, true, false, not, ◌&&◌, ◌||◌, String, Option, none, some, List, [], ◌∷◌, str_eq,
  if◌then◌else◌,
}
use purp_tape.Db.{Database, DbResult, query}

unfoldable pub has_pair : String → String → List (String × String) → Bool
has_pair a b [] = false
has_pair a b ((x, y) ∷ rows) = str_eq x a && str_eq y b || has_pair a b rows

-- ON CONFLICT … DO NOTHING
unfoldable pub inserted_pair : String → String → List (String × String) → List (String × String)
unfolding has_pair
inserted_pair a b rows = if has_pair a b rows then rows else (a, b) ∷ rows

-- DELETE … WHERE … = $1 AND … = $2
unfoldable pub deleted_pair : String → String → List (String × String) → List (String × String)
deleted_pair a b [] = []
deleted_pair a b ((x, y) ∷ rows) =
    let rest = deleted_pair a b rows in if str_eq x a && str_eq y b then rest else (x, y) ∷ rest

-- `reached` says of each statement whether it is executed.
unfoldable pub create_like :
    Bool → (user_id track_id : String) → List (String × String) → Option (List (String × String))
unfolding inserted_pair
create_like reached user_id track_id likes =
    if reached then some (inserted_pair user_id track_id likes) else none

unfoldable pub delete_like :
    Bool → (user_id track_id : String) → List (String × String) → Option (List (String × String))
unfolding deleted_pair
delete_like reached user_id track_id likes =
    if reached then some (deleted_pair user_id track_id likes) else none

-- CHECK (follower_id != following_id)
unfoldable pub create_follow :
    Bool
    → (follower_id following_id : String) → List (String × String)
    → Option (List (String × String))
unfolding inserted_pair
create_follow reached follower_id following_id follows =
    if reached && not (str_eq follower_id following_id)
    then some (inserted_pair follower_id following_id follows)
    else none

unfoldable pub delete_follow :
    Bool
    → (follower_id following_id : String) → List (String × String)
    → Option (List (String × String))
unfolding deleted_pair
delete_follow reached follower_id following_id follows =
    if reached then some (deleted_pair follower_id following_id follows) else none

-- The ids of the users; the rows are in the order of created_at, the latest first.
unfoldable pub followed_by : String → List (String × String) → List String
followed_by user_id [] = []
followed_by user_id ((a, b) ∷ rows) =
    let rest = followed_by user_id rows in if str_eq a user_id then b ∷ rest else rest

unfoldable pub get_following : Database → String → List (String × String) → DbResult (List String)
unfolding followed_by
get_following db user_id follows = query db (followed_by user_id follows)

unfoldable pub followers_of : String → List (String × String) → List String
followers_of user_id [] = []
followers_of user_id ((a, b) ∷ rows) =
    let rest = followers_of user_id rows in if str_eq b user_id then a ∷ rest else rest

unfoldable pub get_followers : Database → String → List (String × String) → DbResult (List String)
unfolding followers_of
get_followers db user_id follows = query db (followers_of user_id follows)
