-- ===== src/Cache/Redis.antt =====
-- The Redis server behind github.com/redis/go-redis, which the repository only calls: the commands
-- that the program uses, and what their documentation says of them. A value is the document that
-- its JSON text encodes: `flag` for a plain text, `ids` for an array of texts.
use purp_tape.Base.{
  ℕ, ◌+◌, ◌≤◌, ◌<◌, ◌≡◌, refl, ◌⊎◌, inl, inr, Bool, true, false, ◌||◌, String, Option, none, some,
  List, [], ◌∷◌, str_eq, arith, eq_iff, ltb, eq_refl, if◌then◌else◌,
}

pub data Value : Type 0 where
  flag : String → Value
  ids : List String → Value

-- GET: the value, redis.Nil, or another error.
pub data Got : Type 0 where
  hit : Value → Got
  nil error : Got

abbrev pub In : String → List String → Type 0
In k [] = ⊥
In k (x ∷ xs) = (x ≡ k) ⊎ In k xs

-- `State` is the server with its connection. Commands take the time in nanoseconds; SET and DEL
-- also return whether they succeeded.
pub record Redis : Type 1 where
  pub State : Type 0
  pub get : State → ℕ → String → Got
  pub set : State → ℕ → String → Value → ℕ → State × Bool
  pub del : State → ℕ → List String → State × Bool
  -- SET with an expiry: the value can be read until the expiry, and not after it.
  pub get_set :
      (s : State) (now later ttl : ℕ) (k : String) (v : Value)
      → (set s now k v ttl).1 ≡ true
      → now ≤ later
      → later < now + ttl
      → get (set s now k v ttl).0 later k ≡ hit v
  pub get_expired :
      (s : State) (now later ttl : ℕ) (k : String) (v : Value)
      → (set s now k v ttl).1 ≡ true
      → now + ttl ≤ later
      → get (set s now k v ttl).0 later k ≡ nil
  -- DEL removes the keys that it names, and no others.
  pub get_del :
      (s : State) (now later : ℕ) (ks : List String) (k : String)
      → (del s now ks).1 ≡ true
      → In k ks
      → get (del s now ks).0 later k ≡ nil
  pub get_del_other :
      (s : State) (now later : ℕ) (ks : List String) (k : String)
      → ¬ In k ks
      → get (del s now ks).0 later k ≡ get s later k

-- A server in memory that meets these assumptions: each key has a value and the time of its end.
abbrev pub cell_at : Option (Value × ℕ) → ℕ → Got
cell_at none now = nil
cell_at (some (v, end)) now = if ltb now end then hit v else nil

abbrev pub listed : String → List String → Bool
listed k [] = false
listed k (x ∷ xs) = str_eq x k || listed k xs

pub listed_of_In : (k : String) (ks : List String) → In k ks → listed k ks ≡ true
listed_of_In k [] h = absurd h
listed_of_In k (x ∷ xs) (inl e) = ground (arith, eq_iff x k)
listed_of_In k (x ∷ xs) (inr h) = ground (arith, listed_of_In k xs h)

pub In-of_listed : (k : String) (ks : List String) → listed k ks ≡ true → In k ks
In-of_listed k [] h = cc
In-of_listed k (x ∷ xs) h = ground (arith, eq_iff x k, In-of_listed k xs)

pub memory-get_set :
    (s : String → Option (Value × ℕ)) (now later ttl : ℕ) (k : String) (v : Value)
    → later < now + ttl
    → cell_at (if str_eq k k then some (v, now + ttl) else s k) later ≡ hit v
memory-get_set s now later ttl k v h = rw (eq_refl k) (ground arith)

pub memory-get_expired :
    (s : String → Option (Value × ℕ)) (now later ttl : ℕ) (k : String) (v : Value)
    → now + ttl ≤ later
    → cell_at (if str_eq k k then some (v, now + ttl) else s k) later ≡ nil
memory-get_expired s now later ttl k v h = rw (eq_refl k) (ground arith)

pub memory-get_del :
    (s : String → Option (Value × ℕ)) (later : ℕ) (ks : List String) (k : String)
    → In k ks
    → cell_at (if listed k ks then none else s k) later ≡ nil
memory-get_del s later ks k h = rw (listed_of_In k ks h)

pub memory-get_del_other :
    (s : String → Option (Value × ℕ)) (later : ℕ) (ks : List String) (k : String)
    → ¬ In k ks
    → cell_at (if listed k ks then none else s k) later ≡ cell_at (s k) later
memory-get_del_other s later ks k h = go (listed k ks) refl
  where
    go :
        (b : Bool)
        → listed k ks ≡ b
        → cell_at (if listed k ks then none else s k) later ≡ cell_at (s k) later
    go true e = absurd (h (In-of_listed k ks e))
    go false e = rw e

abbrev pub memory : Redis
memory = record {
  State = String → Option (Value × ℕ);
  get = λ s now k. cell_at (s k) now;
  set = λ s now k v ttl. ((λ j. if str_eq k j then some (v, now + ttl) else s j), true);
  del = λ s now ks. ((λ j. if listed j ks then none else s j), true);
  get_set = λ s now later ttl k v done from till. memory-get_set s now later ttl k v till;
  get_expired = λ s now later ttl k v done past. memory-get_expired s now later ttl k v past;
  get_del = λ s now later ks k done h. memory-get_del s later ks k h;
  get_del_other = λ s now later ks k h. memory-get_del_other s later ks k h;
}
