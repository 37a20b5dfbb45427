-- ===== src/Http.antt =====
-- What the program uses of net/http: a request, and what a handler does with it.
use purp_tape.Base.{ℕ, ◌≡◌, String, List, Dict}

-- `header` is `r.Header.Get` (a missing header reads ""), `path_value` is `r.PathValue`, and
-- `context` holds the values of `r.Context()` that are strings.
pub record Request : Type 0 where
  pub method : String
  pub path : String
  pub remote_addr : String
  pub header : String → String
  pub path_value : String → String
  pub context : Dict String

-- A guard either answers, with the headers that it sets and a status and text, or calls `next`.
pub data Reply : Type 0 where
  error : List (String × String) → ℕ → String → Reply
  next : Request → Reply

-- What a handler writes: an error, with the headers that it sets besides the content type, or a
-- status with the value that is encoded as JSON.
pub data Answer {ℓ} (A : Type ℓ) : Type ℓ where
  refused : List (String × String) → ℕ → String → Answer A
  done : ℕ → A → Answer A

abbrev pub IsRefused {ℓ} : {A : Type ℓ} → Answer A → Type ℓ
IsRefused a =
    (headers : List (String × String)) × (status : ℕ) × (message : String) × (a
      ≡ refused headers status message)
