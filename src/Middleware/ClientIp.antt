-- ===== src/Middleware/ClientIp.antt =====
-- The three ways in which the program names the client of a request: `getClientIP`
-- (middleware/enterprise.go), `getIPAddress` (middleware/context.go) and `ExtractRateLimitKey`
-- (helpers/cache_and_limits.go), all under backend/internal.
use Prim.Native.String
use purp_tape.Base.{String, none, some, List, [], ◌∷◌, str_eq, if◌then◌else◌, not}
use purp_tape.Base.Text.{split_host_port, split, trim_space}
use purp_tape.Http.{Request}

-- parts[0] of strings.Split, which is never empty.
abbrev pub first_part : List String → String
first_part [] = ""
first_part (p ∷ ps) = p

pub get_client_ip : Request → String
get_client_ip r =
    if not (str_eq (r.header "X-Forwarded-For") "")
    then trim_space (first_part (split b',' (r.header "X-Forwarded-For")))
    else if not (str_eq (r.header "X-Real-IP") "")
    then r.header "X-Real-IP"
    else elim (split_host_port r.remote_addr) [ none ↦ r.remote_addr | some host ↦ host ]

pub get_ip_address : Request → String
get_ip_address r =
    if not (str_eq (r.header "X-Forwarded-For") "")
    then trim_space (first_part (split b',' (r.header "X-Forwarded-For")))
    else if not (str_eq (r.header "X-Real-IP") "")
    then r.header "X-Real-IP"
    else if not (str_eq (first_part (split b':' r.remote_addr)) "")
    then first_part (split b':' r.remote_addr)
    else "unknown"

rate_limit_ip : Request → String
rate_limit_ip r =
    if str_eq (r.header "X-Forwarded-For") ""
    then elim (split_host_port r.remote_addr) [ none ↦ r.remote_addr | some host ↦ host ]
    else r.header "X-Forwarded-For"

pub extract_rate_limit_key : Request → String
unfolding rate_limit_ip
extract_rate_limit_key r = elim (r.context "user_id") [
  | none ↦ String.◌++◌ "ip:" (rate_limit_ip r)
  | some user_id ↦
      if not (str_eq user_id "")
      then String.◌++◌ "user:" user_id
      else String.◌++◌ "ip:" (rate_limit_ip r)
]
