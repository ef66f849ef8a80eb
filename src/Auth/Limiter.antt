-- ===== src/Auth/Limiter.antt =====
-- The sliding windows that bound the attempts of one address: `_rate_limit` of app/auth/router.py. A
-- time is a number of the monotonic clock.
use biocodetechpay.Prelude.{
  ℕ, ◌+◌, Bool, true, false, List, [], ◌∷◌, ◌++◌, Text, text_eq, ltb, leb, length, if◌then◌else◌,
}

-- `_LOGIN_MAX`, `_LOGIN_WINDOW`, `_REG_MAX` and `_REG_WINDOW`
abbrev pub login_max : ℕ
login_max = 5

abbrev pub login_window : ℕ
login_window = 60

abbrev pub reg_max : ℕ
reg_max = 3

abbrev pub reg_window : ℕ
reg_window = 300

-- The times of one address, the oldest first; an address that is not in the store has none.
abbrev pub Store : Type 0
Store = Text → List ℕ

abbrev pub no_attempts : Store
no_attempts client_ip = []

abbrev pub set_times : Text → List ℕ → Store → Store
set_times client_ip times store ip = if text_eq ip client_ip then times else store ip

-- `while ts and ts[0] < now - window: ts.popleft()`
unfoldable pub purge : ℕ → ℕ → List ℕ → List ℕ
purge window now [] = []
purge window now (t ∷ ts) = elim (ltb (t + window) now) [
  | true ↦ purge window now ts
  | false ↦ t ∷ ts
]

-- The times that are kept, and whether the attempt goes on.
unfoldable pub attempt : ℕ → ℕ → ℕ → List ℕ → List ℕ × Bool
unfolding purge
attempt max_req window now times =
    let ts = purge window now times in
    if leb max_req (length ts) then (ts, false) else (ts ++ (now ∷ []), true)

-- `_rate_limit`; `false` is the `HTTPException` with status 429.
unfoldable pub rate_limit : Store → Text → ℕ → ℕ → ℕ → Store × Bool
unfolding attempt
rate_limit store client_ip max_req window now =
    let (times, allowed) = attempt max_req window now (store client_ip) in
    (set_times client_ip times store, allowed)

-- `_check_rate_limit` of app/web_routes.py: 30 requests in 60 seconds.
unfoldable pub check_rate_limit : Store → Text → ℕ → Store × Bool
unfolding rate_limit
check_rate_limit store client_ip now = rate_limit store client_ip 30 60 now
