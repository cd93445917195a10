-- ===== src/RateLimit.antt =====
-- backend/app/core/ratelimit.py: the sliding window over the attempts of each client. A clock
-- (`time.monotonic`) is a number of microseconds, and so is a window; the dictionary of the hits is an
-- association list of its keys, in the order in which they came, each with its times, the oldest
-- first.
pub mod Window
pub mod Refines
use natimai_tiai.Prelude.{
  ℕ, ◌+◌, Bool, true, false, not, ◌&&◌, String, List, [], ◌∷◌, ◌++◌, leb, ltb, length, map,
  string_eq, ◌==◌, if◌then◌else◌,
}
use natimai_tiai.Prelude.Time.{seconds}

pub record RateLimiter : Type 0 where
  pub max_attempts : ℕ
  pub window : ℕ
  pub hits : List (String × List ℕ)

-- `while hits and hits[0] <= window_start: hits.popleft()`, the start being `now - window`
pub pop_old : ℕ → ℕ → List ℕ → List ℕ
pop_old window now [] = []
pop_old window now (hit ∷ hits) =
    let rest = pop_old window now hits in if leb (hit + window) now then rest else hit ∷ hits

-- `self._hits.setdefault(key, deque())`, and the write of a key that is there
pub hits_of : String → List (String × List ℕ) → List ℕ
hits_of key [] = []
hits_of key (entry ∷ entries) = if entry.0 == key then entry.1 else hits_of key entries

pub set_hits : String → List ℕ → List (String × List ℕ) → List (String × List ℕ)
set_hits key hits [] = (key, hits) ∷ []
set_hits key hits (entry ∷ entries) =
    let rest = set_hits key hits entries in
    if entry.0 == key then (key, hits) ∷ entries else entry ∷ rest

abbrev pub is_empty : List ℕ → Bool
is_empty [] = true
is_empty (hit ∷ hits) = false

-- `_sweep`
pub sweep : ℕ → ℕ → List (String × List ℕ) → List (String × List ℕ)
sweep window now [] = []
sweep window now (entry ∷ entries) =
    let rest = sweep window now entries in
    if is_empty (pop_old window now entry.1)
    then rest
    else (entry.0, pop_old window now entry.1) ∷ rest

-- `allow`: whether the attempt passes, and the limiter after it
pub allow : String → ℕ → RateLimiter → Bool × RateLimiter
allow key now limiter =
    let fresh = pop_old limiter.window now (hits_of key limiter.hits) in
    let written = set_hits key (fresh ++ now ∷ []) limiter.hits in
    if leb limiter.max_attempts (length fresh)
    then (false, record limiter { hits = set_hits key fresh limiter.hits })
    else if ltb 1024 (length written)
    then (true, record limiter { hits = sweep limiter.window now written })
    else (true, record limiter { hits = written })

-- `reset`
pub reset : RateLimiter → RateLimiter
reset limiter = record limiter { hits = [] }

pub login_limiter : RateLimiter
login_limiter = record { max_attempts = 10; window = seconds 300; hits = [] }

pub password_reset_limiter : RateLimiter
password_reset_limiter = record { max_attempts = 5; window = seconds 900; hits = [] }

pub enroll_limiter : RateLimiter
enroll_limiter = record { max_attempts = 30; window = seconds 300; hits = [] }

-- `rate_limit`: whether a request goes on, and the limiter of its surface after it; a request that
-- does not is answered 429.
pub rate_limit : Bool → String → ℕ → RateLimiter → Bool × RateLimiter
rate_limit enabled ip now limiter = if enabled then allow ip now limiter else (true, limiter)
