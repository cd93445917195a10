-- ===== src/RateLimit/Refines.antt =====
-- The limiter against the window that it promises: at most so many passed attempts of a client
-- within any window.
use natimai_tiai.Prelude.{
  ℕ, ◌+◌, ◌≤◌, ◌≡◌, refl, arith, Bool, true, false, not, ◌&&◌, String, List, [], ◌∷◌, ◌++◌, leb,
  ltb, length, count_where, string_eq, ◌==◌, ==_sound, if◌then◌else◌, Bool-cases, inl, inr, ap, ap₂,
  sym, ◌∙◌, subst, if_elim,
}
use natimai_tiai.RateLimit.{RateLimiter, pop_old, hits_of, set_hits, sweep, allow}
use natimai_tiai.RateLimit.Window.{
  pop-pop, past, pop_past, pop-snoc, hits_of-set, distinct, all_past, distinct-set, all_past-set,
  hits_of-sweep, distinct-sweep, all_past-sweep,
}

-- The attempts of a client that passed, still within the window at an instant; `history` holds all
-- that passed, of all clients.
abbrev pub recent : ℕ → String → ℕ → List (String × ℕ) → ℕ
recent window key now history =
    count_where (λ (e : String × ℕ). e.0 == key && ltb now (e.1 + window)) history

-- What the limiter promises of an attempt
abbrev pub promised : ℕ → ℕ → String → ℕ → List (String × ℕ) → Bool
promised max_attempts window key now history =
    not (leb max_attempts (recent window key now history))

abbrev pub noted : Bool → String → ℕ → List (String × ℕ) → List (String × ℕ)
noted true key now history = (key, now) ∷ history
noted false key now history = history

-- A dictionary that stands for a history, from a clock on
record Stands (window clock : ℕ) (entries : List (String × List ℕ)) (history : List (String × ℕ))
    : Type 0 where
  agree :
      (key : String) (later : ℕ)
      → clock ≤ later
      → length (pop_old window later (hits_of key entries)) ≡ recent window key later history
  keyed : distinct entries ≡ true
  bounded : all_past clock entries ≡ true

hits_past :
    (clock : ℕ) (key : String) (entries : List (String × List ℕ))
    → all_past clock entries ≡ true
    → past clock (hits_of key entries) ≡ true
unfolding hits_of
hits_past clock key [] a = refl
hits_past clock key (e ∷ entries) a = ground (arith, hits_past clock key entries)

past-later : (c now : ℕ) (hits : List ℕ) → c ≤ now → past c hits ≡ true → past now hits ≡ true
past-later c now [] le p = refl
past-later c now (h ∷ hits) le p = ground (arith, past-later c now hits)

all_past-later :
    (c now : ℕ) (entries : List (String × List ℕ))
    → c ≤ now
    → all_past c entries ≡ true
    → all_past now entries ≡ true
all_past-later c now [] le a = refl
all_past-later c now (e ∷ entries) le a =
    ground (arith, past-later c now e.1, all_past-later c now entries)

past-snoc : (now : ℕ) (hits : List ℕ) → past now hits ≡ true → past now (hits ++ now ∷ []) ≡ true
past-snoc now [] p = ground arith
past-snoc now (h ∷ hits) p = ground (arith, past-snoc now hits)

module _ (window clock now : ℕ) (le : clock ≤ now) (key : String) (entries : List (String × List ℕ))
    (history : List (String × ℕ)) where
  fresh_past :
      Stands window clock entries history
      → past now (pop_old window now (hits_of key entries)) ≡ true
  fresh_past s =
      past-later clock now _ le
        (pop_past window now clock (hits_of key entries) (hits_past clock key entries s.bounded))

  -- What the fresh deque of the client counts later, for a name of it
  fresh_agree :
      (k : String) (later : ℕ)
      → Stands window clock entries history
      → now ≤ later
      → (key == k) ≡ true
      → length (pop_old window later (pop_old window now (hits_of key entries)))
        ≡ recent window k later history
  fresh_agree k later s ge here =
      ap length (pop-pop window now later (hits_of key entries) ge)
      ∙ ap (λ x. length (pop_old window later (hits_of x entries))) (==_sound key k here)
      ∙ s.agree k later (omega (arith, le, ge))

  -- A refused attempt leaves the deque of its client without what is old.
  refused-Stands :
      Stands window clock entries history
      → Stands window now (set_hits key (pop_old window now (hits_of key entries)) entries) history
  refused-Stands s = record {
    agree = λ k later ge.
        ap (λ hits. length (pop_old window later hits)) (hits_of-set k key _ entries)
        ∙ elim (Bool-cases (key == k)) [
          | inl here ↦ rw here (fresh_agree k later s ge here)
          | inr other ↦ rw other (s.agree k later (omega (arith, le, ge)))
        ];
    keyed = distinct-set key _ entries s.keyed;
    bounded =
        all_past-set now key _ entries (fresh_past s)
          (all_past-later clock now entries le s.bounded);
  }

  counted_first :
      {n : ℕ} (k : String) (later : ℕ)
      → n ≡ recent window k later history
      → n + (if ltb later (now + window) then 1 else 0)
        ≡ (if ltb later (now + window) then 1 else 0) + recent window k later history
  counted_first k later e = omega (arith, e)

  add_none : {n m : ℕ} → n ≡ m → n ≡ 0 + m
  add_none e = omega (arith, e)

  passed-Stands :
      Stands window clock entries history
      → Stands window now
          (set_hits key (pop_old window now (hits_of key entries) ++ now ∷ []) entries)
          ((key, now) ∷ history)
  passed-Stands s = record {
    agree = λ k later ge.
        ap (λ hits. length (pop_old window later hits)) (hits_of-set k key _ entries)
        ∙ elim (Bool-cases (key == k)) [
          | inl here ↦ rw here (
              pop-snoc window now later _ (fresh_past s)
              ∙ counted_first k later (fresh_agree k later s ge here))
          | inr other ↦ rw other (add_none (s.agree k later (omega (arith, le, ge))))
        ];
    keyed = distinct-set key _ entries s.keyed;
    bounded =
        all_past-set now key _ entries (past-snoc now _ (fresh_past s))
          (all_past-later clock now entries le s.bounded);
  }

swept-Stands :
    (window now : ℕ) (entries : List (String × List ℕ)) (history : List (String × ℕ))
    → Stands window now entries history
    → Stands window now (sweep window now entries) history
swept-Stands window now entries history s = record {
  agree = λ key later le.
      ap (λ hits. length (pop_old window later hits)) (hits_of-sweep window now key entries s.keyed)
      ∙ ap length (pop-pop window now later (hits_of key entries) le)
      ∙ s.agree key later le;
  keyed = distinct-sweep window now entries s.keyed;
  bounded = all_past-sweep window now now entries s.bounded;
}

-- What an attempt answers and leaves
record IsStep (window now : ℕ) (key : String) (limiter : RateLimiter) (history : List (String × ℕ))
    (answer : Bool × RateLimiter) : Type 0 where
  answers : answer.0 ≡ promised limiter.max_attempts window key now history
  same_max : answer.1.max_attempts ≡ limiter.max_attempts
  same_window : answer.1.window ≡ limiter.window
  stands : Stands window now answer.1.hits (noted answer.0 key now history)

allow-IsStep :
    (clock now : ℕ) (key : String) (limiter : RateLimiter) (history : List (String × ℕ))
    → clock ≤ now
    → Stands limiter.window clock limiter.hits history
    → IsStep limiter.window now key limiter history (allow key now limiter)
unfolding allow
allow-IsStep clock now key limiter history le s =
    let fresh = pop_old limiter.window now (hits_of key limiter.hits) in
    let count = s.agree key now le in
    let full = ap (leb limiter.max_attempts) count in
    let passed = passed-Stands limiter.window clock now le key limiter.hits history s in
    let P = IsStep limiter.window now key limiter history in
    if_elim P (leb limiter.max_attempts (length fresh)) _ _
      (λ refuses. record {
        answers = ap not (sym refuses ∙ full);
        same_max = refl;
        same_window = refl;
        stands = refused-Stands limiter.window clock now le key limiter.hits history s;
      })
      (λ passes.
        if_elim P (ltb 1024 (length (set_hits key (fresh ++ now ∷ []) limiter.hits))) _ _
          (λ many. record {
            answers = ap not (sym passes ∙ full);
            same_max = refl;
            same_window = refl;
            stands = swept-Stands limiter.window now _ _ passed;
          })
          (λ few. record {
            answers = ap not (sym passes ∙ full);
            same_max = refl;
            same_window = refl;
            stands = passed;
          }))

-- The answers to attempts, each a client and a clock, by the limiter and by what it promises
abbrev pub answers_of : RateLimiter → List (String × ℕ) → List Bool
answers_of limiter [] = []
answers_of limiter (a ∷ attempts) =
    (allow a.0 a.1 limiter).0 ∷ answers_of (allow a.0 a.1 limiter).1 attempts

abbrev pub promised_all : ℕ → ℕ → List (String × ℕ) → List (String × ℕ) → List Bool
promised_all max_attempts window history [] = []
promised_all max_attempts window history (a ∷ attempts) =
    let passes = promised max_attempts window a.0 a.1 history in
    passes ∷ promised_all max_attempts window (noted passes a.0 a.1 history) attempts

-- The clock never goes back.
abbrev pub forward : ℕ → List (String × ℕ) → Bool
forward clock [] = true
forward clock (a ∷ attempts) = leb clock a.1 && forward a.1 attempts

simulates :
    (clock : ℕ) (limiter : RateLimiter) (history attempts : List (String × ℕ))
    (max_attempts window : ℕ)
    → limiter.max_attempts ≡ max_attempts
    → limiter.window ≡ window
    → Stands window clock limiter.hits history
    → forward clock attempts ≡ true
    → answers_of limiter attempts ≡ promised_all max_attempts window history attempts
simulates clock limiter history [] m w pm pw s f = refl
simulates clock limiter history (a ∷ attempts) m w pm pw s f =
    let answer = allow a.0 a.1 limiter in
    let step : IsStep w a.1 a.0 limiter history answer =
      subst (λ x. IsStep x a.1 a.0 limiter history answer) pw
        (allow-IsStep clock a.1 a.0 limiter history (ground arith)
          (subst (λ x. Stands x clock limiter.hits history) (sym pw) s)) in
    let same : answer.0 ≡ promised m w a.0 a.1 history =
      step.answers ∙ ap (λ x. promised x w a.0 a.1 history) pm in
    ap₂ (λ b bs. b ∷ bs) same
      (simulates a.1 answer.1 (noted (promised m w a.0 a.1 history) a.0 a.1 history) attempts m w
        (step.same_max ∙ pm) (step.same_window ∙ pw)
        (subst (λ b. Stands w a.1 answer.1.hits (noted b a.0 a.1 history)) same step.stands)
        (ground arith))

empty-Stands : {window : ℕ} → Stands window 0 [] []
unfolding hits_of pop_old
empty-Stands = record { agree = λ key later le. refl; keyed = refl; bounded = refl }

-- Whatever clients attempt, while the clock does not go back, the limiter passes exactly the attempts
-- that find fewer than the maximum of the same client's passed attempts within the window: the
-- popping and the sweep of the dictionary are not seen.
pub allow_refines :
    (max_attempts window : ℕ) (attempts : List (String × ℕ))
    → forward 0 attempts ≡ true
    → answers_of (record { max_attempts = max_attempts; window = window; hits = [] }) attempts
      ≡ promised_all max_attempts window [] attempts
allow_refines m w attempts f =
    simulates 0 (record { max_attempts = m; window = w; hits = [] }) [] attempts m w refl refl
      empty-Stands f
