-- ===== src/RateLimit/Window.antt =====
-- The deque of one client, and the dictionary of them, read key by key.
use natimai_tiai.Prelude.{
  ℕ, ◌+◌, ◌≤◌, ◌≡◌, refl, arith, Bool, true, false, not, ◌&&◌, ◌||◌, String, List, [], ◌∷◌, ◌++◌,
  leb, ltb, length, all, length-append, string_eq, ◌==◌, ==_same, ==_apart, ==_swap, ==_sound,
  if◌then◌else◌, Bool-cases, inl, inr, ap, sym,
}
use natimai_tiai.RateLimit.{pop_old, hits_of, set_hits, is_empty, sweep}

pub pop-pop :
    (w now later : ℕ) (hits : List ℕ)
    → now ≤ later
    → pop_old w later (pop_old w now hits) ≡ pop_old w later hits
unfolding pop_old
pop-pop w now later [] le = refl
pop-pop w now later (h ∷ hits) le = ground (arith, pop-pop w now later hits le)

abbrev pub past : ℕ → List ℕ → Bool
past clock hits = all (λ h. leb h clock) hits

pub pop_past :
    (w now clock : ℕ) (hits : List ℕ)
    → past clock hits ≡ true
    → past clock (pop_old w now hits) ≡ true
unfolding pop_old
pop_past w now clock [] p = refl
pop_past w now clock (h ∷ hits) p = ground (arith, pop_past w now clock hits)

-- A hit at the end of the deque counts for a window.
pub pop-snoc :
    (w now later : ℕ) (hits : List ℕ)
    → past now hits ≡ true
    → length (pop_old w later (hits ++ now ∷ []))
      ≡ length (pop_old w later hits) + (if ltb later (now + w) then 1 else 0)
unfolding pop_old
pop-snoc w now later [] p = ground arith
pop-snoc w now later (h ∷ hits) p =
    ground (arith, pop-snoc w now later hits, length-append hits (now ∷ []))

pub hits_of-set :
    (k key : String) (hits : List ℕ) (entries : List (String × List ℕ))
    → hits_of k (set_hits key hits entries) ≡ (if key == k then hits else hits_of k entries)
unfolding hits_of set_hits
hits_of-set k key hits [] = refl
hits_of-set k key hits (e ∷ entries) = elim (Bool-cases (e.0 == key)) [
  | inl same ↦ ground (arith, same, ==_same e.0 key k same)
  | inr other ↦ elim (Bool-cases (key == k)) [
    | inl here ↦
        ground (arith, other, here, ==_apart e.0 key k other here, hits_of-set k key hits entries)
    | inr there ↦ ground (arith, other, there, hits_of-set k key hits entries)
  ]
]

abbrev pub has : String → List (String × List ℕ) → Bool
has k [] = false
has k (e ∷ entries) = e.0 == k || has k entries

-- One entry to a key
abbrev pub distinct : List (String × List ℕ) → Bool
distinct [] = true
distinct (e ∷ entries) = not (has e.0 entries) && distinct entries

-- No hit is later than a clock.
abbrev pub all_past : ℕ → List (String × List ℕ) → Bool
all_past clock [] = true
all_past clock (e ∷ entries) = past clock e.1 && all_past clock entries

has-set :
    (k key : String) (hits : List ℕ) (entries : List (String × List ℕ))
    → has k (set_hits key hits entries) ≡ (key == k || has k entries)
unfolding set_hits
has-set k key hits [] = refl
has-set k key hits (e ∷ entries) = elim (Bool-cases (e.0 == key)) [
  | inl same ↦ ground (arith, same, ==_same e.0 key k same)
  | inr other ↦ ground (arith, other, has-set k key hits entries)
]

pub distinct-set :
    (key : String) (hits : List ℕ) (entries : List (String × List ℕ))
    → distinct entries ≡ true
    → distinct (set_hits key hits entries) ≡ true
unfolding set_hits
distinct-set key hits [] d = refl
distinct-set key hits (e ∷ entries) d = elim (Bool-cases (e.0 == key)) [
  | inl same ↦ ground (arith, same, ap (λ k. has k entries) (==_sound e.0 key same))
  | inr other ↦
      ground
        (arith, other, has-set e.0 key hits entries, ==_swap e.0 key, distinct-set key hits entries)
]

pub all_past-set :
    (clock : ℕ) (key : String) (hits : List ℕ) (entries : List (String × List ℕ))
    → past clock hits ≡ true
    → all_past clock entries ≡ true
    → all_past clock (set_hits key hits entries) ≡ true
unfolding set_hits
all_past-set clock key hits [] p a = ground arith
all_past-set clock key hits (e ∷ entries) p a = ground (arith, all_past-set clock key hits entries)

emptied : (hits : List ℕ) → is_empty hits ≡ true → [] ≡ hits
emptied [] e = refl
emptied (h ∷ hits) e = ground arith

hits_of-absent :
    (k : String) (entries : List (String × List ℕ)) → has k entries ≡ false → hits_of k entries ≡ []
unfolding hits_of
hits_of-absent k [] h = refl
hits_of-absent k (e ∷ entries) h = ground (arith, hits_of-absent k entries)

has-sweep :
    (w now : ℕ) (k : String) (entries : List (String × List ℕ))
    → has k entries ≡ false
    → has k (sweep w now entries) ≡ false
unfolding sweep
has-sweep w now k [] h = refl
has-sweep w now k (e ∷ entries) h = ground (arith, has-sweep w now k entries)

pop_none : (w now : ℕ) → pop_old w now [] ≡ []
unfolding pop_old
pop_none w now = refl

-- The sweep takes nothing from a client but what its next attempt would take.
pub hits_of-sweep :
    (w now : ℕ) (k : String) (entries : List (String × List ℕ))
    → distinct entries ≡ true
    → hits_of k (sweep w now entries) ≡ pop_old w now (hits_of k entries)
unfolding hits_of sweep
hits_of-sweep w now k [] d = sym (pop_none w now)
hits_of-sweep w now k (e ∷ entries) d = elim (Bool-cases (e.0 == k)) [
  | inl here ↦ ground (
    arith,
    here,
    ap (λ x. has x entries) (==_sound e.0 k here),
    emptied (pop_old w now e.1),
    hits_of-sweep w now k entries,
    ap (pop_old w now) (
        hits_of-absent k entries
          (ground (arith, d, ap (λ x. has x entries) (==_sound e.0 k here)))),
    pop_none w now,
  )
  | inr there ↦ ground (arith, there, hits_of-sweep w now k entries)
]

pub distinct-sweep :
    (w now : ℕ) (entries : List (String × List ℕ))
    → distinct entries ≡ true
    → distinct (sweep w now entries) ≡ true
unfolding sweep
distinct-sweep w now [] d = refl
distinct-sweep w now (e ∷ entries) d =
    ground (arith, has-sweep w now e.0 entries, distinct-sweep w now entries)

pub all_past-sweep :
    (w now clock : ℕ) (entries : List (String × List ℕ))
    → all_past clock entries ≡ true
    → all_past clock (sweep w now entries) ≡ true
unfolding sweep
all_past-sweep w now clock [] a = refl
all_past-sweep w now clock (e ∷ entries) a =
    ground (arith, pop_past w now clock e.1, all_past-sweep w now clock entries)
