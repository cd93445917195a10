-- ===== src/Room/Numbered.antt =====
-- The names that backend/app/features/room/crud.py, `room_for_key`, tries for a room: a name, and the
-- name with a number behind it in brackets, which reads back.
use Prim.Native.Char.{code}
use Prim.Native.String.{◌++◌ as text_append}
use Prim.Native.String.append
use natimai_tiai.Prelude.{
  ℕ, zero, suc, ◌+◌, ◌*◌, ◌-◌, ◌/◌, ◌%◌, ◌<◌, ◌≡◌, ap, ◌∙◌, ◌&&◌, String, nat_eq, ◌==◌,
  if◌then◌else◌, ltb, leb, Bool-cases, inl, inr, arith,
}

digit : ℕ → String
digit d =
    if d == 0
    then "0"
    else if d == 1
    then "1"
    else if d == 2
    then "2"
    else if d == 3
    then "3"
    else if d == 4
    then "4"
    else if d == 5
    then "5"
    else if d == 6
    then "6"
    else if d == 7
    then "7"
    else if d == 8
    then "8"
    else "9"

-- The digits of a number before a text; so much fuel as the number and one more is enough.
digits : ℕ → ℕ → String → String
unfolding digit
digits zero n rest = rest
digits (suc fuel) n rest =
    let more = digits fuel (n / 10) (text_append (digit (n % 10)) rest) in
    if ltb n 10 then text_append (digit n) rest else more

-- `f"{name} ({n})"`
unfoldable pub numbered : String → ℕ → String
unfolding digits
numbered name n = text_append name (text_append " (" (digits (suc n) n ")"))

-- One character of the number that a text ends with: a bracket begins it.
step : ℕ → ℕ → ℕ
step acc c =
    if c == b'(' then 0 else if leb b'0' c && leb c b'9' then acc * 10 + (c - b'0') else acc

reading : ℕ → String → ℕ
unfolding step
reading acc String.[] = acc
reading acc (String.◌∷◌ c s) = reading (step acc (code c)) s

-- The number behind a name
pub number_of : String → ℕ
unfolding reading
number_of s = reading 0 s

reading-append :
    (acc : ℕ) (s t : String) → reading acc (text_append s t) ≡ reading (reading acc s) t
unfolding reading
reading-append acc String.[] t = ap (reading acc) (append.nil t)
reading-append acc (String.◌∷◌ c s) t =
    ap (reading acc) (append.cons c s t) ∙ reading-append (step acc (code c)) s t

reading-digit : (acc d : ℕ) → d < 10 → reading acc (digit d) ≡ acc * 10 + d
unfolding digit reading step
reading-digit acc zero h = omega arith
reading-digit acc (suc zero) h = omega arith
reading-digit acc (suc (suc zero)) h = omega arith
reading-digit acc (suc (suc (suc zero))) h = omega arith
reading-digit acc (suc (suc (suc (suc zero)))) h = omega arith
reading-digit acc (suc (suc (suc (suc (suc zero))))) h = omega arith
reading-digit acc (suc (suc (suc (suc (suc (suc zero)))))) h = omega arith
reading-digit acc (suc (suc (suc (suc (suc (suc (suc zero))))))) h = omega arith
reading-digit acc (suc (suc (suc (suc (suc (suc (suc (suc zero)))))))) h = omega arith
reading-digit acc (suc (suc (suc (suc (suc (suc (suc (suc (suc zero))))))))) h = omega arith
reading-digit acc (suc (suc (suc (suc (suc (suc (suc (suc (suc (suc d)))))))))) h =
    absurd (omega arith)

reading-digits :
    (fuel n : ℕ) (rest : String) → n < fuel → reading 0 (digits fuel n rest) ≡ reading n rest
unfolding digits
reading-digits zero n rest h = absurd (omega arith)
reading-digits (suc fuel) n rest h = elim (Bool-cases (ltb n 10)) [
  | inl small ↦ rw small (
      reading-append 0 (digit n) rest
      ∙ ap (λ k. reading k rest) (reading-digit 0 n (ground arith) ∙ omega arith))
  | inr large ↦ rw large (
      reading-digits fuel (n / 10) (text_append (digit (n % 10)) rest) (ground arith)
      ∙ reading-append (n / 10) (digit (n % 10)) rest
      ∙ ap (λ k. reading k rest) (reading-digit (n / 10) (n % 10) (omega arith) ∙ omega arith))
]

pub number_of-numbered : (name : String) (n : ℕ) → number_of (numbered name n) ≡ n
unfolding number_of numbered reading step
number_of-numbered name n =
    reading-append 0 name (text_append " (" (digits (suc n) n ")"))
    ∙ reading-append (reading 0 name) " (" (digits (suc n) n ")")
    ∙ reading-digits (suc n) n ")" (omega arith)
