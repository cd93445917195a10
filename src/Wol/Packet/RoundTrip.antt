-- ===== src/Wol/Packet/RoundTrip.antt =====
-- Addresses in canonical form are read back, and packets have the frame that an adapter watches for.
use natimai_tiai.Prelude.{
  ℕ, ◌+◌, ◌<◌, ◌≤◌, ◌≡◌, refl, false, none, some, List, [], ◌∷◌, arith, length, if◌then◌else◌, ◌*◌,
  ◌/◌, ◌%◌, ◌==◌, nat_eq, All, contains, ap, ◌∙◌, ◌⊎◌,
}
use natimai_tiai.Wol.Packet.{
  Text, parse_mac, format_mac, hex_digit, hex_value, from_hex, from_digit, usable, strip, lstrip,
  rstrip, without_separators, is_space, is_blank,
}

-- Every byte is one.
abbrev pub AreBytes : List ℕ → Type 0
AreBytes = All (λ b. b < 256)

-- The digits with no separator.
pub hexes : List ℕ → Text
hexes [] = []
hexes (b ∷ bs) = hex_digit (b / 16) ∷ hex_digit (b % 16) ∷ hexes bs

-- Where a digit stands in the table of characters.
hex_digit_range :
    (n : ℕ)
    → n < 16
    → ((48 ≤ hex_digit n) × (hex_digit n ≤ 57)) ⊎ ((65 ≤ hex_digit n) × (hex_digit n ≤ 70))
unfolding hex_digit
hex_digit_range n h = ground arith

hex_value-hex_digit : (n : ℕ) → n < 16 → hex_value (hex_digit n) ≡ some n
unfolding hex_value hex_digit
hex_value-hex_digit n h = ground arith

visible-hex_digit : (n : ℕ) → n < 16 → is_space (hex_digit n) ≡ false
unfolding is_space
visible-hex_digit n h = ground (arith, hex_digit_range n h)

plain-hex_digit : (n : ℕ) → n < 16 → contains (b':' ∷ b'-' ∷ b'.' ∷ b' ' ∷ []) (hex_digit n) ≡ false
plain-hex_digit n h = ground (arith, hex_digit_range n h)

tight-hex_digit : (n : ℕ) → n < 16 → is_blank (hex_digit n) ≡ false
tight-hex_digit n h = ground (arith, hex_digit_range n h)

nibbles : (b : ℕ) → b < 256 → (b / 16 < 16) × (b % 16 < 16) × (b / 16 * 16 + b % 16 ≡ b)
nibbles b h = omega arith

length-hexes : (bs : List ℕ) → length (hexes bs) ≡ length bs * 2
unfolding hexes
length-hexes [] = refl
length-hexes (b ∷ bs) = omega (arith, length-hexes bs)

from_hex-hexes : (bs : List ℕ) → AreBytes bs → from_hex (hexes bs) ≡ some bs
unfolding hexes from_hex from_digit
from_hex-hexes [] h = refl
from_hex-hexes (b ∷ bs) (small, rest) =
    let (hi, lo, whole) = nibbles b small in
    rw (tight-hex_digit (b / 16) hi) (
      rw (hex_value-hex_digit (b / 16) hi)
        (rw (hex_value-hex_digit (b % 16) lo) (rw (from_hex-hexes bs rest) (rw whole))))

-- The separators of the canonical form go, and its digits stay.
without_separators-format :
    (bs : List ℕ) → AreBytes bs → without_separators (format_mac bs) ≡ hexes bs
unfolding hexes format_mac without_separators
without_separators-format [] h = refl
without_separators-format (b ∷ []) (small, rest) =
    let (hi, lo, whole) = nibbles b small in
    rw (plain-hex_digit (b / 16) hi) (rw (plain-hex_digit (b % 16) lo))
without_separators-format (b ∷ c ∷ bs) (small, rest) =
    let (hi, lo, whole) = nibbles b small in
    rw (plain-hex_digit (b / 16) hi)
      (rw (plain-hex_digit (b % 16) lo) (rw (without_separators-format (c ∷ bs) rest)))

-- Neither end of a text of visible characters is stripped.
AreVisible : Text → Type 0
AreVisible = All (λ c. is_space c ≡ false)

rstrip-visible : (s : Text) → AreVisible s → rstrip s ≡ s
unfolding rstrip AreVisible
rstrip-visible [] h = refl
rstrip-visible (c ∷ cs) (v, h) = rw v (rw (rstrip-visible cs h))

strip-visible : (s : Text) → AreVisible s → strip s ≡ s
unfolding strip lstrip AreVisible
strip-visible [] h = refl
strip-visible (c ∷ cs) (v, h) = rw v (unfold AreVisible in rstrip-visible (c ∷ cs) (v, h))

visible-colon : is_space b':' ≡ false
unfolding is_space
visible-colon = refl

format_mac-AreVisible : (bs : List ℕ) → AreBytes bs → AreVisible (format_mac bs)
unfolding format_mac AreVisible
format_mac-AreVisible [] h = tt
format_mac-AreVisible (b ∷ []) (small, rest) =
    let (hi, lo, whole) = nibbles b small in
    (visible-hex_digit (b / 16) hi, (visible-hex_digit (b % 16) lo, tt))
format_mac-AreVisible (b ∷ c ∷ bs) (small, rest) =
    let (hi, lo, whole) = nibbles b small in
    (
      visible-hex_digit (b / 16) hi,
      (visible-hex_digit (b % 16) lo, (visible-colon, format_mac-AreVisible (c ∷ bs) rest)),
    )

cleaned-format : (bs : List ℕ) → AreBytes bs → without_separators (strip (format_mac bs)) ≡ hexes bs
cleaned-format bs h =
    ap without_separators (strip-visible (format_mac bs) (format_mac-AreVisible bs h))
    ∙ without_separators-format bs h

parse_cleaned :
    (s : Text)
    → 0 < length s
    → parse_mac (some s) ≡ (
        if length (without_separators (strip s)) == 12
        then usable (from_hex (without_separators (strip s)))
        else none)
unfolding parse_mac
parse_cleaned [] h = elim h [ ]
parse_cleaned (c ∷ cs) h = refl

length-format : (bs : List ℕ) → 0 < length bs → 0 < length (format_mac bs)
unfolding format_mac
length-format [] h = elim h [ ]
length-format (b ∷ []) h = omega arith
length-format (b ∷ c ∷ bs) h = omega arith

-- An address in canonical form is read back as its six bytes, whichever they are, but for the two
-- addresses that are refused.
pub parse-format :
    (bs : List ℕ)
    → length bs ≡ 6
    → AreBytes bs
    → parse_mac (some (format_mac bs)) ≡ usable (some bs)
parse-format bs six h =
    parse_cleaned (format_mac bs) (length-format bs (omega arith))
    ∙ ap (λ s. if length s == 12 then usable (from_hex s) else none) (cleaned-format bs h)
    ∙ rw (length-hexes bs) (rw six (rw (from_hex-hexes bs h)))
