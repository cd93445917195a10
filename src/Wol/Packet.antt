-- ===== src/Wol/Packet.antt =====
-- backend/app/features/wol/packet.py: hardware addresses, the magic packet and where to send it. A
-- text is the list of its code points, `bytes` a list of numbers below 256.
pub mod RoundTrip
use natimai_tiai.Prelude.{
  ℕ, zero, suc, ◌+◌, ◌-◌, ◌*◌, ◌/◌, ◌%◌, Bool, true, false, ◌&&◌, ◌||◌, not, Option, none, some,
  List, [], ◌∷◌, ◌++◌, leb, length, select, contains, ◌==◌, nat_eq, option_beq, if◌then◌else◌, any,
}

abbrev pub Text : Type 0
Text = List ℕ

-- `str.isspace` of one character
pub is_space : ℕ → Bool
is_space c =
    (leb 9 c && leb c 13)
    || (leb 28 c && leb c 32)
    || contains (0x85 ∷ 0xa0 ∷ 0x1680 ∷ 0x2028 ∷ 0x2029 ∷ 0x202f ∷ 0x205f ∷ 0x3000 ∷ []) c
    || (leb 0x2000 c && leb c 0x200a)

pub lstrip : Text → Text
unfolding is_space
lstrip [] = []
lstrip (c ∷ cs) = let rest = lstrip cs in if is_space c then rest else c ∷ cs

pub all_space : Text → Bool
unfolding is_space
all_space [] = true
all_space (c ∷ cs) = is_space c && all_space cs

pub rstrip : Text → Text
unfolding all_space
rstrip [] = []
rstrip (c ∷ cs) = let rest = rstrip cs in if all_space (c ∷ cs) then [] else c ∷ rest

-- `str.strip`
pub strip : Text → Text
unfolding lstrip rstrip
strip s = rstrip (lstrip s)

-- A hexadecimal digit's value
pub hex_value : ℕ → Option ℕ
hex_value c =
    if leb b'0' c && leb c b'9'
    then some (c - 48)
    else if leb b'a' c && leb c b'f'
    then some (c - 87)
    else if leb b'A' c && leb c b'F'
    then some (c - 55)
    else none

-- The blanks that `bytes.fromhex` skips before a byte
abbrev pub is_blank : ℕ → Bool
is_blank c = (leb 9 c && leb c 13) || c == 32

pub join_byte : Option ℕ → Option ℕ → Option (List ℕ) → Option (List ℕ)
join_byte none low rest = none
join_byte (some h) none rest = none
join_byte (some h) (some l) none = none
join_byte (some h) (some l) (some rest) = some ((h * 16 + l) ∷ rest)

-- `bytes.fromhex`: `none` for a ValueError. Behind a first digit the next character is the second.
mutual
  unfolding hex_value join_byte

  pub from_hex : Text → Option (List ℕ)
  from_hex [] = some []
  from_hex (c ∷ cs) =
      let skipped = from_hex cs in if is_blank c then skipped else from_digit cs (hex_value c)

  pub from_digit : Text → Option ℕ → Option (List ℕ)
  from_digit [] high = none
  from_digit (c ∷ cs) high = join_byte high (hex_value c) (from_hex cs)

-- `value.replace(sep, "")` for each of the separators ":-. "
pub without_separators : Text → Text
without_separators = select (λ c. not (contains (b':' ∷ b'-' ∷ b'.' ∷ b' ' ∷ []) c))

abbrev mac_length : ℕ
mac_length = 6

abbrev zero_address : List ℕ
zero_address = 0 ∷ 0 ∷ 0 ∷ 0 ∷ 0 ∷ 0 ∷ []

abbrev ones_address : List ℕ
ones_address = 255 ∷ 255 ∷ 255 ∷ 255 ∷ 255 ∷ 255 ∷ []

pub same_bytes : List ℕ → List ℕ → Bool
same_bytes [] [] = true
same_bytes [] (y ∷ ys) = false
same_bytes (x ∷ xs) [] = false
same_bytes (x ∷ xs) (y ∷ ys) = x == y && same_bytes xs ys

-- The two refusals of a parsed address.
pub usable : Option (List ℕ) → Option (List ℕ)
unfolding same_bytes
usable none = none
usable (some raw) =
    if same_bytes raw zero_address || same_bytes raw ones_address then none else some raw

-- `parse_mac`; an empty value is the empty text or none
unfoldable pub parse_mac : Option Text → Option (List ℕ)
unfolding strip without_separators from_hex from_digit usable
parse_mac none = none
parse_mac (some []) = none
parse_mac (some (c ∷ cs)) =
    let cleaned = without_separators (strip (c ∷ cs)) in
    if length cleaned == mac_length * 2 then usable (from_hex cleaned) else none

-- One hexadecimal digit of "%02X"
pub hex_digit : ℕ → ℕ
hex_digit n = if leb n 9 then 48 + n else 55 + n

-- `":".join(f"{b:02X}" for b in raw)`
unfoldable pub format_mac : List ℕ → Text
unfolding hex_digit
format_mac [] = []
format_mac (b ∷ []) = hex_digit (b / 16) ∷ hex_digit (b % 16) ∷ []
format_mac (b ∷ c ∷ bs) = hex_digit (b / 16) ∷ hex_digit (b % 16) ∷ b':' ∷ format_mac (c ∷ bs)

-- `normalize_mac`
unfoldable pub normalize_mac : Option Text → Option Text
unfolding parse_mac format_mac
normalize_mac value = elim (parse_mac value) [ none ↦ none | some raw ↦ some (format_mac raw) ]

pub repeat : ℕ → List ℕ → List ℕ
repeat zero raw = []
repeat (suc n) raw = raw ++ repeat n raw

-- `magic_packet`: `none` for its ValueError
pub magic_packet : Text → Option (List ℕ)
unfolding parse_mac repeat
magic_packet mac = elim (parse_mac (some mac)) [
  | none ↦ none
  | some raw ↦ some (ones_address ++ repeat 16 raw)
]
