-- ===== src/Wol/Address.antt =====
-- The subnet of a machine, `_network` of backend/app/features/wol/relay.py: the part of Python's
-- `ipaddress.ip_interface` that yields an IPv4 interface. An IPv6 interface, like a ValueError, is
-- `none` to `_network`.
use natimai_tiai.Prelude.{
  ℕ, ◌+◌, ◌-◌, ◌*◌, ◌/◌, ◌^◌, Bool, false, ◌&&◌, not, Option, none, some, String, List, [], ◌∷◌,
  leb, length, all, map, ◌==◌, nat_eq, if◌then◌else◌,
}
use Prim.Native.Char.{code}
use natimai_tiai.Wol.Packet.{Text}

-- The code points of a text.
unfoldable pub to_text : String → Text
to_text String.[] = []
to_text (String.◌∷◌ c s) = code c ∷ to_text s

abbrev is_digit : ℕ → Bool
is_digit c = leb b'0' c && leb c b'9'

-- `str.split(".")`: the first piece and the others
pub split_dots : Text → Text × List Text
split_dots [] = ([], [])
split_dots (c ∷ cs) =
    let (piece, pieces) = split_dots cs in
    if c == b'.' then ([], piece ∷ pieces) else (c ∷ piece, pieces)

pub decimal : ℕ → Text → ℕ
decimal n [] = n
decimal n (c ∷ cs) = decimal (n * 10 + (c - 48)) cs

abbrev has_leading_zero : Text → Bool
has_leading_zero (c ∷ d ∷ cs) = c == b'0'
has_leading_zero _ = false

-- `IPv4Address._parse_octet`
pub parse_octet : Text → Option ℕ
unfolding decimal
parse_octet [] = none
parse_octet (c ∷ cs) =
    if all is_digit (c ∷ cs)
      && leb (length (c ∷ cs)) 3
      && not (has_leading_zero (c ∷ cs))
      && leb (decimal 0 (c ∷ cs)) 255
    then some (decimal 0 (c ∷ cs))
    else none

-- Four octets, the first the most significant.
pub join_octets : List (Option ℕ) → Option ℕ
join_octets (some a ∷ some b ∷ some c ∷ some d ∷ []) = some (((a * 256 + b) * 256 + c) * 256 + d)
join_octets _ = none

-- The number of an IPv4 address, none where the text is no such address.
unfoldable pub parse_ipv4 : Text → Option ℕ
unfolding split_dots parse_octet join_octets
parse_ipv4 s =
    let (piece, pieces) = split_dots s in join_octets (parse_octet piece ∷ map parse_octet pieces)

pub record Network : Type 0 where
  pub network_address : ℕ
  pub prefix_length : ℕ

-- The network of the interface `address/prefix_length`: the host bits are cleared.
unfoldable pub network_of : Option ℕ → ℕ → Option Network
network_of none prefix_length = none
network_of (some address) prefix_length =
    if leb prefix_length 32
    then some record {
      network_address = address / 2 ^ (32 - prefix_length) * 2 ^ (32 - prefix_length);
      prefix_length = prefix_length;
    }
    else none

abbrev pub same_network : Option Network → Option Network → Bool
same_network (some a) (some b) =
    a.network_address == b.network_address && a.prefix_length == b.prefix_length
same_network _ _ = false
