-- ===== src/Datas/Ports.antt =====
-- internal/datas/providers_linux.go: the listening ports, from the output of `ss` or from /proc/net.
pub mod Dedupe
pub mod Keys
pub mod Protocols
pub mod Hosts
use limiz.Base.{
  ℕ, zero, suc, ◌+◌, ◌-◌, ◌*◌, ◌^◌, Text, Map, List, [], ◌∷◌, ◌++◌, Bool, true, false, not, ◌&&◌,
  ◌||◌, none, some, Option, if◌then◌else◌, text_eq, codes, ltb, leb, ◌==◌, length, take, drop,
  get_elem?, lookup, insert, ℤ, pos, negsuc, neg,
}
use limiz.Strings.Affix.{has_prefix, trim_prefix, cut, cut_last}
use limiz.Strings.Split.{split}
use limiz.Strings.Trim.{trim_space, trim}
use limiz.Strings.Fields.{fields}
use limiz.Strings.Lines.{scan_lines}
use limiz.Strconv.Decimal.{is_digit, parse_nat, itoa}

pub record PortInfo : Type 0 where
  pub protocol : Text
  pub address : Text
  pub port : ℤ
  pub pid : ℤ
  pub process : Text

-- the value of a number of magnitude `n` within the bounds, which is the nearest bound out of range
unfoldable pub clamp : ℕ → Bool → Option ℕ → ℤ
clamp bits minus none = pos 0
clamp bits false (some n) = if ltb n (2 ^ bits) then pos n else pos (2 ^ bits - 1)
clamp bits true (some n) = if leb n (2 ^ bits) then neg n else neg (2 ^ bits)

-- `strconv.Atoi`, of which only the value is used: 0 for what is no number
unfoldable pub atoi : Text → ℤ
unfolding clamp parse_nat
atoi [] = pos 0
atoi (c ∷ s) =
    if c == b'-'
    then clamp 63 true (parse_nat s)
    else if c == b'+'
    then clamp 63 false (parse_nat s)
    else clamp 63 false (parse_nat (c ∷ s))

-- `s[:i]` and `s[i+len(sep):]` for the first and for the last place of a separator
unfoldable pub cut_text : Text → Text → Option (Text × Text)
unfolding has_prefix
cut_text sep [] = none
cut_text sep (c ∷ s) =
    let rest = cut_text sep s in
    if has_prefix sep (c ∷ s)
    then some ([], drop (length sep) (c ∷ s))
    else elim rest [ none ↦ none | some (a, b) ↦ some (c ∷ a, b) ]

cut_text_last : Text → Text → Option (Text × Text)
unfolding has_prefix
cut_text_last sep [] = none
cut_text_last sep (c ∷ s) = elim (cut_text_last sep s) [
  | some (a, b) ↦ some (c ∷ a, b)
  | none ↦ if has_prefix sep (c ∷ s) then some ([], drop (length sep) (c ∷ s)) else none
]

-- an address in brackets, and one without
bracketed : Text → Text × Text
unfolding cut_text_last
bracketed s = elim (cut_text_last (codes "]:") s) [
  | none ↦ (s, [])
  | some (a, b) ↦ (a ++ b']' ∷ [], b)
]

plain : Text → Text × Text
unfolding cut_last
plain s = elim (cut_last b':' s) [ none ↦ (s, []) | some (a, b) ↦ (a, b) ]

unfoldable pub split_host_port : Text → Text × Text
unfolding bracketed plain has_prefix
split_host_port s = if has_prefix (codes "[") s then bracketed s else plain s

-- one round of the loop over the parts of a group
user_part : Text × ℤ → Text → Text × ℤ
unfolding has_prefix trim_prefix trim_space trim atoi text_eq
user_part (name, pid) part =
    let p = trim_space part in
    if has_prefix (codes "pid=") p
    then (name, atoi (trim_prefix (codes "pid=") p))
    else if has_prefix (codes "fd=") p
    then (name, pid)
    else if text_eq name []
    then (trim b'"' p, pid)
    else (name, pid)

user_loop : Text × ℤ → List Text → Text × ℤ
unfolding user_part
user_loop acc [] = acc
user_loop acc (p ∷ ps) = user_loop (user_part acc p) ps

first_group : Text → Text
unfolding cut_text
first_group inner = elim (cut_text (codes "),(") inner) [ none ↦ inner | some (a, b) ↦ a ]

-- `field[start+2:end]`; none is the panic on bounds that are out of order
slice : ℕ → ℕ → Text → Option Text
slice start end s = if leb start end then some (take (end - start) (drop start s)) else none

unfoldable pub parse_ss_users : Text → Option (Text × ℤ)
unfolding user_loop first_group slice cut_text cut_text_last split
parse_ss_users s = elim (cut_text (codes "((") s) [
  | none ↦ some ([], pos 0)
  | some (a, b) ↦ elim (cut_text_last (codes "))") s) [
    | none ↦ some ([], pos 0)
    | some (a', b') ↦ elim (slice (length a + 2) (length a') s) [
      | none ↦ none
      | some inner ↦ some (user_loop ([], pos 0) (split b',' (first_group inner)))
    ]
  ]
]

-- the first field of the users, from the fifth field on
pub with_users : PortInfo → List Text → Option PortInfo
unfolding has_prefix parse_ss_users
with_users pi [] = some pi
with_users pi (f ∷ fs) =
    let rest = with_users pi fs in
    if has_prefix (codes "users:") f
    then elim (parse_ss_users f) [
      | none ↦ none
      | some (process, pid) ↦ some (record pi { process = process; pid = pid })
    ]
    else rest

unfoldable pub is_zero : ℤ → Bool
is_zero (pos n) = n == 0
is_zero (negsuc n) = false

-- a line with its fields: none is the panic, and a line that is passed over gives no port
pub line_ports : Text → List Text → Option (List PortInfo)
unfolding with_users split_host_port is_zero
line_ports proto (a ∷ b ∷ c ∷ local ∷ e ∷ rest) =
    let (addr, port_text) = split_host_port local in
    let port = atoi port_text in
    if is_zero port
    then some []
    else elim (with_users
        (record { protocol = proto; address = addr; port = port; pid = pos 0; process = [] })
        (e ∷ rest)) [ none ↦ none | some pi ↦ some (pi ∷ []) ]
line_ports proto _ = some []

pub ss_loop : Text → List Text → Option (List PortInfo)
unfolding line_ports fields
ss_loop proto [] = some []
ss_loop proto (line ∷ lines) = elim (line_ports proto (fields line)) [
  | none ↦ none
  | some pis ↦ elim (ss_loop proto lines) [ none ↦ none | some rest ↦ some (pis ++ rest) ]
]

-- `out` is the output of `ss`, none where it failed
unfoldable pub collect_ss_proto : Text → Option Text → Option (List PortInfo)
unfolding ss_loop split
collect_ss_proto proto none = some []
collect_ss_proto proto (some out) = ss_loop proto (drop 1 (split b'\n' out))

pub print_ℤ : ℤ → Text
unfolding itoa
print_ℤ (pos n) = itoa n
print_ℤ (negsuc n) = b'-' ∷ itoa (suc n)

-- what makes two ports the same
unfoldable pub port_key : PortInfo → Text
unfolding print_ℤ
port_key pi = pi.protocol ++ b':' ∷ pi.address ++ b':' ∷ print_ℤ pi.port

-- `seen[key]`
unfoldable pub is_known : Text → Map Bool → Bool
unfolding lookup
is_known k seen = elim (lookup k seen) [ none ↦ false | some b ↦ b ]

unfoldable pub dedupe : Map Bool → List PortInfo → List PortInfo
unfolding port_key is_known insert
dedupe seen [] = []
dedupe seen (pi ∷ pis) =
    let skipped = dedupe seen pis in
    let kept = dedupe (insert (port_key pi) true seen) pis in
    if is_known (port_key pi) seen then skipped else pi ∷ kept

unfoldable pub collect_ss : Option Text → Option Text → Option (List PortInfo)
unfolding collect_ss_proto dedupe
collect_ss tcp udp = elim (collect_ss_proto (codes "tcp") tcp) [
  | none ↦ none
  | some ts ↦ elim (collect_ss_proto (codes "udp") udp) [
    | none ↦ none
    | some us ↦ some (dedupe [] (ts ++ us))
  ]
]
