-- ===== src/Datas/ProcNet.antt =====
-- internal/datas/providers_linux.go: the sockets of /proc/net, where `ss` is missing. The text of the
-- sixteen bytes of an IPv6 address is given; four bytes are written with dots between.
use limiz.Base.{
  ℕ, ◌+◌, ◌*◌, Text, List, [], ◌∷◌, ◌++◌, Bool, true, false, not, ◌&&◌, ◌||◌, none, some, Option,
  if◌then◌else◌, text_eq, codes, ◌==◌, length, take, drop, ℤ, pos,
}
use limiz.Strings.Affix.{cut}
use limiz.Strings.Fields.{fields}
use limiz.Strings.Lines.{scan_lines}
use limiz.Strconv.Decimal.{itoa}
use limiz.Strconv.Hex.{hex_digit}
use limiz.Datas.Ports.{PortInfo, clamp, is_zero, collect_ss}

read_hex : Text → ℕ → Option ℕ
unfolding hex_digit
read_hex [] n = some n
read_hex (c ∷ s) n = elim (hex_digit c) [ none ↦ none | some d ↦ read_hex s (n * 16 + d) ]

parse_hex : Text → Option ℕ
unfolding read_hex
parse_hex [] = none
parse_hex (c ∷ s) = read_hex (c ∷ s) 0

-- `strconv.ParseInt(s, 16, 32)`, of which only the value is used
unfoldable pub parse_int_16 : Text → ℤ
unfolding parse_hex clamp
parse_int_16 [] = pos 0
parse_int_16 (c ∷ s) =
    if c == b'-'
    then clamp 31 true (parse_hex s)
    else if c == b'+'
    then clamp 31 false (parse_hex s)
    else clamp 31 false (parse_hex (c ∷ s))

-- `strconv.ParseUint(s, 16, 8)` on two characters
byte_of : Text → ℕ
unfolding parse_hex
byte_of s = elim (parse_hex s) [ none ↦ 0 | some n ↦ n ]

-- the four bytes of eight characters, the last pair first
unfoldable pub word_bytes : Text → List ℕ
unfolding byte_of
word_bytes hex =
    byte_of (take 2 (drop 6 hex))
    ∷ byte_of (take 2 (drop 4 hex))
    ∷ byte_of (take 2 (drop 2 hex))
    ∷ byte_of (take 2 hex)
    ∷ []

dotted : List ℕ → Text
unfolding itoa
dotted [] = []
dotted (b ∷ []) = itoa b
dotted (b ∷ c ∷ bs) = itoa b ++ b'.' ∷ dotted (c ∷ bs)

module _ (ipv6_text : List ℕ → Text) where
  unfoldable pub hex_to_ip : Text → Text
  unfolding word_bytes dotted
  hex_to_ip hex =
      if length hex == 8
      then dotted (word_bytes hex)
      else if length hex == 32
      then ipv6_text (
          word_bytes hex
          ++ word_bytes (drop 8 hex)
          ++ word_bytes (drop 16 hex)
          ++ word_bytes (drop 24 hex))
      else hex

  is_tcp : Text → Bool
  unfolding text_eq
  is_tcp proto = text_eq proto (codes "tcp") || text_eq proto (codes "tcp6")

  -- the address and the port behind its colon
  socket_ports : Text → Text → List PortInfo
  unfolding cut parse_int_16 is_zero hex_to_ip
  socket_ports proto local = elim (cut b':' local) [
    | none ↦ []
    | some (addr, port_hex) ↦
        let port = parse_int_16 port_hex in
        if is_zero port
        then []
        else record {
          protocol = proto;
          address = hex_to_ip addr;
          port = port;
          pid = pos 0;
          process = [];
        }
          ∷ []
  ]

  -- a TCP socket counts only in the state 0A, which is LISTEN
  net_line : Text → List Text → List PortInfo
  unfolding is_tcp socket_ports text_eq
  net_line proto (a ∷ local ∷ c ∷ state ∷ rest) =
      if is_tcp proto && not (text_eq state (codes "0A")) then [] else socket_ports proto local
  net_line proto _ = []

  net_loop : Text → List Text → List PortInfo
  unfolding net_line fields
  net_loop proto [] = []
  net_loop proto (line ∷ lines) = net_line proto (fields line) ++ net_loop proto lines

  -- `content` is the file, none where it cannot be opened
  unfoldable pub parse_proc_net : Option Text → Text → List PortInfo
  unfolding net_loop scan_lines
  parse_proc_net none proto = []
  parse_proc_net (some content) proto = net_loop proto (drop 1 (scan_lines content))

  -- `Collect` of the ports: none is the panic. `has_ss` is whether `ss` is in the path, `out` its output
  -- for a protocol, and `file` the content of a file.
  unfoldable pub collect_ports :
      Bool → (Text → Option Text) → (Text → Option Text) → Option (List PortInfo)
  unfolding collect_ss parse_proc_net
  collect_ports true out file = collect_ss (out (codes "tcp")) (out (codes "udp"))
  collect_ports false out file = some (
      parse_proc_net (file (codes "/proc/net/tcp")) (codes "tcp")
      ++ parse_proc_net (file (codes "/proc/net/tcp6")) (codes "tcp6")
      ++ parse_proc_net (file (codes "/proc/net/udp")) (codes "udp")
      ++ parse_proc_net (file (codes "/proc/net/udp6")) (codes "udp6"))
