-- ===== src/Tests/Ports.antt =====
-- The listening ports of internal/datas at concrete inputs.
use limiz.Base.{count_of, arith, ◌++◌, min, Text, List, [], ◌∷◌, none, some, codes, pos, ◌≡◌, refl}
use limiz.Datas.Ports.{PortInfo, parse_ss_users, collect_ss_proto, collect_ss}
use limiz.Datas.Ports.Dedupe.{first, collect_ss-keeps_first}
use limiz.Datas.Ports.Keys.{same_port}
use limiz.Datas.ProcNet.{hex_to_ip}

abbrev listing : Text
listing =
    codes
      "State Recv-Q Send-Q Local Peer Process\nLISTEN 0 128 0.0.0.0:22 0.0.0.0:* users:((\"sshd\",pid=7,fd=3),(\"sshd\",pid=8,fd=3))\nLISTEN 0 128 [::]:22 [::]:*\nLISTEN 0 128 0.0.0.0:22 0.0.0.0:*\n"

abbrev sshd : PortInfo
sshd = record {
  protocol = codes "tcp";
  address = codes "0.0.0.0";
  port = pos 22;
  pid = pos 7;
  process = codes "sshd";
}

abbrev bare : Text → PortInfo
bare addr = record {
  protocol = codes "tcp";
  address = addr;
  port = pos 22;
  pid = pos 0;
  process = [];
}

abbrev listed : List PortInfo
listed = sshd ∷ bare (codes "[::]") ∷ bare (codes "0.0.0.0") ∷ []

reads : collect_ss_proto (codes "tcp") (some listing) ≡ some listed
unfolding collect_ss_proto
reads = refl

keeps_first : collect_ss (some listing) none ≡ some (sshd ∷ bare (codes "[::]") ∷ [])
unfolding collect_ss
keeps_first = refl

-- the brackets in the wrong order
out_of_order : parse_ss_users (codes "users:))((") ≡ none
unfolding parse_ss_users
out_of_order = refl

collect_ss-keeps_first_example :
    (pis : List PortInfo) × (collect_ss (some listing) none ≡ some pis)
    × (count_of (same_port sshd) pis ≡ min 1 (count_of (same_port sshd) (listed ++ [])))
    × (first (same_port sshd) pis ≡ first (same_port sshd) (listed ++ []))
collect_ss-keeps_first_example =
    collect_ss-keeps_first (some listing) none listed [] sshd (omega arith) reads
      (unfold collect_ss_proto in refl)

loopback : hex_to_ip (λ bs. []) (codes "0100007F") ≡ codes "127.0.0.1"
unfolding hex_to_ip
loopback = refl
