-- ===== src/Datas/Windows/NetPorts.antt =====
-- internal/datas/providers_windows.go: the ports.
use limiz.Base.{
  ◌&&◌, Text, String, List, [], ◌∷◌, ◌++◌, map, Bool, true, false, codes, if◌then◌else◌, ◌==◌,
  text_eq, ℤ, pos, negsuc,
}
use limiz.Datas.Json.{Json}
use limiz.Datas.Windows.{Powershell, set_text, set_int, ps_json}

-- a row of `tcpRaw` or `udpRaw`; the state of a TCP row is read and not used
pub record RawPort : Type 0 where
  pub local_address : Text
  pub local_port : ℤ
  pub owning_pid : ℤ
  pub state : ℤ

abbrev pub no_port : RawPort
no_port = record { local_address = []; local_port = pos 0; owning_pid = pos 0; state = pos 0 }

unfoldable pub set_port : Bool → Text → Json → RawPort → RawPort × Bool
set_port is_tcp key v r =
    if text_eq key (codes "localaddress")
    then (let (s, good) = set_text v r.local_address in (record r { local_address = s }, good))
    else if text_eq key (codes "localport")
    then (let (n, good) = set_int v r.local_port in (record r { local_port = n }, good))
    else if text_eq key (codes "owningprocess")
    then (let (n, good) = set_int v r.owning_pid in (record r { owning_pid = n }, good))
    else if is_tcp && text_eq key (codes "state")
    then (let (n, good) = set_int v r.state in (record r { state = n }, good))
    else (r, true)

pub record RawProc : Type 0 where
  pub id : ℤ
  pub process_name : Text

abbrev pub no_proc : RawProc
no_proc = record { id = pos 0; process_name = [] }

unfoldable pub set_proc : Text → Json → RawProc → RawProc × Bool
set_proc key v r =
    if text_eq key (codes "id")
    then (let (n, good) = set_int v r.id in (record r { id = n }, good))
    else if text_eq key (codes "processname")
    then (let (s, good) = set_text v r.process_name in (record r { process_name = s }, good))
    else (r, true)

unfoldable pub eq_int : ℤ → ℤ → Bool
eq_int (pos a) (pos b) = a == b
eq_int (negsuc a) (negsuc b) = a == b
eq_int _ _ = false

-- `procMap[pid]`: the last process of the number, or the empty name
unfoldable pub process_of : ℤ → List RawProc → Text → Text
process_of pid [] found = found
process_of pid (p ∷ procs) found =
    process_of pid procs (if eq_int p.id pid then p.process_name else found)

pub record WindowsPort : Type 0 where
  pub protocol : Text
  pub address : Text
  pub port : ℤ
  pub pid : ℤ
  pub process : Text
  pub state : Text

unfoldable pub port_of : String → String → List RawProc → RawPort → WindowsPort
port_of protocol state procs t = record {
  protocol = codes protocol;
  address = t.local_address;
  port = t.local_port;
  pid = t.owning_pid;
  process = process_of t.owning_pid procs [];
  state = codes state;
}

abbrev pub tcp_script : Text
tcp_script =
    codes
      "@(Get-NetTCPConnection -State Listen -ErrorAction SilentlyContinue) | Select-Object LocalAddress,LocalPort,OwningProcess,State | ConvertTo-Json -Compress"

abbrev pub udp_script : Text
udp_script =
    codes
      "@(Get-NetUDPEndpoint -ErrorAction SilentlyContinue) | Select-Object LocalAddress,LocalPort,OwningProcess | ConvertTo-Json -Compress"

abbrev pub proc_script : Text
proc_script = codes "@(Get-Process) | Select-Object Id,ProcessName | ConvertTo-Json -Compress"

-- the errors are dropped; what was read before one stays
unfoldable pub collect_windows_ports : Powershell → List WindowsPort
collect_windows_ports ps =
    let tcp_raw = (ps_json no_port (set_port true) ps tcp_script).0 in
    let udp_raw = (ps_json no_port (set_port false) ps udp_script).0 in
    let procs = (ps_json no_proc set_proc ps proc_script).0 in
    map (port_of "tcp" "LISTEN" procs) tcp_raw ++ map (port_of "udp" "" procs) udp_raw
