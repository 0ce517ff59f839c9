-- ===== src/Net.antt =====
-- What the program uses of Go's `net` package for addresses, as a parameter: the functions, and
-- the documented facts that proofs rely on.
use true_dns.Base.{ℕ, Bool, Option, some, none, [], ◌≡◌}
use true_dns.Text.{Bytes, codes, trim_space}
use true_dns.Dns.{Ip}

pub record Net : Type 0 where
  -- `net.ParseIP`; `none` stands for nil
  pub parse_ip : Bytes → Option Ip
  -- `IP.String`
  pub ip_string : Ip → Bytes
  -- `net.SplitHostPort`; `none` stands for an error
  pub split_host_port : Bytes → Option (Bytes × Bytes)
  -- `net.JoinHostPort`
  pub join_host_port : Bytes → Bytes → Bytes
  -- `IP.To4() != nil`
  pub is_v4 : Ip → Bool
  -- `IP.Equal`
  pub ip_equal : Ip → Ip → Bool
  -- `IP.IsLoopback`
  pub is_loopback : Ip → Bool
  -- `IP.IsUnspecified`
  pub is_unspecified : Ip → Bool
  -- `IP.To4`, where it is not nil, and `IP.To16`
  pub to4 : Ip → Ip
  pub to16 : Ip → Ip
  -- `net.ParseCIDR`: the address and the number of ones of the mask; `none` stands for an error
  pub parse_cidr : Bytes → Option (Ip × ℕ)

abbrev pub port_53 : Bytes
port_53 = codes "53"

-- Joining an address literal and the port 53 gives a text with no space around it, which splits
-- into these again. The empty text has no port.
pub record IsLawful (net : Net) : Type 0 where
  pub split_empty : net.split_host_port [] ≡ none
  pub split_join_parsed :
      (host : Bytes) (ip : Ip)
      → net.parse_ip host ≡ some ip
      → trim_space host ≡ host
      → net.split_host_port (net.join_host_port host port_53) ≡ some (host, port_53)
  pub split_join_string :
      (ip : Ip)
      → net.split_host_port (net.join_host_port (net.ip_string ip) port_53)
        ≡ some (net.ip_string ip, port_53)
  pub trim_join_parsed :
      (host : Bytes) (ip : Ip)
      → net.parse_ip host ≡ some ip
      → trim_space host ≡ host
      → trim_space (net.join_host_port host port_53) ≡ net.join_host_port host port_53
  pub trim_join_string :
      (ip : Ip)
      → trim_space (net.join_host_port (net.ip_string ip) port_53)
        ≡ net.join_host_port (net.ip_string ip) port_53
