-- ===== src/Dns.antt =====
-- The exported fields of the message types of github.com/miekg/dns that the program reads or
-- writes, and the constants of the DNS protocol that it names. The functions of that package are
-- parameters of the definitions that call them.
use true_dns.Base.{ℕ, Bool, List}
use true_dns.Text.{Bytes}

-- `net.IP`: the bytes of an address, 4 or 16 of them.
abbrev pub Ip : Type 0
Ip = Bytes

pub record Question : Type 0 where
  pub name : Bytes
  pub qtype : ℕ
  pub qclass : ℕ

-- an option of an OPT record: `EDNS0_SUBNET`, or any other
pub data EdnsOption : Type 0 where
  subnet : ℕ → ℕ → ℕ → Ip → EdnsOption
  other_option : ℕ → Bytes → EdnsOption

pub record Opt : Type 0 where
  pub udp_size : ℕ
  pub do_bit : Bool
  pub options : List EdnsOption

-- the type of a record, as the program's type switches see it
pub data RrData : Type 0 where
  a : Ip → RrData
  aaaa : Ip → RrData
  soa : ℕ → RrData
  opt : Opt → RrData
  other_data : Bytes → RrData

pub record Rr : Type 0 where
  pub rr_name : Bytes
  pub rrtype : ℕ
  pub class : ℕ
  pub ttl : ℕ
  pub rdata : RrData

pub record Msg : Type 0 where
  pub id : ℕ
  pub rcode : ℕ
  pub response : Bool
  pub truncated : Bool
  pub recursion_desired : Bool
  pub recursion_available : Bool
  pub checking_disabled : Bool
  pub question : List Question
  pub answer : List Rr
  pub ns : List Rr
  pub extra : List Rr

abbrev pub type_a : ℕ
type_a = 1

abbrev pub type_aaaa : ℕ
type_aaaa = 28

abbrev pub type_opt : ℕ
type_opt = 41

abbrev pub class_inet : ℕ
class_inet = 1

abbrev pub rcode_success : ℕ
rcode_success = 0

abbrev pub rcode_format_error : ℕ
rcode_format_error = 1

abbrev pub rcode_server_failure : ℕ
rcode_server_failure = 2
