-- ===== src/Config/Examples.antt =====
-- The defaults are accepted.
use true_dns.Base.{◌≡◌, ◌↔◌, refl, false, none}
use true_dns.Text.{bytes_eq, has_prefix}
use true_dns.Net.{Net}
use true_dns.Config.Defs.{validate, default}
use true_dns.Config.Ranges.{IsSound, validate_iff}

abbrev net : Net
net = record {
  parse_ip = λ s. none;
  ip_string = λ ip. ip;
  split_host_port = λ s. none;
  join_host_port = λ h p. h;
  is_v4 = λ ip. false;
  ip_equal = bytes_eq;
  is_loopback = λ ip. false;
  is_unspecified = λ ip. false;
  to4 = λ ip. ip;
  to16 = λ ip. ip;
  parse_cidr = λ s. none;
}

validate_iff_example : (validate net default ≡ none) ↔ IsSound net default
validate_iff_example = validate_iff net default

default_accepted : validate net default ≡ none
unfolding validate bytes_eq has_prefix
default_accepted = refl

default-IsSound : IsSound net default
default-IsSound = validate_iff_example.0 default_accepted
