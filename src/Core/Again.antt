-- ===== src/Core/Again.antt =====
-- A question that is asked again while its answer lives.
use true_dns.Base.{ℤ}
use true_dns.Dns.{Msg, Question}
use true_dns.Net.{Net}
use true_dns.Cache.{Cache, set_ttls, ceil_seconds}
use true_dns.Cache
use true_dns.Core.Library.{DnsLib}
use true_dns.Core.Outgoing.{finalize_edns}
use true_dns.Core.Engine.{Engine, stamp}

module _ (lib : DnsLib) (net : Net) where
  -- The response that the handler writes to `s` for the stored message `m`, with `life` left.
  abbrev pub served_again : Msg → Question → ℤ → Msg → Msg
  served_again s q life m = finalize_edns lib net s (stamp s q (set_ttls (ceil_seconds life) m))
