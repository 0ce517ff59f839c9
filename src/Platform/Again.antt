-- ===== src/Platform/Again.antt =====
-- A second takeover while the first one stands.
use true_dns.Base.{◌≡◌, inl, inr, Bool, true, false, none, some, [], ◌∷◌, ap, arith}
use true_dns.Base.Result.{ok}
use true_dns.Text.{Bytes, codes}
use true_dns.Platform.State.{TakeoverState, Json, IsReadAs, IsFaithful}
use true_dns.Platform.Linux.{
  LinuxHost, LinuxCalls, LinuxPayload, set_system_dns, restore_system_dns, uses_systemd_resolved,
  takeover_text,
}
use true_dns.Platform.Undo.{WillRestore, IsText, IsReady, restore_system_dns-set_system_dns}
use true_dns.Platform.Effects.{set_system_dns-IsTaken}
use true_dns.Platform.Discover.{nameservers}
use true_dns.Platform.Taken.{nameservers-takeover_text}

module _ (json : Json LinuxPayload) (c : LinuxCalls) (is_text : Bytes → Bool)
    (empty : is_text [] ≡ true) (faithful : IsFaithful json (IsText is_text))
    (will : WillRestore c) where
  -- A takeover of a system without systemd-resolved that is already taken over records the
  -- resolver's file of the first takeover: where the calls of the restoration succeed, a drop-in
  -- can be read, json reads what it wrote, and each file of the system after the first takeover is
  -- missing or has a content that is not empty and that json can express, the restoration from that
  -- record reports no error and leaves the system as the first takeover left it, with the proxy as
  -- its only server.
  pub restore_system_dns_again :
      (h g k : LinuxHost) (s r t : TakeoverState)
      → uses_systemd_resolved h ≡ false
      → IsReady is_text g
      → set_system_dns json c h ≡ (g, ok s)
      → set_system_dns json c g ≡ (k, ok r)
      → IsReadAs json r t
      → (restore_system_dns json c t k ≡ (g, none))
        × ((text : Bytes) × (g.resolv_conf ≡ some text)
            × (nameservers text ≡ codes "127.0.0.1" ∷ []))
  restore_system_dns_again h g k s r t plain ready first second alike =
      let back =
        restore_system_dns-set_system_dns json c is_text empty faithful will g k r t ready second
          alike in
      elim (set_system_dns-IsTaken json c h g s first).1 [
        | inl (u, after, state) ↦ absurd (ground arith)
        | inr (u, (prev, e, after, state)) ↦ (
          back,
          (takeover_text prev, ap (λ x. x.resolv_conf) after, nameservers-takeover_text prev),
        )
      ]
