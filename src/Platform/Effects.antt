-- ===== src/Platform/Effects.antt =====
-- On Linux, what a takeover does to the settings, whether it succeeds or fails.
use true_dns.Base.{
  ◌⊎◌, true, false, Option, some, [], ◌≡◌, refl, inl, inr, arith, Bool-cases, Option-cases, sym,
  subst,
}
use true_dns.Base.Result.{Result, ok, err}
use true_dns.Text.{Bytes}
use true_dns.Platform.State.{TakeoverState, Json, new_state}
use true_dns.Platform.Interface.{unread_file, not_root, PlatformError}
use true_dns.Platform.Linux.{
  LinuxHost, LinuxCalls, LinuxPayload, Write, done, not_opened, broke_off, set_system_dns,
  set_dropin, set_resolv_conf, uses_systemd_resolved, content_of, write_file, dropin_text,
  takeover_text, systemd_resolved, resolv_conf_manager, name_linux, replace_resolv_conf,
}

-- The calls of a takeover that change a file succeed, and so does the restart.
pub record WillTake (c : LinuxCalls) : Type 0 where
  pub dropin_written : c.dropin_written ≡ done
  pub restarted : c.restarted ≡ true
  pub resolv_written : c.resolv_written ≡ done

-- If a takeover fails, the settings are as they were.
abbrev Kept : LinuxHost → LinuxHost × Result PlatformError TakeoverState → Type 0
Kept h (g, ok s) = Unit
Kept h (g, err e) = g ≡ h

Kept-by_eq :
    (h : LinuxHost) (r : LinuxHost × Result PlatformError TakeoverState) (e : PlatformError)
    → r ≡ (h, err e)
    → Kept h r
Kept-by_eq h r e same = subst (Kept h) (sym same) refl

abbrev pub payload_dropin : LinuxCalls → LinuxHost → LinuxPayload
payload_dropin c h = record {
  manager = systemd_resolved;
  prev_dropin = content_of c.dropin_readable h.dropin;
  prev_resolv_conf = [];
}

abbrev pub payload_resolv_conf : Bytes → LinuxPayload
payload_resolv_conf prev = record {
  manager = resolv_conf_manager;
  prev_dropin = [];
  prev_resolv_conf = prev;
}

write_file-done :
    (w : Write) (text : Bytes) (file f : Option Bytes)
    → write_file w text file ≡ (true, f)
    → f ≡ some text
write_file-done done text file f h = ground arith
write_file-done not_opened text file f h = ground arith
write_file-done (broke_off part) text file f h = ground arith

module _ (json : Json LinuxPayload) (c : LinuxCalls) where
  set_dropin-Kept : WillTake c → (h : LinuxHost) → Kept h (set_dropin json c h)
  unfolding set_dropin
  set_dropin-Kept take h = elim (Bool-cases c.dir_made) [
    | inl b ↦ rw (take.dropin_written, take.restarted, b) tt
    | inr b ↦ rw (take.dropin_written, b) refl
  ]

  set_resolv_conf-Kept : WillTake c → (h : LinuxHost) → Kept h (set_resolv_conf json c h)
  unfolding set_resolv_conf
  set_resolv_conf-Kept take h = elim (Option-cases h.resolv_conf) [
    | inl e ↦ Kept-by_eq h _ unread_file (ground arith)
    | inr (prev, e) ↦ elim (Bool-cases c.resolv_readable) [
      | inl b ↦
          let replaced : set_resolv_conf json c h ≡ replace_resolv_conf json c h prev =
            ground arith in
          rw (replaced, take.resolv_written) tt
      | inr b ↦ Kept-by_eq h _ unread_file (ground arith)
    ]
  ]

  set_system_dns-Kept : WillTake c → (h : LinuxHost) → Kept h (set_system_dns json c h)
  unfolding set_system_dns
  set_system_dns-Kept take h = elim (Bool-cases h.root) [
    | inr b ↦ Kept-by_eq h _ not_root (ground arith)
    | inl b ↦ elim (Bool-cases (uses_systemd_resolved h)) [
      | inl u ↦
          let way : set_system_dns json c h ≡ set_dropin json c h = ground arith in
          subst (Kept h) (sym way) (set_dropin-Kept take h)
      | inr u ↦
          let way : set_system_dns json c h ≡ set_resolv_conf json c h = ground arith in
          subst (Kept h) (sym way) (set_resolv_conf-Kept take h)
    ]
  ]

  pub set_system_dns_kept :
      WillTake c
      → (h g : LinuxHost) (e : PlatformError) → set_system_dns json c h ≡ (g, err e)
      → g ≡ h
  set_system_dns_kept take h g e ran = subst (Kept h) ran (set_system_dns-Kept take h)

  set_dropin_done :
      (h g : LinuxHost) (s : TakeoverState)
      → set_dropin json c h ≡ (g, ok s)
      → (g ≡ record h { dropin = some dropin_text })
        × (s ≡ new_state json name_linux c.now (payload_dropin c h))
  unfolding set_dropin
  set_dropin_done h g s run =
      elim (Bool-cases (write_file c.dropin_written dropin_text h.dropin).0) [
        | inl w ↦
            let f : (write_file c.dropin_written dropin_text h.dropin).1 ≡ some dropin_text =
              write_file-done c.dropin_written dropin_text h.dropin _ (ground arith) in
            elim (Bool-cases c.dir_made) [
              | inl b ↦ elim (Bool-cases c.restarted) [
                | inl r ↦ (ground arith, ground arith)
                | inr r ↦ ground arith
              ]
              | inr b ↦ ground arith
            ]
        | inr w ↦ elim (Bool-cases c.dir_made) [ inl b ↦ ground arith | inr b ↦ ground arith ]
      ]

  set_resolv_conf_done :
      (h g : LinuxHost) (s : TakeoverState)
      → set_resolv_conf json c h ≡ (g, ok s)
      → (prev : Bytes) × (h.resolv_conf ≡ some prev)
        × (g ≡ record h { resolv_conf = some (takeover_text prev) })
        × (s ≡ new_state json name_linux c.now (payload_resolv_conf prev))
  unfolding set_resolv_conf
  set_resolv_conf_done h g s run = elim (Option-cases h.resolv_conf) [
    | inl e ↦ ground arith
    | inr (prev, e) ↦
        elim (Bool-cases (write_file c.resolv_written (takeover_text prev) h.resolv_conf).0) [
          | inl w ↦
              let f : (write_file c.resolv_written (takeover_text prev) h.resolv_conf).1
                  ≡ some (takeover_text prev) =
                write_file-done c.resolv_written (takeover_text prev) h.resolv_conf _
                  (ground arith) in
              elim (Bool-cases c.resolv_readable) [
                | inl r ↦ (prev, e, ground arith, ground arith)
                | inr r ↦ ground arith
              ]
          | inr w ↦ elim (Bool-cases c.resolv_readable) [
            | inl r ↦ ground arith
            | inr r ↦ ground arith
          ]
        ]
  ]

  -- The two ways of a takeover that succeeds.
  abbrev pub IsTaken : LinuxHost → LinuxHost → TakeoverState → Type 0
  IsTaken h g s =
      ((uses_systemd_resolved h ≡ true)
        × (g ≡ record h { dropin = some dropin_text })
        × (s ≡ new_state json name_linux c.now (payload_dropin c h)))
      ⊎ ((uses_systemd_resolved h ≡ false)
          × ((prev : Bytes) × (h.resolv_conf ≡ some prev)
              × (g ≡ record h { resolv_conf = some (takeover_text prev) })
              × (s ≡ new_state json name_linux c.now (payload_resolv_conf prev))))

  pub set_system_dns-IsTaken :
      (h g : LinuxHost) (s : TakeoverState)
      → set_system_dns json c h ≡ (g, ok s)
      → (h.root ≡ true) × IsTaken h g s
  unfolding set_system_dns
  set_system_dns-IsTaken h g s run = elim (Bool-cases h.root) [
    | inr b ↦ ground arith
    | inl b ↦ elim (Bool-cases (uses_systemd_resolved h)) [
      | inl u ↦ let (x, y) = set_dropin_done h g s (ground arith) in (b, inl (u, x, y))
      | inr u ↦ (b, inr (u, set_resolv_conf_done h g s (ground arith)))
    ]
  ]
