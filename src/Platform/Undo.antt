-- ===== src/Platform/Undo.antt =====
-- On Linux, restoring undoes a takeover.
use true_dns.Base.{
  ℕ, Bool, true, Option, none, some, [], ◌∷◌, ◌≡◌, ◌≢◌, refl, inl, inr, arith, Option-cases, ap,
  sym, ◌∙◌,
}
use true_dns.Base.Result.{ok}
use true_dns.Text.{Bytes, bytes_eq}
use true_dns.Platform.State.{TakeoverState, Json, IsReadAs, IsFaithful}
use true_dns.Platform.Interface.{IsUndoing}
use true_dns.Platform.Linux.{
  LinuxHost, LinuxCalls, LinuxPayload, done, linux, set_system_dns, restore_system_dns,
  restore_payload, restore_dropin, restore_resolv_conf, content_of, dropin_text, takeover_text,
  put_dropin_back, name_linux,
}
use true_dns.Platform.Effects.{
  WillTake, payload_dropin, payload_resolv_conf, set_system_dns-IsTaken, set_system_dns_kept,
}

-- The calls of a restoration succeed, and a drop-in that exists can be read.
pub record WillRestore (c : LinuxCalls) : Type 0 where
  pub readable : c.dropin_readable ≡ true
  pub restored : c.dropin_restored ≡ done
  pub removed : c.dropin_removed ≡ true
  pub restarted : c.restarted_again ≡ true
  pub resolv_restored : c.resolv_restored ≡ done

module _ (json : Json LinuxPayload) (c : LinuxCalls) where
  restored :
      (g : LinuxHost) (t : TakeoverState) (p : LinuxPayload)
      → g.root ≡ true
      → json.read_payload t.payload ≡ some p
      → restore_system_dns json c t g ≡ restore_payload json c p g
  unfolding restore_system_dns
  restored g t p root read = ground arith

  put_dropin_back_done :
      (h : LinuxHost) (file : Option Bytes)
      → WillRestore c
      → h.dropin ≢ some []
      → put_dropin_back json c (content_of c.dropin_readable h.dropin) file ≡ (true, h.dropin)
  put_dropin_back_done h file will full = elim (Option-cases h.dropin) [
    | inl e ↦ rw (e, will.removed) refl
    | inr ([], e) ↦ absurd (full e)
    | inr (b ∷ prev, e) ↦ rw (e, will.readable, will.restored) refl
  ]

  restore_dropin_back :
      (h : LinuxHost)
      → WillRestore c
      → h.dropin ≢ some []
      → restore_payload json c (payload_dropin c h) (record h { dropin = some dropin_text })
        ≡ (h, none)
  unfolding restore_payload restore_dropin bytes_eq
  restore_dropin_back h will full =
      rw (put_dropin_back_done h (some dropin_text) will full, will.restarted) refl

  restore_resolv_conf_back :
      (h : LinuxHost) (b : ℕ) (prev : Bytes)
      → WillRestore c
      → h.resolv_conf ≡ some (b ∷ prev)
      → restore_payload json c
          (payload_resolv_conf (b ∷ prev))
          (record h { resolv_conf = some (takeover_text (b ∷ prev)) })
        ≡ (h, none)
  unfolding restore_payload restore_resolv_conf bytes_eq
  restore_resolv_conf_back h b prev will e =
      rw will.resolv_restored (ap (λ f. (record h { resolv_conf = f }, none)) (sym e))

-- The texts that the payload keeps are ones that json can express.
abbrev pub IsText : (Bytes → Bool) → LinuxPayload → Type 0
IsText is_text p = (is_text p.prev_dropin ≡ true) × (is_text p.prev_resolv_conf ≡ true)

-- The file that a takeover replaces is not there or has a content, and one that json can express.
abbrev pub IsReady : (Bytes → Bool) → LinuxHost → Type 0
IsReady is_text h =
    (h.dropin ≢ some [])
    × (h.resolv_conf ≢ some [])
    × ((s : Bytes) → h.dropin ≡ some s → is_text s ≡ true)
    × ((s : Bytes) → h.resolv_conf ≡ some s → is_text s ≡ true)

module _ (json : Json LinuxPayload) (c : LinuxCalls) (is_text : Bytes → Bool)
    (empty : is_text [] ≡ true) (faithful : IsFaithful json (IsText is_text))
    (will : WillRestore c) where
  content-IsText :
      (h : LinuxHost) → IsReady is_text h → is_text (content_of c.dropin_readable h.dropin) ≡ true
  content-IsText h (x, y, text, z) = elim (Option-cases h.dropin) [
    | inl e ↦ rw e empty
    | inr (s, e) ↦ rw (e, will.readable) (text s e)
  ]

  linux_recorded :
      (h g : LinuxHost) (s : TakeoverState)
      → IsReady is_text h
      → set_system_dns json c h ≡ (g, ok s)
      → (s.platform ≡ name_linux)
        × ((p : LinuxPayload) × IsText is_text p × (s.payload ≡ json.write_payload p))
  linux_recorded h g s ready run = elim (set_system_dns-IsTaken json c h g s run).1 [
    | inl (u, after, state) ↦ (
      ap (λ x. x.platform) state,
      (payload_dropin c h, (content-IsText h ready, empty), ap (λ x. x.payload) state),
    )
    | inr (u, (prev, e, after, state)) ↦ (
      ap (λ x. x.platform) state,
      (payload_resolv_conf prev, (empty, ready.3 prev e), ap (λ x. x.payload) state),
    )
  ]

  read_back :
      (s t : TakeoverState) (p : LinuxPayload)
      → IsText is_text p
      → s.payload ≡ json.write_payload p
      → IsReadAs json s t
      → json.read_payload t.payload ≡ some p
  read_back s t p text payload (name, alike) =
      alike ∙ ap json.read_payload payload ∙ faithful.payload_read p text

  -- On Linux, with either manager, restoring undoes a takeover: if the calls of the restoration
  -- succeed, the drop-in can be read, and the files are not empty and hold texts that json can
  -- express, then the settings are what they were, whether the state is at hand or was read from
  -- its file.
  pub restore_system_dns-set_system_dns :
      (h g : LinuxHost) (s t : TakeoverState)
      → IsReady is_text h
      → set_system_dns json c h ≡ (g, ok s)
      → IsReadAs json s t
      → restore_system_dns json c t g ≡ (h, none)
  restore_system_dns-set_system_dns h g s t ready run alike =
      let (root, taken) = set_system_dns-IsTaken json c h g s run in
      elim taken [
        | inl (u, after, state) ↦
            let read =
              read_back s t (payload_dropin c h) (content-IsText h ready, empty)
                (ap (λ x. x.payload) state) alike in
            restored json c g t (payload_dropin c h) (ap (λ x. x.root) after ∙ root) read
            ∙ ap (restore_payload json c (payload_dropin c h)) after
            ∙ restore_dropin_back json c h will ready.0
        | inr (u, ([], e, after, state)) ↦ absurd (ready.1 e)
        | inr (u, (b ∷ prev, e, after, state)) ↦
            let read =
              read_back s t (payload_resolv_conf (b ∷ prev)) (empty, ready.3 (b ∷ prev) e)
                (ap (λ x. x.payload) state) alike in
            restored json c g t (payload_resolv_conf (b ∷ prev)) (ap (λ x. x.root) after ∙ root)
              read
            ∙ ap (restore_payload json c (payload_resolv_conf (b ∷ prev))) after
            ∙ restore_resolv_conf_back json c h b prev will e
      ]

  -- Linux fills the interface of the commands.
  pub linux-IsUndoing :
      WillTake c → IsUndoing json (IsText is_text) (IsReady is_text) (linux json c)
  linux-IsUndoing take = record {
    recorded = linux_recorded;
    undone = restore_system_dns-set_system_dns;
    kept = set_system_dns_kept json c take;
  }
