-- ===== src/Platform/Frames.antt =====
-- Texts for payloads and states that read as what was written.
use true_dns.Base.{
  ◌≡◌, refl, Bool, true, Option, some, List, [], ◌∷◌, ◌++◌, pos, length, take, drop, ap, ◌∙◌, sym,
}
use true_dns.Text.{Bytes}
use true_dns.Platform.State.{TakeoverState, Json, IsReadAs, IsFaithful}
use true_dns.Platform.Linux.{LinuxPayload}
use true_dns.Platform.Undo.{IsText}
use true_dns.Platform.Windows.{WinAdapter}

-- a text with its length before it
abbrev pub frame : Bytes → Bytes → Bytes
frame b rest = length b ∷ (b ++ rest)

abbrev pub unframe : Bytes → Bytes × Bytes
unframe [] = ([], [])
unframe (n ∷ s) = (take n s, drop n s)

take_append : (b rest : Bytes) → take (length b) (b ++ rest) ≡ b
take_append [] rest = refl
take_append (c ∷ b) rest = ap (◌∷◌ c) (take_append b rest)

drop_append : (b rest : Bytes) → drop (length b) (b ++ rest) ≡ rest
drop_append [] rest = refl
drop_append (c ∷ b) rest = drop_append b rest

unframe-frame : (b rest : Bytes) → unframe (frame b rest) ≡ (b, rest)
unframe-frame b rest = rw (take_append b rest, drop_append b rest) refl

abbrev pub read_linux : Bytes → Option LinuxPayload
read_linux s =
    let (m, r) = unframe s in
    let (d, q) = unframe r in
    let (v, p) = unframe q in some (record { manager = m; prev_dropin = d; prev_resolv_conf = v })

abbrev pub write_linux : LinuxPayload → Bytes
write_linux p = frame p.manager (frame p.prev_dropin (frame p.prev_resolv_conf []))

read_linux-write_linux : (p : LinuxPayload) → read_linux (write_linux p) ≡ some p
read_linux-write_linux p =
    ap
      (λ x.
        (let (d, q) = unframe x.1 in
          let (v, r) = unframe q in
          some (record { manager = x.0; prev_dropin = d; prev_resolv_conf = v })))
      (unframe-frame p.manager (frame p.prev_dropin (frame p.prev_resolv_conf [])))
    ∙ ap
        (λ x.
          (let (v, r) = unframe x.1 in some (record p { prev_dropin = x.0; prev_resolv_conf = v })))
        (unframe-frame p.prev_dropin (frame p.prev_resolv_conf []))
    ∙ ap (λ x. some (record p { prev_resolv_conf = x.0 })) (unframe-frame p.prev_resolv_conf [])

abbrev pub read_taken : Bytes → Option TakeoverState
read_taken s =
    let (n, r) = unframe s in
    let (p, q) = unframe r in
    some (record { tool = []; version = []; platform = n; taken_at = pos 0; payload = p })

abbrev pub write_taken : TakeoverState → Bytes
write_taken s = frame s.platform (frame s.payload [])

-- A state reads as one with the same platform and payload.
pub read_taken-write_taken :
    {P : Type 0} (json : Json P) (s : TakeoverState)
    → (t : TakeoverState) × (read_taken (write_taken s) ≡ some t) × IsReadAs json s t
read_taken-write_taken json s = (
  record { tool = []; version = []; platform = s.platform; taken_at = pos 0; payload = s.payload },
  ap
        (λ x.
          (let (p, q) = unframe x.1 in
            some
              (record { tool = []; version = []; platform = x.0; taken_at = pos 0; payload = p })))
        (unframe-frame s.platform (frame s.payload []))
      ∙ ap
          (λ x. some (record {
            tool = [];
            version = [];
            platform = s.platform;
            taken_at = pos 0;
            payload = x.0;
          }))
          (unframe-frame s.payload []),
  (refl, refl),
)

abbrev pub json : Json LinuxPayload
json = record {
  write_payload = write_linux;
  read_payload = read_linux;
  write_state = write_taken;
  read_state = read_taken;
}

-- any text
abbrev pub any : Bytes → Bool
any s = true

pub json-IsFaithful : IsFaithful json (IsText any)
json-IsFaithful = record {
  payload_read = λ p text. read_linux-write_linux p;
  state_read = λ s p text e. read_taken-write_taken json s;
}

-- Windows: one adapter, with a state for one adapter.
abbrev pub write_adapters : List WinAdapter → Bytes
write_adapters [] = []
write_adapters (ad ∷ ads) = frame ad.ad_key (frame ad.ad_name_server [])

abbrev pub read_adapters : Bytes → Option (List WinAdapter)
read_adapters s =
    let (k, r) = unframe s in
    let (n, q) = unframe r in
    some (
      record { ad_key = k; ad_name_server = n; had_name_server = true; ad_dhcp_name_server = [] }
      ∷ [])

abbrev pub win_json : Json (List WinAdapter)
win_json = record {
  write_payload = write_adapters;
  read_payload = read_adapters;
  write_state = write_taken;
  read_state = read_taken;
}

-- one adapter without servers from DHCP
abbrev pub IsOne : List WinAdapter → Type 0
IsOne ads =
    (k n : Bytes) × (ads
      ≡ record { ad_key = k; ad_name_server = n; had_name_server = true; ad_dhcp_name_server = [] }
        ∷ [])

read_adapters-write_adapters :
    (k n : Bytes)
    → read_adapters (frame k (frame n []))
      ≡ some (
          record {
            ad_key = k;
            ad_name_server = n;
            had_name_server = true;
            ad_dhcp_name_server = [];
          }
          ∷ [])
read_adapters-write_adapters k n =
    ap
      (λ x.
        (let (m, q) = unframe x.1 in
          some (
            record {
              ad_key = x.0;
              ad_name_server = m;
              had_name_server = true;
              ad_dhcp_name_server = [];
            }
            ∷ [])))
      (unframe-frame k (frame n []))
    ∙ ap
        (λ x. some (
          record {
            ad_key = k;
            ad_name_server = x.0;
            had_name_server = true;
            ad_dhcp_name_server = [];
          }
          ∷ []))
        (unframe-frame n [])

pub win_json-IsFaithful : IsFaithful win_json IsOne
win_json-IsFaithful = record {
  payload_read = λ ads one.
      ap (λ x. read_adapters (write_adapters x)) one.2
      ∙ read_adapters-write_adapters one.0 one.1
      ∙ ap some (sym one.2);
  state_read = λ s p text e. read_taken-write_taken win_json s;
}
