-- ===== src/Platform/State.antt =====
-- `TakeoverState`, and the file that it is kept in.
use true_dns.Base.{ℤ, Bool, true, false, ◌&&◌, Option, none, some, if◌then◌else◌, ◌≡◌}
use true_dns.Base.Result.{Result, ok, err}
use true_dns.Text.{Bytes, codes, is_empty, bytes_eq}

pub record TakeoverState : Type 0 where
  pub tool : Bytes
  pub version : Bytes
  pub platform : Bytes
  pub taken_at : ℤ
  pub payload : Bytes

-- What the program uses of encoding/json, with `P` the platform's payload.
pub record Json (P : Type 0) : Type 0 where
  -- `json.Marshal` and `json.Unmarshal` of a payload
  pub write_payload : P → Bytes
  pub read_payload : Bytes → Option P
  -- `json.MarshalIndent` and `json.Unmarshal` of a state
  pub write_state : TakeoverState → Bytes
  pub read_state : Bytes → Option TakeoverState

-- The two states name the same platform and have payloads that read alike.
abbrev pub IsReadAs : {P : Type 0} → Json P → TakeoverState → TakeoverState → Type 0
IsReadAs json s t =
    (t.platform ≡ s.platform) × (json.read_payload t.payload ≡ json.read_payload s.payload)

-- A payload that json can express, which is one of valid UTF-8, reads as it was written. A state
-- with such a payload reads as one with the same platform and the same payload but for its layout.
pub record IsFaithful {P : Type 0} (json : Json P) (IsText : P → Type 0) : Type 0 where
  pub payload_read : (p : P) → IsText p → json.read_payload (json.write_payload p) ≡ some p
  pub state_read :
      (s : TakeoverState) (p : P)
      → IsText p
      → s.payload ≡ json.write_payload p
      → (t : TakeoverState) × (json.read_state (json.write_state s) ≡ some t) × IsReadAs json s t

-- `Version`
abbrev pub version : Bytes
version = codes "v1.0.0-dev"

-- `newState`, at a time
abbrev pub new_state : {P : Type 0} → Json P → Bytes → ℤ → P → TakeoverState
new_state json name now p = record {
  tool = codes "truedns";
  version = version;
  platform = name;
  taken_at = now;
  payload = json.write_payload p;
}

-- what the system does when the state is saved: `os.MkdirAll`, `os.WriteFile` and `os.Rename`
pub record Saving : Type 0 where
  pub dir_made : Bool
  pub tmp_written : Bool
  pub renamed : Bool

-- `SaveState`: whether it succeeded, and the state file
abbrev pub save_state :
    {P : Type 0} → Json P → Saving → TakeoverState → Option Bytes → Bool × Option Bytes
save_state json saving s file =
    if saving.dir_made && (saving.tmp_written && saving.renamed)
    then (true, some (json.write_state s))
    else (false, file)

pub data StateError : Type 0 where
  absent unreadable corrupt : StateError
  foreign : Bytes → StateError

-- the platform that a state names is the one that runs
abbrev pub check_platform : Bytes → TakeoverState → Result StateError TakeoverState
check_platform name s =
    if is_empty s.platform
    then ok s
    else if bytes_eq s.platform name
    then ok s
    else err (foreign s.platform)

-- `LoadState` on the platform with this name; the Boolean says whether a file can be read
unfoldable pub load_state :
    {P : Type 0} → Json P → Bytes → Bool → Option Bytes → Result StateError TakeoverState
load_state json name readable none = err absent
load_state json name false (some text) = err unreadable
load_state json name true (some text) = elim (json.read_state text) [
  | none ↦ err corrupt
  | some s ↦ check_platform name s
]

-- `ClearState`: the state file afterwards
abbrev pub clear_state : Bool → Option Bytes → Option Bytes
clear_state removed file = if removed then none else file

-- `StateSummary`, without the description: whether a takeover is recorded
unfoldable pub state_summary :
    {P : Type 0} → Json P → Bytes → Bool → Option Bytes → Result StateError Bool
unfolding load_state
state_summary json name readable file = elim (load_state json name readable file) [
  | ok s ↦ ok true
  | err absent ↦ ok false
  | err e ↦ err e
]
