-- ===== src/Schema/Write.antt =====
-- `atomicWrite`, `retryRename` and `inPlaceReplace`: replacing the content of a file. What the
-- system does at each call is an argument.
use true_dns.Base.{
  ℕ, zero, suc, ◌+◌, ◌≡◌, refl, inl, inr, ◌⊎◌, Bool, true, false, ◌&&◌, if◌then◌else◌, Bool-cases,
}
use true_dns.Text.{Bytes}

pub data System : Type 0 where
  windows other_system : System

-- how the rewrite in place goes, after the file is cut to nothing: a write that breaks off leaves
-- some text
pub data InPlace : Type 0 where
  not_opened : InPlace
  broke_off : Bytes → InPlace
  not_synced not_closed replaced : InPlace

pub record Attempt : Type 0 where
  -- `os.Stat`, `os.CreateTemp`, `Write`, `Chmod` and `Close` succeed
  pub stat_ok : Bool
  pub created : Bool
  pub written : Bool
  pub chmod_ok : Bool
  pub closed : Bool
  -- the rename with this number succeeds
  pub renamed : ℕ → Bool
  pub in_place : InPlace

-- `retryRename` with the number of rounds left
unfoldable pub retry_rename : ℕ → ℕ → (ℕ → Bool) → Bool
retry_rename zero i renamed = false
retry_rename (suc rounds) i renamed =
    let rest = retry_rename rounds (i + 1) renamed in if renamed i then true else rest

abbrev pub rewrite_in_place : InPlace → Bytes → Bytes → Bool × Bytes
rewrite_in_place not_opened new old = (false, old)
rewrite_in_place (broke_off part) new old = (false, part)
rewrite_in_place not_synced new old = (false, new)
rewrite_in_place not_closed new old = (false, new)
rewrite_in_place replaced new old = (true, new)

-- `inPlaceReplace`: whether it succeeded, and the content of the file
abbrev pub in_place_replace : System → InPlace → Bytes → Bytes → Bool × Bytes
in_place_replace windows in_place new old = rewrite_in_place in_place new old
in_place_replace other_system in_place new old = (false, old)

-- `atomicWrite`: whether it succeeded, and the content of the file
unfoldable pub atomic_write : System → Attempt → Bytes → Bytes → Bool × Bytes
unfolding retry_rename
atomic_write sys a new old =
    if a.stat_ok && (a.created && (a.written && (a.chmod_ok && a.closed)))
    then if retry_rename 6 0 a.renamed then (true, new) else in_place_replace sys a.in_place new old
    else (false, old)

-- How replacing a file may end: done, with the new content; with an error, and the file as it was;
-- or, on Windows, with an error after the rewrite in place began.
abbrev pub IsWritten : System → Bytes → Bytes → Bool × Bytes → Type 0
IsWritten sys new old out =
    (out ≡ (true, new)) ⊎ (out ≡ (false, old)) ⊎ ((sys ≡ windows) × (out.0 ≡ false))

in_place_replace-IsWritten :
    (sys : System) (in_place : InPlace) (new old : Bytes)
    → IsWritten sys new old (in_place_replace sys in_place new old)
in_place_replace-IsWritten other_system in_place new old = inr (inl refl)
in_place_replace-IsWritten windows not_opened new old = inr (inl refl)
in_place_replace-IsWritten windows (broke_off part) new old = inr (inr (refl, refl))
in_place_replace-IsWritten windows not_synced new old = inr (inr (refl, refl))
in_place_replace-IsWritten windows not_closed new old = inr (inr (refl, refl))
in_place_replace-IsWritten windows replaced new old = inl refl

-- A write that reports success has put the new content into the file. One that reports an error
-- leaves the old content, except on Windows, where the rewrite in place may have begun.
pub atomic_write-IsWritten :
    (sys : System) (a : Attempt) (new old : Bytes)
    → IsWritten sys new old (atomic_write sys a new old)
unfolding atomic_write
atomic_write-IsWritten sys a new old =
    elim (Bool-cases (a.stat_ok && (a.created && (a.written && (a.chmod_ok && a.closed))))) [
      | inr b ↦ rw (b, atomic_write) (inr (inl refl))
      | inl b ↦ elim (Bool-cases (retry_rename 6 0 a.renamed)) [
        | inl c ↦ rw (b, atomic_write, c) (inl refl)
        | inr c ↦ rw (b, atomic_write, c) (in_place_replace-IsWritten sys a.in_place new old)
      ]
    ]
