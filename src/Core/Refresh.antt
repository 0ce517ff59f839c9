-- ===== src/Core/Refresh.antt =====
-- internal/core/override.go: the goroutine that refreshes the override table, as a machine that
-- takes one event at a time. A lookup may come between any two of them. What each fetch gives is
-- an argument of the event that begins the fetches.
use true_dns.Base.{
  ℕ, ℤ, pos, ◌≡◌, refl, inl, inr, Bool, true, false, Option, none, some, List, [], ◌∷◌, ◌++◌,
  if◌then◌else◌, leb_ℤ, Bool-cases, ap, sym, ◌∙◌,
}
use true_dns.Text.{Bytes}
use true_dns.Net.{Net}
use true_dns.Override.{
  Table, Opened, Fetched, get_key, load_files, url_step, settle, latest, whole_body, url_step_lem,
}
use true_dns.Override

-- where the loop is: at the fetches that are left, with the last error; at its select; or ended
pub data Phase : Type 0 where
  fetching : List (Bytes × Fetched) → Option Bytes → Phase
  waiting finished : Phase

pub record Manager : Type 0 where
  pub table : Table
  pub phase : Phase
  pub cancelled : Bool

-- one source is fetched; the fetches end; the ticker fires, and a round of fetches begins;
-- `shutdown` cancels; the loop sees that
pub data Event : Type 0 where
  fetch_one : ℤ → Event
  end_fetch : Event
  tick : List (Bytes × Fetched) → Event
  cancel see_cancel : Event

abbrev pub first_phase : List (Bytes × Fetched) → Phase
first_phase [] = finished
first_phase (f ∷ fetches) = fetching (f ∷ fetches) none

-- after `fetch`: the loop goes on only with a refresh interval
abbrev pub next_phase : ℤ → Phase
next_phase interval = if leb_ℤ interval (pos 0) then finished else waiting

module _ (net : Net) where
  -- `newOverrideManager`, with the fetches of the first round
  unfoldable pub new_manager : ℤ → List (Bytes × Opened) → List (Bytes × Fetched) → Manager
  new_manager now files fetches = record {
    table = (load_files net now files none Override.new).0;
    phase = first_phase fetches;
    cancelled = false;
  }

  module _ (interval : ℤ) where
    -- what an event does where the loop can take it; elsewhere it does nothing
    abbrev pub fetch_phase : ℤ → Manager → Phase → Manager
    fetch_phase now m (fetching ((u, f) ∷ rest) last) =
        let (t, e) = url_step net now u f last m.table in
        record m { table = t; phase = fetching rest e }
    fetch_phase now m (fetching [] last) = m
    fetch_phase now m waiting = m
    fetch_phase now m finished = m

    abbrev pub end_phase : Manager → Phase → Manager
    end_phase m (fetching [] last) = record m {
      table = (settle last m.table).0;
      phase = next_phase interval;
    }
    end_phase m (fetching (f ∷ rest) last) = m
    end_phase m waiting = m
    end_phase m finished = m

    abbrev pub tick_phase : List (Bytes × Fetched) → Manager → Phase → Manager
    tick_phase fetches m waiting = record m { phase = fetching fetches none }
    tick_phase fetches m (fetching rest last) = m
    tick_phase fetches m finished = m

    abbrev pub stop_phase : Manager → Phase → Manager
    stop_phase m waiting = if m.cancelled then record m { phase = finished } else m
    stop_phase m (fetching rest last) = m
    stop_phase m finished = m

    -- the loop, by its events, and `shutdown`
    unfoldable pub react : Event → Manager → Manager
    react (fetch_one now) m = fetch_phase now m m.phase
    react end_fetch m = end_phase m m.phase
    react (tick fetches) m = tick_phase fetches m m.phase
    react cancel m = record m { cancelled = true }
    react see_cancel m = stop_phase m m.phase

    unfoldable pub react_all : List Event → Manager → Manager
    unfolding react
    react_all [] m = m
    react_all (e ∷ es) m = react_all es (react e m)

    -- the readings of the sources that the events make
    abbrev fetched_now : Phase → List (Bytes × Option (List Bytes))
    fetched_now (fetching ((u, f) ∷ rest) last) = (u, whole_body net f) ∷ []
    fetched_now (fetching [] last) = []
    fetched_now waiting = []
    fetched_now finished = []

    abbrev reading : Event → Manager → List (Bytes × Option (List Bytes))
    reading (fetch_one now) m = fetched_now m.phase
    reading end_fetch m = []
    reading (tick fetches) m = []
    reading cancel m = []
    reading see_cancel m = []

    unfoldable pub readings : List Event → Manager → List (Bytes × Option (List Bytes))
    unfolding react
    readings [] m = []
    readings (e ∷ es) m = reading e m ++ readings es (react e m)

    latest-append :
        (s : Bytes) (rs qs : List (Bytes × Option (List Bytes)))
        (old : Option (List (Bytes × List (List ℕ))))
        → latest net s (rs ++ qs) old ≡ latest net s qs (latest net s rs old)
    latest-append s [] qs old = refl
    latest-append s ((p, none) ∷ rs) qs old = latest-append s rs qs old
    latest-append s ((p, some lines) ∷ rs) qs old = latest-append s rs qs _

    -- The table's sources after an event.
    react-latest :
        (s : Bytes) (e : Event) (m : Manager)
        → get_key s (react e m).table.sources
          ≡ latest net s (reading e m) (get_key s m.table.sources)
    unfolding react
    react-latest s (fetch_one now) m = by_phase m.phase
      where
        by_phase :
            (p : Phase)
            → get_key s (fetch_phase now m p).table.sources
              ≡ latest net s (fetched_now p) (get_key s m.table.sources)
        by_phase waiting = refl
        by_phase finished = refl
        by_phase (fetching [] last) = refl
        by_phase (fetching ((u, f) ∷ rest) last) = (url_step_lem net now u f last m.table).0 s
    react-latest s end_fetch m = by_phase m.phase
      where
        settled :
            (t : Table) (last : Option Bytes)
            → get_key s (settle last t).0.sources ≡ get_key s t.sources
        settled t none = refl
        settled t (some e) = refl

        by_phase : (p : Phase) → get_key s (end_phase m p).table.sources ≡ get_key s m.table.sources
        by_phase waiting = refl
        by_phase finished = refl
        by_phase (fetching [] last) = settled m.table last
        by_phase (fetching (f ∷ rest) last) = refl
    react-latest s (tick fetches) m = by_phase m.phase
      where
        by_phase :
            (p : Phase)
            → get_key s (tick_phase fetches m p).table.sources ≡ get_key s m.table.sources
        by_phase waiting = refl
        by_phase finished = refl
        by_phase (fetching rest last) = refl
    react-latest s cancel m = refl
    react-latest s see_cancel m = by_phase m.phase
      where
        by_phase :
            (p : Phase) → get_key s (stop_phase m p).table.sources ≡ get_key s m.table.sources
        by_phase waiting = elim (Bool-cases m.cancelled) [ inl b ↦ rw b refl | inr b ↦ rw b refl ]
        by_phase finished = refl
        by_phase (fetching rest last) = refl

    -- Whatever the loop and `shutdown` do, in any order, a lookup finds the entries of each
    -- source as its last reading in full gave them, or the old ones if there is none: a fetch that
    -- fails or breaks off, or that is under way, is never seen in part.
    pub react_all-latest :
        (s : Bytes) (es : List Event) (m : Manager)
        → get_key s (react_all es m).table.sources
          ≡ latest net s (readings es m) (get_key s m.table.sources)
    unfolding react_all readings
    react_all-latest s [] m = refl
    react_all-latest s (e ∷ es) m =
        react_all-latest s es (react e m)
        ∙ ap (latest net s (readings es (react e m))) (react-latest s e m)
        ∙ sym (latest-append s (reading e m) (readings es (react e m)) (get_key s m.table.sources))
