-- ===== src/Core/Shutdown.antt =====
-- The loop that refreshes the override table, of internal/core/override.go, after its `shutdown`.
use true_dns.Base.{
  ℤ, pos, ◌≡◌, refl, inl, inr, true, Option, List, [], ◌∷◌, leb_ℤ, Bool-cases, ap, sym, ◌∙◌,
}
use true_dns.Text.{Bytes}
use true_dns.Net.{Net}
use true_dns.Override.{Table, Fetched, url_step}
use true_dns.Core.Refresh.{
  Phase, fetching, waiting, finished, Manager, Event, fetch_one, end_fetch, tick, cancel,
  see_cancel, fetch_phase, end_phase, tick_phase, stop_phase, react, react_all,
}

module _ (net : Net) (interval : ℤ) where
  -- the events that are left when the loop is cancelled
  abbrev pub drain_fetches : ℤ → List (Bytes × Fetched) → List Event
  drain_fetches now [] = end_fetch ∷ see_cancel ∷ []
  drain_fetches now (f ∷ rest) = fetch_one now ∷ drain_fetches now rest

  abbrev pub drain : ℤ → Phase → List Event
  drain now (fetching rest last) = drain_fetches now rest
  drain now waiting = see_cancel ∷ []
  drain now finished = []

  drained :
      (now : ℤ) (rest : List (Bytes × Fetched)) (last : Option Bytes) (t : Table)
      → (react_all net interval
          (drain_fetches now rest)
          (record { table = t; phase = fetching rest last; cancelled = true })).phase
        ≡ finished
  unfolding react_all react
  drained now [] last t = elim (Bool-cases (leb_ℤ interval (pos 0))) [
    | inl b ↦ rw b refl
    | inr b ↦ rw b refl
  ]
  drained now ((u, f) ∷ rest) last t =
      let (v, e) = url_step net now u f last t in drained now rest e v

  drain_ends :
      (now : ℤ) (m : Manager)
      → (react_all net interval (drain now m.phase) (react net interval cancel m)).phase ≡ finished
  unfolding react_all react
  drain_ends now m = by_phase m.phase
    where
      by_phase :
          (p : Phase)
          → (react_all net interval
              (drain now p)
              (record { table = m.table; phase = p; cancelled = true })).phase
            ≡ finished
      by_phase waiting = refl
      by_phase finished = refl
      by_phase (fetching rest last) = drained now rest last m.table

  fetch_phase-cancelled :
      (now : ℤ) (m : Manager) (p : Phase)
      → (fetch_phase net interval now m p).cancelled ≡ m.cancelled
  fetch_phase-cancelled now m (fetching ((u, f) ∷ rest) last) = refl
  fetch_phase-cancelled now m (fetching [] last) = refl
  fetch_phase-cancelled now m waiting = refl
  fetch_phase-cancelled now m finished = refl

  end_phase-cancelled :
      (m : Manager) (p : Phase) → (end_phase net interval m p).cancelled ≡ m.cancelled
  end_phase-cancelled m (fetching [] last) = refl
  end_phase-cancelled m (fetching (f ∷ rest) last) = refl
  end_phase-cancelled m waiting = refl
  end_phase-cancelled m finished = refl

  tick_phase-cancelled :
      (fetches : List (Bytes × Fetched)) (m : Manager) (p : Phase)
      → (tick_phase net interval fetches m p).cancelled ≡ m.cancelled
  tick_phase-cancelled fetches m waiting = refl
  tick_phase-cancelled fetches m (fetching rest last) = refl
  tick_phase-cancelled fetches m finished = refl

  stop_phase-cancelled :
      (m : Manager) (p : Phase) → (stop_phase net interval m p).cancelled ≡ m.cancelled
  stop_phase-cancelled m waiting = elim (Bool-cases m.cancelled) [
    | inl b ↦ rw b refl
    | inr b ↦ rw b refl
  ]
  stop_phase-cancelled m (fetching rest last) = refl
  stop_phase-cancelled m finished = refl

  react-cancelled :
      (e : Event) (m : Manager) → m.cancelled ≡ true → (react net interval e m).cancelled ≡ true
  unfolding react
  react-cancelled (fetch_one now) m h = fetch_phase-cancelled now m m.phase ∙ h
  react-cancelled end_fetch m h = end_phase-cancelled m m.phase ∙ h
  react-cancelled (tick fetches) m h = tick_phase-cancelled fetches m m.phase ∙ h
  react-cancelled cancel m h = refl
  react-cancelled see_cancel m h = stop_phase-cancelled m m.phase ∙ h

  react_all-cancelled :
      (es : List Event) (m : Manager)
      → m.cancelled ≡ true
      → (react_all net interval es m).cancelled ≡ true
  unfolding react_all
  react_all-cancelled [] m h = h
  react_all-cancelled (e ∷ es) m h =
      react_all-cancelled es (react net interval e m) (react-cancelled e m h)

  cancel_again : (m : Manager) → m.cancelled ≡ true → react net interval cancel m ≡ m
  unfolding react
  cancel_again m h = sym (λ i. record m { cancelled = h i })

  -- Whatever has happened since `shutdown` cancelled the loop, ticks that the loop took first and
  -- their rounds of fetches included, it ends if from there the fetches of the round under way
  -- return and it then sees the cancellation before another tick.
  pub shutdown_ends :
      (now : ℤ) (es : List Event) (m : Manager)
      → (react_all net interval
          (drain now (react_all net interval es (react net interval cancel m)).phase)
          (react_all net interval es (react net interval cancel m))).phase
        ≡ finished
  unfolding react
  shutdown_ends now es m =
      let k = react_all net interval es (react net interval cancel m) in
      ap (λ x. (react_all net interval (drain now k.phase) x).phase)
        (sym (cancel_again k (react_all-cancelled es (react net interval cancel m) refl)))
      ∙ drain_ends now k
