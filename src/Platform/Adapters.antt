-- ===== src/Platform/Adapters.antt =====
-- On Windows, restoring undoes a takeover of the adapters.
use true_dns.Base.{
  ◌≡◌, refl, inl, inr, true, false, ◌&&◌, none, some, List, [], ◌∷◌, arith, Bool-cases,
  Option-cases, All, ap, sym, ◌∙◌, subst,
}
use true_dns.Base.Result.{ok, err}
use true_dns.Text.{Bytes, bytes_eq, bytes_eq_iff}
use true_dns.Platform.State.{TakeoverState, Json, IsReadAs, IsFaithful, new_state}
use true_dns.Platform.Windows.{
  Adapter, WinCalls, WinAdapter, Touched, saved_adapter, is_active, loopback, touch_all,
  touch_adapter, keep_adapter, touched_state, set_adapters, put_value, put_back, restore_all,
  restore_adapters, name_windows,
}

-- The calls of a restoration succeed.
pub record WillRestoreAdapters (c : WinCalls) : Type 0 where
  pub opened : c.opened_again ≡ true
  pub reopened : (k : Bytes) → c.can_reopen k ≡ true
  pub reset : (k : Bytes) → c.can_reset k ≡ true
  pub deleted : (k : Bytes) → c.can_delete k ≡ true

-- No two adapters have the same key.
abbrev pub AreKeyed : List Adapter → Type 0
AreKeyed [] = Unit
AreKeyed (a ∷ l) = All (λ b. bytes_eq a.key b.key ≡ false) l × AreKeyed l

abbrev taken_adapter : Adapter → Adapter
taken_adapter a = record a { name_server = some loopback }

put_value_back : (a : Adapter) → put_value (saved_adapter a) true (taken_adapter a) ≡ a
put_value_back a = elim (Option-cases a.name_server) [ inl e ↦ rw e refl | inr (s, e) ↦ rw e refl ]

put_back_first :
    (a : Adapter) (l : List Adapter) → put_back (saved_adapter a) true (taken_adapter a ∷ l) ≡ a ∷ l
unfolding put_back
put_back_first a l = rw ((bytes_eq_iff a.key a.key).1 refl, put_back, put_value_back a) refl

module _ (json : Json (List WinAdapter)) (c : WinCalls) (will : WillRestoreAdapters c) where
  restore_step :
      (ad : WinAdapter) (ads : List WinAdapter) (l : List Adapter)
      → restore_all json c (ad ∷ ads) l
        ≡ restore_all json c ads (put_back ad (c.can_delete ad.ad_key) l)
  unfolding restore_all
  restore_step ad ads l =
      let reopened = will.reopened ad.ad_key in
      let reset = will.reset ad.ad_key in
      elim (Bool-cases ad.had_name_server) [ inl e ↦ ground arith | inr e ↦ ground arith ]

  skip_adapter :
      (b : Adapter) (ads : List WinAdapter) (l : List Adapter)
      → All (λ ad. bytes_eq b.key ad.ad_key ≡ false) ads
      → restore_all json c ads (b ∷ l)
        ≡ (b ∷ (restore_all json c ads l).0, (restore_all json c ads l).1)
  unfolding restore_all put_back
  skip_adapter b [] l h = refl
  skip_adapter b (ad ∷ ads) l h =
      let apart : put_back ad (c.can_delete ad.ad_key) (b ∷ l)
          ≡ b ∷ put_back ad (c.can_delete ad.ad_key) l =
        unfold put_back in rw (h.0) refl in
      restore_step ad ads (b ∷ l)
      ∙ ap (restore_all json c ads) apart
      ∙ skip_adapter b ads (put_back ad (c.can_delete ad.ad_key) l) h.1
      ∙ ap (λ r. (b ∷ r.0, r.1)) (sym (restore_step ad ads l))

  -- What is kept has keys of the adapters, and restoring it gives the adapters back.
  abbrev pub GivesBack : List Adapter → Touched → Type 0
  GivesBack l (m, ok ads) =
      ((k : Bytes)
        → All (λ b. bytes_eq k b.key ≡ false) l
        → All (λ ad. bytes_eq k ad.ad_key ≡ false) ads)
      × (restore_all json c ads m ≡ (l, none))
  GivesBack l (m, err e) = Unit

  keep_adapter-GivesBack :
      (a : Adapter) (l : List Adapter) (t : Touched)
      → All (λ b. bytes_eq a.key b.key ≡ false) l
      → GivesBack l t
      → GivesBack (a ∷ l) (keep_adapter a t)
  keep_adapter-GivesBack a l (m, err e) other h = tt
  keep_adapter-GivesBack a l (m, ok ads) other (keys, back) = (
    (λ k apart. keys k apart.1),
    skip_adapter a ads m (keys a.key other) ∙ ap (λ r. (a ∷ r.0, r.1)) back,
  )

  touch_adapter-GivesBack :
      (a : Adapter) (l : List Adapter) (t : Touched)
      → All (λ b. bytes_eq a.key b.key ≡ false) l
      → GivesBack l t
      → GivesBack (a ∷ l) (touch_adapter a t)
  unfolding restore_all
  touch_adapter-GivesBack a l (m, err e) other h = tt
  touch_adapter-GivesBack a l (m, ok ads) other (keys, back) =
      let first : restore_all json c (saved_adapter a ∷ ads) (taken_adapter a ∷ m)
          ≡ restore_all json c ads (a ∷ m) =
        restore_step (saved_adapter a) ads (taken_adapter a ∷ m)
        ∙ ap (λ d. restore_all json c ads (put_back (saved_adapter a) d (taken_adapter a ∷ m)))
            (will.deleted a.key)
        ∙ ap (restore_all json c ads) (put_back_first a m) in
      (
        (λ k apart. (apart.0, keys k apart.1)),
        first ∙ skip_adapter a ads m (keys a.key other) ∙ ap (λ r. (a ∷ r.0, r.1)) back,
      )

  touch_all-GivesBack : (l : List Adapter) → AreKeyed l → GivesBack l (touch_all json c l)
  unfolding touch_all restore_all
  touch_all-GivesBack [] keyed = ((λ k apart. tt), refl)
  touch_all-GivesBack (a ∷ l) keyed =
      let rest = touch_all-GivesBack l keyed.1 in
      elim (Bool-cases (c.can_open a.key && is_active a)) [
        | inr b ↦ rw b (keep_adapter-GivesBack a l (touch_all json c l) keyed.0 rest)
        | inl b ↦ elim (Bool-cases (c.can_set a.key)) [
          | inr s ↦ rw (b, s) tt
          | inl s ↦ rw (b, s) (touch_adapter-GivesBack a l (touch_all json c l) keyed.0 rest)
        ]
      ]

  touched_state-ok :
      (t : Touched) (g : List Adapter) (s : TakeoverState)
      → touched_state json c t ≡ (g, ok s)
      → (ads : List WinAdapter) × (t ≡ (g, ok ads)) × (s ≡ new_state json name_windows c.now ads)
  touched_state-ok (l, err e) g s h = ground arith
  touched_state-ok (l, ok []) g s h = ground arith
  touched_state-ok (l, ok (ad ∷ ads)) g s h =
      (ad ∷ ads, ap (λ x. (x, ok (ad ∷ ads))) (ground arith), ground arith)

  set_adapters-ok :
      (l g : List Adapter) (s : TakeoverState)
      → set_adapters json c l ≡ (g, ok s)
      → (c.elevated ≡ true)
        × ((ads : List WinAdapter) × (touch_all json c l ≡ (g, ok ads))
            × (s ≡ new_state json name_windows c.now ads))
  unfolding set_adapters
  set_adapters-ok l g s h = elim (Bool-cases c.elevated) [
    | inr b ↦ ground arith
    | inl b ↦ elim (Bool-cases c.opened) [
      | inr o ↦ ground arith
      | inl o ↦ elim (Bool-cases c.names_read) [
        | inr n ↦ ground arith
        | inl n ↦ (b, touched_state-ok (touch_all json c l) g s (ground arith))
      ]
    ]
  ]

  module _ (IsText : List WinAdapter → Type 0) (faithful : IsFaithful json IsText) where
    -- On Windows, restoring undoes a takeover that succeeds: every adapter has its name server
    -- again, or has none if it had none. The conditions are that the adapters have different keys,
    -- that json can express what is kept of them, and that the calls of the restoration succeed.
    pub restore_adapters-set_adapters :
        (l g : List Adapter) (s t : TakeoverState)
        → AreKeyed l
        → ((m : List Adapter) (ads : List WinAdapter)
            → touch_all json c l ≡ (m, ok ads)
            → IsText ads)
        → set_adapters json c l ≡ (g, ok s)
        → IsReadAs json s t
        → restore_adapters json c t g ≡ (l, none)
    unfolding restore_adapters
    restore_adapters-set_adapters l g s t keyed text ran (name, alike) =
        let (elevated, (ads, touched, state)) = set_adapters-ok l g s ran in
        let read : json.read_payload t.payload ≡ some ads =
          alike
          ∙ ap (λ x. json.read_payload x.payload) state
          ∙ faithful.payload_read ads (text g ads touched) in
        let opened = will.opened in
        let (keys, back) = subst (GivesBack l) touched (touch_all-GivesBack l keyed) in
        (ground arith)
