-- ===== src/Platform/Sessions.antt =====
-- Commands one after another: whatever runs are cut short, the settings can be had back.
use true_dns.Base.{
  true, false, Bool, Option, none, some, ◌≡◌, refl, inl, inr, ◌⊎◌, arith, ap, ◌∙◌, Bool-cases,
}
use true_dns.Base.Result.{ok, err, Result-cases}
use true_dns.Text.{Bytes, is_empty, bytes_eq, bytes_eq_iff}
use true_dns.Platform.State.{
  TakeoverState, Json, IsReadAs, IsFaithful, save_state, load_state, state_summary,
}
use true_dns.Platform.Interface.{Platform, PlatformError, IsUndoing}
use true_dns.Platform.Commands.{
  Session, Files, CommandError, cmd_setup, cmd_restore, cmd_run, run_take, run_save, run_start,
  run_stop, take_and_save, undo_and_clear, platform_failed, already_taken,
}

-- Every call on the state file succeeds.
abbrev pub AreGood : Files → Type 0
AreGood f =
    (f.readable ≡ true)
    × (f.saving.dir_made ≡ true)
    × (f.saving.tmp_written ≡ true)
    × (f.saving.renamed ≡ true)
    × (f.removed ≡ true)

module _ {H P : Type 0} (json : Json P) (pf : Platform H) (files : Files) (IsText : P → Type 0)
    (Ready : H → Type 0) where
  -- The commands that ran, one after another: `restore`, `setup` without force, a run with or
  -- without `--keep` that ends, and one that is killed once its state is saved. A run begins only
  -- where no takeover is recorded, and no other command runs before it has ended. `setup --force`
  -- and a run that is killed between its takeover and the save are not among them.
  pub data Runs (s : Session H) : Session H → Type 0 where
    no_command : Runs s s
    setup : {t : Session H} → Runs s t → Runs s (cmd_setup json pf files false t).0
    restore : {t : Session H} → Runs s t → Runs s (cmd_restore json pf files t).0
    run_ended :
        {t : Session H} (keep : Bool) (proxy : Option CommandError)
        → Runs s t
        → t.file ≡ none
        → Runs s (cmd_run json pf files keep proxy (λ u. u) t).0
    killed : {t : Session H} → Runs s t → t.file ≡ none → Runs s (run_start json pf files t).0

  -- The settings are as they were and none is recorded, or they are taken over and the file has
  -- the state of that takeover.
  abbrev pub IsHeld : H → Session H → Type 0
  IsHeld h s =
      (s ≡ record { host = h; file = none })
      ⊎ ((g : H) × (st : TakeoverState) × (pf.set_system_dns h ≡ (g, ok st))
          × (s ≡ record { host = g; file = some (json.write_state st) }))

  module _ (good : AreGood files) (faithful : IsFaithful json IsText)
      (undoing : IsUndoing json IsText Ready pf) where
    -- The file of a takeover is read as a state that restores.
    load_saved :
        (h g : H) (st : TakeoverState)
        → Ready h
        → pf.set_system_dns h ≡ (g, ok st)
        → (t : TakeoverState) × (load_state json pf.name files.readable (some (json.write_state st))
            ≡ ok t)
          × IsReadAs json st t
    unfolding load_state
    load_saved h g st ready run =
        let (name, (p, text, payload)) = undoing.recorded h g st ready run in
        let (t, read, (same, alike)) = faithful.state_read st p text payload in
        let known : bytes_eq t.platform pf.name ≡ true =
          (bytes_eq_iff t.platform pf.name).1 (same ∙ name) in
        (
          t,
          elim (Bool-cases (is_empty t.platform)) [
            | inl b ↦ rw (good.0, load_state, read, b) refl
            | inr b ↦ rw (good.0, load_state, read, b, known) refl
          ],
          (same, alike),
        )

    abbrev pub untaken : H → Session H
    untaken h = record { host = h; file = none }

    abbrev taken : H → TakeoverState → Session H
    taken g st = record { host = g; file = some (json.write_state st) }

    saved :
        (st : TakeoverState) (file : Option Bytes)
        → save_state json files.saving st file ≡ (true, some (json.write_state st))
    saved st file = rw (good.1, good.2, good.3) refl

    setup_taken :
        (h g : H) (st : TakeoverState)
        → Ready h
        → pf.set_system_dns h ≡ (g, ok st)
        → cmd_setup json pf files false (taken g st) ≡ (taken g st, some already_taken)
    unfolding cmd_setup state_summary
    setup_taken h g st ready done =
        let (t, load, alike) = load_saved h g st ready done in
        rw (load, cmd_setup, state_summary) refl

    undo_and_clear_done :
        (t : TakeoverState) (s : Session H) (h : H)
        → pf.restore_system_dns t s.host ≡ (h, none)
        → undo_and_clear json pf files t s ≡ (untaken h, none)
    unfolding undo_and_clear
    undo_and_clear_done t s h e =
        let back : (pf.restore_system_dns t s.host).0 ≡ h = ap (λ x. x.0) e in
        let fine : (pf.restore_system_dns t s.host).1 ≡ none = ap (λ x. x.1) e in
        rw (fine, undo_and_clear, back, good.4) refl

    restore_taken :
        (h g : H) (st : TakeoverState)
        → Ready h
        → pf.set_system_dns h ≡ (g, ok st)
        → cmd_restore json pf files (taken g st) ≡ (untaken h, none)
    unfolding cmd_restore undo_and_clear
    restore_taken h g st ready done =
        let (t, load, alike) = load_saved h g st ready done in
        rw (load, cmd_restore)
          (undo_and_clear_done t (taken g st) h (undoing.undone h g st t ready done alike))

    set_system_dns-cases :
        (h : H)
        → ((g : H) × (st : TakeoverState) × (pf.set_system_dns h ≡ (g, ok st)))
          ⊎ ((x : PlatformError) × (pf.set_system_dns h ≡ (h, err x)))
    set_system_dns-cases h = elim (Result-cases (pf.set_system_dns h).1) [
      | inl (st, e) ↦ inl ((pf.set_system_dns h).0, st, ap (λ r. ((pf.set_system_dns h).0, r)) e)
      | inr (x, e) ↦
          let same : (pf.set_system_dns h).0 ≡ h =
            undoing.kept h _ x (ap (λ r. ((pf.set_system_dns h).0, r)) e) in
          inr (x, ap (λ r. ((pf.set_system_dns h).0, r)) e ∙ ap (λ g. (g, err x)) same)
    ]

    run_take_done :
        (h g : H) (st : TakeoverState)
        → pf.set_system_dns h ≡ (g, ok st)
        → run_take json pf files (untaken h) ≡ (untaken g, ok st)
    unfolding run_take
    run_take_done h g st e = rw (ap (λ r. r.1) e, run_take, ap (λ r. r.0) e) refl

    run_take_failed :
        (h : H) (x : PlatformError)
        → pf.set_system_dns h ≡ (h, err x)
        → run_take json pf files (untaken h) ≡ (untaken h, err (platform_failed x))
    unfolding run_take
    run_take_failed h x e = rw (ap (λ r. r.1) e, run_take, ap (λ r. r.0) e) refl

    run_start-IsHeld :
        (h : H)
        → ((g : H) × (st : TakeoverState) × (pf.set_system_dns h ≡ (g, ok st))
            × (run_start json pf files (untaken h) ≡ (taken g st, ok st)))
          ⊎ ((x : CommandError) × (run_start json pf files (untaken h) ≡ (untaken h, err x)))
    unfolding run_start run_save
    run_start-IsHeld h = elim (set_system_dns-cases h) [
      | inl (g, st, e) ↦ inl (
        g,
        st,
        e,
        let take = run_take_done h g st e in
            rw (ap (λ r. r.1) take, run_start, ap (λ r. r.0) take, run_save, good.1, good.2, good.3)
              refl,
      )
      | inr (x, e) ↦ inr (
        platform_failed x,
        let take = run_take_failed h x e in
            rw (ap (λ r. r.1) take, run_start, ap (λ r. r.0) take) refl,
      )
    ]

    setup_untaken : (h : H) → IsHeld h (cmd_setup json pf files false (untaken h)).0
    unfolding cmd_setup state_summary take_and_save load_state
    setup_untaken h = elim (set_system_dns-cases h) [
      | inl (g, st, e) ↦ inr (
        g,
        st,
        e,
        rw (ap (λ r. r.1) e, take_and_save, ap (λ r. r.0) e, good.1, good.2, good.3) refl,
      )
      | inr (x, e) ↦ inl (rw (ap (λ r. r.1) e, take_and_save, ap (λ r. r.0) e) refl)
    ]

    run_untaken :
        (h : H) (proxy : Option CommandError)
        → Ready h
        → (cmd_run json pf files false proxy (λ u. u) (untaken h)).0 ≡ untaken h
    unfolding cmd_run run_stop
    run_untaken h proxy ready = elim (run_start-IsHeld h) [
      | inl (g, st, done, e) ↦
          rw (ap (λ r. r.1) e, cmd_run, ap (λ r. r.0) e, run_stop)
            (ap (λ x. x.0)
              (undo_and_clear_done st (taken g st) h
                (undoing.undone h g st st ready done (refl, refl))))
      | inr (x, e) ↦ rw (ap (λ r. r.1) e, cmd_run, ap (λ r. r.0) e) refl
    ]

    run_kept :
        (s : Session H) (proxy : Option CommandError)
        → (cmd_run json pf files true proxy (λ u. u) s).0 ≡ (run_start json pf files s).0
    unfolding cmd_run run_stop
    run_kept s proxy = elim (Result-cases (run_start json pf files s).1) [
      | inl (st, e) ↦ rw (e, cmd_run, run_stop) refl
      | inr (x, e) ↦ rw (e, cmd_run) refl
    ]

    killed-IsHeld : (h : H) → IsHeld h (run_start json pf files (untaken h)).0
    killed-IsHeld h = elim (run_start-IsHeld h) [
      | inl (g, st, done, e) ↦ inr (g, st, done, ap (λ x. x.0) e)
      | inr (x, e) ↦ inl (ap (λ x. x.0) e)
    ]

    run_ended-IsHeld :
        (h : H) (keep : Bool) (proxy : Option CommandError)
        → Ready h
        → IsHeld h (cmd_run json pf files keep proxy (λ u. u) (untaken h)).0
    run_ended-IsHeld h false proxy ready = inl (run_untaken h proxy ready)
    run_ended-IsHeld h true proxy ready = rw (run_kept (untaken h) proxy) (killed-IsHeld h)

    setup-IsHeld :
        (h : H) (s : Session H)
        → Ready h
        → IsHeld h s
        → IsHeld h (cmd_setup json pf files false s).0
    setup-IsHeld h s ready (inl e) = rw e (setup_untaken h)
    setup-IsHeld h s ready (inr (g, st, done, e)) = inr (
      g,
      st,
      done,
      ap (λ x. (cmd_setup json pf files false x).0) e
          ∙ ap (λ x. x.0) (setup_taken h g st ready done),
    )

    restore_held :
        (h : H) (s : Session H) → Ready h → IsHeld h s → (cmd_restore json pf files s).0 ≡ untaken h
    unfolding cmd_restore load_state
    restore_held h s ready (inl e) = ap (λ x. (cmd_restore json pf files x).0) e
    restore_held h s ready (inr (g, st, done, e)) =
        ap (λ x. (cmd_restore json pf files x).0) e
        ∙ ap (λ x. x.0) (restore_taken h g st ready done)

    -- Where no takeover is recorded, the settings are as they were.
    held_none : (h : H) (s : Session H) → IsHeld h s → s.file ≡ none → s ≡ untaken h
    held_none h s (inl e) empty = e
    held_none h s (inr (g, st, done, e)) empty = absurd (ground arith)

    Runs-IsHeld : (h : H) {s : Session H} → Ready h → Runs (untaken h) s → IsHeld h s
    Runs-IsHeld h ready no_command = inl refl
    Runs-IsHeld h ready (setup {t} before) = setup-IsHeld h t ready (Runs-IsHeld h ready before)
    Runs-IsHeld h ready (restore {t} before) =
        inl (restore_held h t ready (Runs-IsHeld h ready before))
    Runs-IsHeld h ready (run_ended {t} keep proxy before empty) =
        rw (held_none h t (Runs-IsHeld h ready before) empty) (run_ended-IsHeld h keep proxy ready)
    Runs-IsHeld h ready (killed {t} before empty) =
        rw (held_none h t (Runs-IsHeld h ready before) empty) (killed-IsHeld h)

    -- After any sequence of `restore`, `setup` without force, runs that end, with `--keep` or
    -- without and if the proxy fails too, and runs that are killed once their state is saved,
    -- `restore` gives back the settings from before the first of them and leaves no state file. The
    -- conditions are that no run begins where a takeover is recorded and no other command runs
    -- before it has ended, that the settings are ones from which the platform undoes a takeover,
    -- that it leaves them alone when a takeover fails, that json reads what it wrote, and that the
    -- calls on the state file succeed. `setup --force` and a run that is killed between its
    -- takeover and the save are left out.
    pub cmd_restore-Runs :
        (h : H) {s : Session H}
        → Ready h
        → Runs (untaken h) s
        → (cmd_restore json pf files s).0 ≡ untaken h
    cmd_restore-Runs h {s} ready before = restore_held h s ready (Runs-IsHeld h ready before)
