-- ===== src/Schema/Lock.antt =====
-- `withConfigLock`: two processes and the lock file, one call of the system at a time. A process
-- that gives up, since the deadline has passed or the file cannot be made, is at `left`.
use true_dns.Base.{
  ◌≡◌, refl, Bool, true, false, Option, none, some, List, [], ◌∷◌, arith, All, ap, sym, subst,
}

-- the first process, and the second
pub data Process : Type 0 where
  one two : Process

-- where a process is: before a call of `os.OpenFile`; after `os.Stat` found a lock of more than ten
-- seconds; in `fn`; after the return
pub data Place : Type 0 where
  tries saw_stale holds left : Place

pub record Lock : Type 0 where
  -- who made the lock file that is there, with `some none` for a process that crashed
  pub file : Option (Option Process)
  -- the file is older than ten seconds
  pub old : Bool
  pub first : Place
  pub second : Place

-- a process makes the file; finds it old; removes an old one; gives up; returns and removes it.
-- `age` is the passing of ten seconds.
pub data Call : Type 0 where
  create stat remove give_up release : Process → Call
  age : Call

abbrev pub place : Process → Lock → Place
place one l = l.first
place two l = l.second

abbrev pub move : Process → Place → Lock → Lock
move one p l = record l { first = p }
move two p l = record l { second = p }

abbrev pub create_at : Process → Place → Option (Option Process) → Lock → Lock
create_at who tries none l = move who holds (record l { file = some (some who); old = false })
create_at who p f l = l

abbrev pub stat_at : Process → Place → Option (Option Process) → Bool → Lock → Lock
stat_at who tries (some owner) true l = move who saw_stale l
stat_at who p f old l = l

abbrev pub remove_at : Process → Place → Lock → Lock
remove_at who saw_stale l = move who tries (record l { file = none; old = false })
remove_at who p l = l

abbrev pub give_up_at : Process → Place → Lock → Lock
give_up_at who tries l = move who left l
give_up_at who p l = l

abbrev pub release_at : Process → Place → Lock → Lock
release_at who holds l = move who left (record l { file = none; old = false })
release_at who p l = l

-- what a call does where the process is to make it; elsewhere it does nothing
unfoldable pub call : Call → Lock → Lock
call (create who) l = create_at who (place who l) l.file l
call (stat who) l = stat_at who (place who l) l.file l.old l
call (remove who) l = remove_at who (place who l) l
call (give_up who) l = give_up_at who (place who l) l
call (release who) l = release_at who (place who l) l
call age l = record l { old = true }

unfoldable pub calls : List Call → Lock → Lock
unfolding call
calls [] l = l
calls (c ∷ cs) l = calls cs (call c l)

abbrev pub unlocked : Lock
unlocked = record { file = none; old = false; first = tries; second = tries }

abbrev pub is_age : Call → Bool
is_age age = true
is_age c = false

-- The lock is young, and whoever holds it made the file that is there.
abbrev IsExclusive : Lock → Type 0
IsExclusive l =
    (l.old ≡ false)
    × ((l.first ≡ holds) → l.file ≡ some (some one))
    × ((l.second ≡ holds) → l.file ≡ some (some two))
    × ¬ (l.first ≡ saw_stale)
    × ¬ (l.second ≡ saw_stale)

create_one :
    (f : Option (Option Process)) (p q : Place)
    → IsExclusive (record { file = f; old = false; first = p; second = q })
    → IsExclusive (create_at one p f (record { file = f; old = false; first = p; second = q }))
create_one none tries q h = (refl, (λ e. refl), (λ e. ground arith), ground arith, h.4)
create_one none saw_stale q h = h
create_one none holds q h = h
create_one none left q h = h
create_one (some o) tries q h = h
create_one (some o) saw_stale q h = h
create_one (some o) holds q h = h
create_one (some o) left q h = h

create_two :
    (f : Option (Option Process)) (p q : Place)
    → IsExclusive (record { file = f; old = false; first = p; second = q })
    → IsExclusive (create_at two q f (record { file = f; old = false; first = p; second = q }))
create_two none p tries h = (refl, (λ e. ground arith), (λ e. refl), h.3, ground arith)
create_two none p saw_stale h = h
create_two none p holds h = h
create_two none p left h = h
create_two (some o) p tries h = h
create_two (some o) p saw_stale h = h
create_two (some o) p holds h = h
create_two (some o) p left h = h

stat_young :
    (who : Process) (p : Place) (f : Option (Option Process)) (l : Lock)
    → stat_at who p f false l ≡ l
stat_young who tries none l = refl
stat_young who tries (some o) l = refl
stat_young who saw_stale f l = refl
stat_young who holds f l = refl
stat_young who left f l = refl

remove_other : (who : Process) (p : Place) (l : Lock) → ¬ (p ≡ saw_stale) → remove_at who p l ≡ l
remove_other who tries l h = refl
remove_other who saw_stale l h = absurd (h refl)
remove_other who holds l h = refl
remove_other who left l h = refl

give_up_one :
    (f : Option (Option Process)) (p q : Place)
    → IsExclusive (record { file = f; old = false; first = p; second = q })
    → IsExclusive (give_up_at one p (record { file = f; old = false; first = p; second = q }))
give_up_one f tries q h = (refl, (λ e. ground arith), h.2, ground arith, h.4)
give_up_one f saw_stale q h = h
give_up_one f holds q h = h
give_up_one f left q h = h

give_up_two :
    (f : Option (Option Process)) (p q : Place)
    → IsExclusive (record { file = f; old = false; first = p; second = q })
    → IsExclusive (give_up_at two q (record { file = f; old = false; first = p; second = q }))
give_up_two f p tries h = (refl, h.1, (λ e. ground arith), h.3, ground arith)
give_up_two f p saw_stale h = h
give_up_two f p holds h = h
give_up_two f p left h = h

release_one :
    (f : Option (Option Process)) (p q : Place)
    → IsExclusive (record { file = f; old = false; first = p; second = q })
    → IsExclusive (release_at one p (record { file = f; old = false; first = p; second = q }))
release_one f tries q h = h
release_one f saw_stale q h = h
release_one f holds q h =
    let own = h.1 refl in
    (refl, (λ e. ground arith), (λ e. let other = h.2 e in ground arith), ground arith, h.4)
release_one f left q h = h

release_two :
    (f : Option (Option Process)) (p q : Place)
    → IsExclusive (record { file = f; old = false; first = p; second = q })
    → IsExclusive (release_at two q (record { file = f; old = false; first = p; second = q }))
release_two f p tries h = h
release_two f p saw_stale h = h
release_two f p holds h =
    let own = h.2 refl in
    (refl, (λ e. let other = h.1 e in ground arith), (λ e. ground arith), h.3, ground arith)
release_two f p left h = h

young :
    (c : Call) (f : Option (Option Process)) (p q : Place)
    → is_age c ≡ false
    → IsExclusive (record { file = f; old = false; first = p; second = q })
    → IsExclusive (call c (record { file = f; old = false; first = p; second = q }))
unfolding call
young (create one) f p q e h = create_one f p q h
young (create two) f p q e h = create_two f p q h
young (stat one) f p q e h = subst IsExclusive (sym (stat_young one p f _)) h
young (stat two) f p q e h = subst IsExclusive (sym (stat_young two q f _)) h
young (remove one) f p q e h = subst IsExclusive (sym (remove_other one p _ h.3)) h
young (remove two) f p q e h = subst IsExclusive (sym (remove_other two q _ h.4)) h
young (give_up one) f p q e h = give_up_one f p q h
young (give_up two) f p q e h = give_up_two f p q h
young (release one) f p q e h = release_one f p q h
young (release two) f p q e h = release_two f p q h
young age f p q e h = absurd (ground arith)

call-IsExclusive : (c : Call) (l : Lock) → is_age c ≡ false → IsExclusive l → IsExclusive (call c l)
call-IsExclusive c l e h =
    let same : l ≡ record { file = l.file; old = false; first = l.first; second = l.second } =
      ap (λ o. record l { old = o }) h.0 in
    subst (λ x. IsExclusive (call c x)) (sym same)
      (young c l.file l.first l.second e (subst IsExclusive same h))

calls-IsExclusive :
    (cs : List Call) (l : Lock)
    → All (λ c. is_age c ≡ false) cs
    → IsExclusive l
    → IsExclusive (calls cs l)
unfolding calls
calls-IsExclusive [] l young_calls h = h
calls-IsExclusive (c ∷ cs) l young_calls h =
    calls-IsExclusive cs (call c l) young_calls.1 (call-IsExclusive c l young_calls.0 h)

-- However the calls of two processes come after each other, the two are never in `fn` at once, if
-- no lock is there at first and none gets old.
pub calls_exclusive :
    (cs : List Call)
    → All (λ c. is_age c ≡ false) cs
    → ¬ (((calls cs unlocked).first ≡ holds) × ((calls cs unlocked).second ≡ holds))
calls_exclusive cs young_calls = λ both.
    let h =
      calls-IsExclusive cs unlocked young_calls
        (refl, (λ e. ground arith), (λ e. ground arith), ground arith, ground arith) in
    let first = h.1 both.0 in let second = h.2 both.1 in ground arith
