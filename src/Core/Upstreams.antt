-- ===== src/Core/Upstreams.antt =====
-- `exchangeDoH`: the strategies over the DoH upstreams. What each upstream answers to the query is
-- an argument; for `race`, so is the order in which the results arrive. The channel holds a result
-- of every upstream, so each answer is sent, and it is closed after the last one.
use true_dns.Base.{
  ℕ, zero, suc, ◌+◌, ◌-◌, ◌^◌, ◌%◌, ◌≡◌, ◌<◌, ◌≤◌, ◌⊎◌, refl, inl, inr, Option, none, some, List,
  [], ◌∷◌, ◌++◌, arith, if◌then◌else◌, length, In, ap, ◌∙◌, sym, ltb, ◌==◌, take, drop,
  length-append, Bool-cases, ltb→lt, lt→ltb,
}
use mathlib.Core.List.{Permᴰ}
use mathlib.Core.List.Permᴰ
use native.Mathlib.Nat.{mod-eq_of_lt, mod-eq-sub-mod, mod-lt}
use true_dns.Base.Perms.{In-Permᴰ}
use true_dns.Base.Result.{Result, ok, err, Result-cases}
use true_dns.Text.{Bytes, codes}
use true_dns.Dns.{Msg}
use true_dns.Core.Library.{Strategy}

abbrev pub Answered : Type 0
Answered = Result Bytes Msg

-- `ups[i]`; `none` stands for an index out of range
unfoldable pub nth : ℕ → List Answered → Option Answered
nth i [] = none
nth zero (u ∷ ups) = some u
nth (suc i) (u ∷ ups) = nth i ups

-- `int(e.rot.Add(1)-1) % len(ups)`, with `rot` the counter before and `n` not 0. From 2 ^ 63 on
-- the conversion gives a negative number, and so does `%`, or 0; the index is then out of range.
unfoldable pub start_index : ℕ → ℕ → Option ℕ
start_index rot n =
    if ltb rot (2 ^ 63) then some (rot % n) else if (2 ^ 64 - rot) % n == 0 then some 0 else none

abbrev pub text_of : Option Bytes → Bytes
text_of none = codes "%!w(<nil>)"
text_of (some e) = e

abbrev pub all_failed : Bytes
all_failed = codes "all DoH upstreams failed"

-- The loop of `failover`, with the number of rounds left; `none` stands for a fault.
unfoldable pub failover_loop : ℕ → ℕ → ℕ → Option Bytes → List Answered → Option Answered
unfolding nth
failover_loop zero start i last_err ups = some (err (all_failed ++ codes ": " ++ text_of last_err))
failover_loop (suc rounds) start i last_err ups = elim (nth ((start + i) % length ups) ups) [
  | none ↦ none
  | some (ok resp) ↦ some (ok resp)
  | some (err e) ↦ failover_loop rounds start (suc i) (some e) ups
]

-- The default branch, with `rot` the counter before. `e.rot.Add` wraps around.
unfoldable pub failover : ℕ → List Answered → Option Answered
unfolding start_index failover_loop
failover rot ups = elim (start_index rot (length ups)) [
  | none ↦ none
  | some start ↦ failover_loop (length ups) start 0 none ups
]

-- `<-results`: the first answer that arrives, or nil when the channel is closed
unfoldable pub receive : List Answered → Answered
receive [] = err all_failed
receive (ok resp ∷ arrivals) = ok resp
receive (err e ∷ arrivals) = receive arrivals

-- The first answer of a list, or the last error.
unfoldable pub first_answer : Option Bytes → List Answered → Answered
first_answer last_err [] = err (all_failed ++ codes ": " ++ text_of last_err)
first_answer last_err (ok resp ∷ ups) = ok resp
first_answer last_err (err e ∷ ups) = first_answer (some e) ups

nth-drop : (s i : ℕ) (ups : List Answered) → nth i (drop s ups) ≡ nth (s + i) ups
unfolding nth
nth-drop zero i ups = ap (λ k. nth k ups) (omega arith)
nth-drop (suc s) i [] = refl
nth-drop (suc s) i (u ∷ ups) =
    let shift : suc (s + i) ≡ suc s + i = omega arith in
    nth-drop s i ups ∙ ap (λ k. nth k (u ∷ ups)) shift

nth-take : (s j : ℕ) (ups : List Answered) → j < s → nth j (take s ups) ≡ nth j ups
unfolding nth
nth-take zero j ups h = absurd (omega arith)
nth-take (suc s) j [] h = refl
nth-take (suc s) zero (u ∷ ups) h = refl
nth-take (suc s) (suc j) (u ∷ ups) h = nth-take s j ups (omega arith)

nth-append_left : (i : ℕ) (xs ys : List Answered) → i < length xs → nth i (xs ++ ys) ≡ nth i xs
unfolding nth
nth-append_left i [] ys h = absurd (omega arith)
nth-append_left zero (x ∷ xs) ys h = refl
nth-append_left (suc i) (x ∷ xs) ys h = nth-append_left i xs ys (omega arith)

nth-append_right :
    (i : ℕ) (xs ys : List Answered) → length xs ≤ i → nth i (xs ++ ys) ≡ nth (i - length xs) ys
unfolding nth
nth-append_right i [] ys h = ap (λ k. nth k ys) (omega arith)
nth-append_right zero (x ∷ xs) ys h = absurd (omega arith)
nth-append_right (suc i) (x ∷ xs) ys h =
    nth-append_right i xs ys (omega arith) ∙ ap (λ k. nth k ys) (omega arith)

length-drop : (s : ℕ) (xs : List Answered) → length (drop s xs) ≡ length xs - s
length-drop zero xs = omega arith
length-drop (suc s) [] = omega arith
length-drop (suc s) (x ∷ xs) = omega (arith, length-drop s xs)

length-take : (s : ℕ) (xs : List Answered) → s ≤ length xs → length (take s xs) ≡ s
length-take zero xs h = refl
length-take (suc s) [] h = absurd (omega arith)
length-take (suc s) (x ∷ xs) h = ap suc (length-take s xs (omega arith))

drop-nth :
    (i : ℕ) (xs : List Answered)
    → i < length xs
    → (u : Answered) × (nth i xs ≡ some u) × (drop i xs ≡ u ∷ drop (suc i) xs)
unfolding nth
drop-nth i [] h = absurd (omega arith)
drop-nth zero (x ∷ xs) h = (x, refl, refl)
drop-nth (suc i) (x ∷ xs) h = drop-nth i xs (omega arith)

drop_all : (i : ℕ) (xs : List Answered) → length xs ≤ i → drop i xs ≡ []
drop_all zero [] h = refl
drop_all (suc i) [] h = refl
drop_all zero (x ∷ xs) h = absurd (omega arith)
drop_all (suc i) (x ∷ xs) h = drop_all i xs (omega arith)

-- the order in which the upstreams are asked
abbrev pub rotated : ℕ → List Answered → List Answered
rotated s ups = drop s ups ++ take s ups

length-rotated :
    (s : ℕ) (ups : List Answered) → s ≤ length ups → length (rotated s ups) ≡ length ups
length-rotated s ups h =
    omega (arith, length-append (drop s ups) (take s ups), length-drop s ups, length-take s ups h)

nth-rotated :
    (s i : ℕ) (ups : List Answered)
    → s < length ups
    → i < length ups
    → nth ((s + i) % length ups) ups ≡ nth i (rotated s ups)
nth-rotated s i ups hs hi = elim (Bool-cases (ltb (s + i) (length ups))) [
  | inl b ↦
      let low : s + i < length ups = ltb→lt (s + i) (length ups) b in
      let inside : i < length (drop s ups) = omega (arith, length-drop s ups) in
      ap (λ k. nth k ups) (mod-eq_of_lt low)
      ∙ sym (nth-append_left i (drop s ups) (take s ups) inside ∙ nth-drop s i ups)
  | inr b ↦
      let high : length ups ≤ s + i = ground arith in
      let wrapped : s + i - length ups < length ups = omega arith in
      let rest : i - length (drop s ups) ≡ s + i - length ups = omega (arith, length-drop s ups) in
      ap (λ k. nth k ups) (mod-eq-sub-mod high ∙ mod-eq_of_lt wrapped)
      ∙ sym (
          nth-append_right i (drop s ups) (take s ups) (omega (arith, length-drop s ups))
          ∙ ap (λ k. nth k (take s ups)) rest
          ∙ nth-take s (s + i - length ups) ups (omega arith))
]

failover_loop_lem :
    (rounds s i : ℕ) (last_err : Option Bytes) (ups : List Answered)
    → s < length ups
    → i + rounds ≡ length ups
    → failover_loop rounds s i last_err ups ≡ some (first_answer last_err (drop i (rotated s ups)))
unfolding failover_loop first_answer
failover_loop_lem zero s i last_err ups hs hi =
    ap (λ l. some (first_answer last_err l))
      (sym (drop_all i (rotated s ups) (omega (arith, length-rotated s ups (omega arith)))))
failover_loop_lem (suc rounds) s i last_err ups hs hi =
    let (u, at, split) =
      drop-nth i (rotated s ups) (omega (arith, length-rotated s ups (omega arith))) in
    let found = nth-rotated s i ups hs (omega arith) ∙ at in
    elim (Result-cases u) [
      | inl (m, e) ↦ rw (found, failover_loop, split, e) refl
      | inr (e, e_err) ↦
          rw (found, failover_loop, split, e_err)
            (failover_loop_lem rounds s (suc i) (some e) ups hs (omega arith))
    ]

start_index_small : (rot n : ℕ) → rot < 2 ^ 63 → start_index rot n ≡ some (rot % n)
unfolding start_index
start_index_small rot n small = ground (arith, lt→ltb rot (2 ^ 63) small)

-- With a counter below 2 ^ 63 and an upstream there is no fault: the answer is the first one in
-- the order of the upstreams that starts at the counter's place and wraps around, and the last
-- upstream's error if no upstream answers.
pub failover_rotates :
    (rot : ℕ) (ups : List Answered)
    → rot < 2 ^ 63
    → 0 < length ups
    → failover rot ups ≡ some (first_answer none (rotated (rot % length ups) ups))
unfolding failover
failover_rotates rot ups small filled =
    rw (start_index_small rot (length ups) small, failover)
      (failover_loop_lem (length ups) (rot % length ups) 0 none ups (mod-lt rot filled)
        (omega arith))

err_ok : {e : Bytes} {m : Msg} → err e ≡ ok m → ⊥
err_ok k = cc

received :
    (arrivals : List Answered)
    → ((m : Msg) × (receive arrivals ≡ ok m) × In (ok m) arrivals)
      ⊎ ((receive arrivals ≡ err all_failed) × ((m : Msg) → ¬ In (ok m) arrivals))
unfolding receive
received [] = inr (refl, λ m i. i)
received (ok resp ∷ arrivals) = inl (resp, refl, inl refl)
received (err e ∷ arrivals) = elim (received arrivals) [
  | inl (m, f, i) ↦ inl (m, f, inr i)
  | inr (f, none_ok) ↦ inr (f, λ m i. elim i [ inl k ↦ absurd (err_ok k) | inr j ↦ none_ok m j ])
]

-- Whatever the order in which the results arrive, `race` gives an answer of some upstream, or an
-- error, and it gives an error just if every upstream failed.
receive_perm :
    (ups arrivals : List Answered)
    → Permᴰ ups arrivals
    → ((m : Msg) × (receive arrivals ≡ ok m) × In (ok m) ups)
      ⊎ ((receive arrivals ≡ err all_failed) × ((m : Msg) → ¬ In (ok m) ups))
receive_perm ups arrivals p = elim (received arrivals) [
  | inl (m, e, i) ↦ inl (m, e, In-Permᴰ (ok m) (Permᴰ.symm p) i)
  | inr (e, f) ↦ inr (e, λ m i. f m (In-Permᴰ (ok m) p i))
]

abbrev pub uint64_inc : ℕ → ℕ
uint64_inc n = (n + 1) % 2 ^ 64

-- `exchangeDoH`: the answer and the counter after it. `arrive` gives the order of arrival.
unfoldable pub exchange_doh :
    Strategy → ℕ → (List Answered → List Answered) → List Answered → Option (Answered × ℕ)
exchange_doh strategy rot arrive [] = some (err (codes "no DoH upstreams configured"), rot)
exchange_doh Strategy.race rot arrive (u ∷ ups) = some (receive (arrive (u ∷ ups)), rot)
exchange_doh Strategy.failover rot arrive (u ∷ ups) = elim (failover rot (u ∷ ups)) [
  | none ↦ none
  | some answered ↦ some (answered, uint64_inc rot)
]
