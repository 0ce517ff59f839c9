-- ===== src/Cli/Logs.antt =====
-- `cmdLogs`: the last lines of the log file.
use true_dns.Base.{
  ℕ, zero, suc, ◌+◌, ◌-◌, ◌≤◌, ℤ, pos, negsuc, ◌≡◌, refl, inl, inr, Bool, true, Option, none, some,
  List, [], ◌∷◌, ◌++◌, arith, if◌then◌else◌, Bool-cases, ltb, drop, length, length-append, ap, ◌∙◌,
  sym,
}
use true_dns.Base.Result.{Result, ok, err}
use mathlib.Core.List.{append_assoc, append-nil}
use true_dns.Text.{Bytes}

pub data LogError : Type 0 where
  scan_failed : LogError

-- one round of the loop: the line is appended, and the first lines are cut off
abbrev pub keep_last : ℕ → List Bytes → Bytes → List Bytes
keep_last n lines line =
    let all = lines ++ (line ∷ []) in if ltb n (length all) then drop (length all - n) all else all

unfoldable pub scan_lines : ℕ → List Bytes → List Bytes → List Bytes
scan_lines n lines [] = lines
scan_lines n lines (l ∷ rest) = scan_lines n (keep_last n lines l) rest

-- `cmdLogs` on an open file: `scanned` are the lines that the scanner finds, and the Boolean says
-- that it ends without an error. A negative number of lines is a panic, `none`.
unfoldable pub cmd_logs : ℤ → Bool → List Bytes → Option (Result LogError (List Bytes))
unfolding scan_lines
cmd_logs (negsuc k) clean scanned = none
cmd_logs (pos n) clean scanned =
    if clean then some (ok (scan_lines n [] scanned)) else some (err scan_failed)

-- the last `n` lines
abbrev pub last_lines : ℕ → List Bytes → List Bytes
last_lines n l = drop (length l - n) l

drop_append : (k : ℕ) (s t : List Bytes) → k ≤ length s → drop k (s ++ t) ≡ drop k s ++ t
drop_append zero s t h = refl
drop_append (suc k) [] t h = absurd (omega arith)
drop_append (suc k) (x ∷ s) t h = drop_append k s t (omega arith)

drop_nil : (k : ℕ) → drop {A = Bytes} k [] ≡ []
drop_nil zero = refl
drop_nil (suc k) = refl

drop-drop : (j k : ℕ) (s : List Bytes) → drop j (drop k s) ≡ drop (k + j) s
drop-drop j zero s = ap (λ i. drop i s) (omega arith)
drop-drop j (suc k) [] = drop_nil j ∙ sym (drop_nil (suc k + j))
drop-drop j (suc k) (x ∷ s) = drop-drop j k s ∙ ap (λ i. drop i (x ∷ s)) (suc_add k j)
  where
    suc_add : (a b : ℕ) → suc (a + b) ≡ suc a + b
    suc_add a b = omega arith

length-drop : (k : ℕ) (s : List Bytes) → k ≤ length s → length (drop k s) + k ≡ length s
length-drop zero s h = omega arith
length-drop (suc k) [] h = absurd (omega arith)
length-drop (suc k) (x ∷ s) h = omega (arith, length-drop k s (omega arith))

keep_last_all :
    (n : ℕ) (lines : List Bytes) (l : Bytes)
    → keep_last n lines l ≡ last_lines n (lines ++ (l ∷ []))
keep_last_all n lines l = elim (Bool-cases (ltb n (length (lines ++ (l ∷ []))))) [
  | inl b ↦ rw b refl
  | inr b ↦
      let none_cut : length (lines ++ (l ∷ [])) - n ≡ 0 = ground arith in rw (b, none_cut) refl
]

-- Cutting the lines before one more is appended makes no difference.
last_lines-append :
    (n : ℕ) (s : List Bytes) (l : Bytes)
    → last_lines n (last_lines n s ++ (l ∷ [])) ≡ last_lines n (s ++ (l ∷ []))
last_lines-append n s l =
    let k = length s - n in
    let cut : drop k s ++ (l ∷ []) ≡ drop k (s ++ (l ∷ [])) =
      sym (drop_append k s (l ∷ []) (omega arith)) in
    let size = length-drop k (s ++ (l ∷ [])) (omega (arith, length-append s (l ∷ []))) in
    ap (last_lines n) cut
    ∙ drop-drop (length (drop k (s ++ (l ∷ []))) - n) k (s ++ (l ∷ []))
    ∙ ap (λ i. drop i (s ++ (l ∷ []))) (omega (arith, size, length-append s (l ∷ [])))

scan_lines_last :
    (n : ℕ) (seen rest : List Bytes)
    → scan_lines n (last_lines n seen) rest ≡ last_lines n (seen ++ rest)
unfolding scan_lines
scan_lines_last n seen [] = ap (last_lines n) (sym (append-nil seen))
scan_lines_last n seen (l ∷ rest) =
    ap (λ x. scan_lines n x rest)
      (keep_last_all n (last_lines n seen) l ∙ last_lines-append n seen l)
    ∙ scan_lines_last n (seen ++ (l ∷ [])) rest
    ∙ ap (last_lines n) (append_assoc seen (l ∷ []) rest)

-- A log that is read to its end is shown from the last `n` lines on, for every `n` from 0 on,
-- though only `n` lines are kept at a time; a longer `n` shows all of them.
pub cmd_logs_last :
    (n : ℕ) (scanned : List Bytes)
    → cmd_logs (pos n) true scanned ≡ some (ok (drop (length scanned - n) scanned))
unfolding cmd_logs
cmd_logs_last n scanned =
    ap (λ x. some (ok x))
      (ap (λ x. scan_lines n x scanned) (sym (drop_nil (0 - n))) ∙ scan_lines_last n [] scanned)
