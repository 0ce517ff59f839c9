-- ===== src/Platform/Taken.antt =====
-- What `/etc/resolv.conf` says during a takeover.
use true_dns.Base.{
  ℕ, ◌≡◌, refl, inl, inr, true, false, List, [], ◌∷◌, ◌++◌, arith, Bool-cases, ap, sym, ◌∙◌, subst,
  All,
}
use mathlib.Core.List.{append_assoc}
use true_dns.Text.{
  Bytes, codes, is_space, bytes_eq, bytes_eq_iff, has_prefix, trim_space, trim_left, trim_right,
  trim_cons, split_fields, fields,
}
use true_dns.Text.Lines.{
  split_lines, join_lines, split_lines-IsLine, split_lines-append, IsLine, newline,
}
use true_dns.Platform.Linux.{
  takeover_text, kept_lines, is_dropped, first_line, loopback_line, newline_text,
}
use true_dns.Platform.Discover.{nameservers, servers_of, server_of}

has_prefix_nil : (s : Bytes) → has_prefix s [] ≡ true
unfolding has_prefix
has_prefix_nil [] = refl
has_prefix_nil (c ∷ s) = refl

trim_cons_prefix :
    (c : ℕ) (t w : Bytes)
    → is_space c ≡ false
    → has_prefix t w ≡ true
    → has_prefix (trim_cons c t) (c ∷ w) ≡ true
unfolding has_prefix
trim_cons_prefix c [] [] b h = rw b (ground arith)
trim_cons_prefix c [] (d ∷ w) b h = ground arith
trim_cons_prefix c (d ∷ t) w b h = rw h (ground arith)

-- The text begins with the word that `split_fields` finds at its start.
split_fields-trim_right : (s : Bytes) → has_prefix (trim_right s) (split_fields s).0 ≡ true
unfolding split_fields trim_right has_prefix
split_fields-trim_right [] = refl
split_fields-trim_right (c ∷ s) = elim (Bool-cases (is_space c)) [
  | inl b ↦ rw b (has_prefix_nil (trim_cons c (trim_right s)))
  | inr b ↦
      let h = trim_cons_prefix c (trim_right s) (split_fields s).0 b (split_fields-trim_right s) in
      rw b h
]

-- A text without the space around it begins with its first field.
fields-trim_space :
    (l w : Bytes) (ws : List Bytes) → fields l ≡ w ∷ ws → has_prefix (trim_space l) w ≡ true
unfolding fields trim_space trim_left split_fields
fields-trim_space [] w ws h = ground arith
fields-trim_space (c ∷ s) w ws h = elim (Bool-cases (is_space c)) [
  | inl b ↦
      let same : fields (c ∷ s) ≡ fields s = unfold fields in rw b refl in
      let trimmed : trim_space (c ∷ s) ≡ trim_space s = unfold trim_space in rw b refl in
      rw trimmed (fields-trim_space s w ws (sym same ∙ h))
  | inr b ↦
      let same : fields (c ∷ s) ≡ (c ∷ (split_fields s).0) ∷ (split_fields s).1 =
        unfold fields in rw b refl in
      let trimmed : trim_space (c ∷ s) ≡ trim_right (c ∷ s) = unfold trim_space in rw b refl in
      let first : c ∷ (split_fields s).0 ≡ w = ground arith in
      rw (trimmed, sym first)
        (trim_cons_prefix c (trim_right s) (split_fields s).0 b (split_fields-trim_right s))
]

server_of-fields : (l : Bytes) → is_dropped l ≡ false → server_of (fields l) ≡ []
server_of-fields l h = step (fields l) (fields-trim_space l)
  where
    step :
        (fs : List Bytes)
        → ((w : Bytes) (ws : List Bytes) → fs ≡ w ∷ ws → has_prefix (trim_space l) w ≡ true)
        → server_of fs ≡ []
    step [] f = refl
    step (w ∷ []) f = refl
    step (w ∷ server ∷ ws) f = elim (Bool-cases (bytes_eq w (codes "nameserver"))) [
      | inr b ↦ rw b refl
      | inl b ↦
          let starts : has_prefix (trim_space l) (codes "nameserver") ≡ true =
            subst (λ x. has_prefix (trim_space l) x ≡ true)
              ((bytes_eq_iff w (codes "nameserver")).0 b) (f w (server ∷ ws) refl) in
          absurd (ground arith)
    ]

servers_of-kept_lines : (ls : List Bytes) → servers_of (kept_lines ls) ≡ []
unfolding servers_of kept_lines
servers_of-kept_lines [] = refl
servers_of-kept_lines (l ∷ ls) = elim (Bool-cases (is_dropped l)) [
  | inl b ↦ rw b (servers_of-kept_lines ls)
  | inr b ↦ rw (b, servers_of, server_of-fields l b) (servers_of-kept_lines ls)
]

split_lines-newline :
    (l : Bytes) (ls : List Bytes)
    → All IsLine (l ∷ ls)
    → split_lines (join_lines (l ∷ ls) ++ newline_text) ≡ (l ∷ ls) ++ ([] ∷ [])
unfolding join_lines split_lines
split_lines-newline l [] h = split_lines-append l [] h.0
split_lines-newline l (k ∷ ls) h =
    ap split_lines (append_assoc l (newline ∷ join_lines (k ∷ ls)) newline_text)
    ∙ split_lines-append l (join_lines (k ∷ ls) ++ newline_text) h.0
    ∙ ap (◌∷◌ l) (split_lines-newline k ls h.1)

servers_of-append : (ls : List Bytes) → servers_of (ls ++ ([] ∷ [])) ≡ servers_of ls
unfolding servers_of fields split_fields
servers_of-append [] = refl
servers_of-append (l ∷ ls) = ap (◌++◌ (server_of (fields l))) (servers_of-append ls)

kept_lines-IsLine : (ls : List Bytes) → All IsLine ls → All IsLine (kept_lines ls)
unfolding kept_lines
kept_lines-IsLine [] h = tt
kept_lines-IsLine (l ∷ ls) h = elim (Bool-cases (is_dropped l)) [
  | inl b ↦ rw b (kept_lines-IsLine ls h.1)
  | inr b ↦ rw b (h.0, kept_lines-IsLine ls h.1)
]

first_line-IsLine : IsLine first_line
first_line-IsLine = ground arith

loopback_line-IsLine : IsLine loopback_line
loopback_line-IsLine = ground arith

own_lines :
    (ls : List Bytes)
    → servers_of (first_line ∷ loopback_line ∷ ls) ≡ codes "127.0.0.1" ∷ servers_of ls
unfolding servers_of fields split_fields bytes_eq
own_lines ls = refl

-- While the resolver's file is taken over, the only server in it is the proxy, whatever the file
-- said before: no line that is kept names another one.
pub nameservers-takeover_text :
    (prev : Bytes) → nameservers (takeover_text prev) ≡ codes "127.0.0.1" ∷ []
unfolding takeover_text
nameservers-takeover_text prev =
    let lines : All IsLine (first_line ∷ loopback_line ∷ kept_lines (split_lines prev)) = (
      first_line-IsLine,
      (loopback_line-IsLine, kept_lines-IsLine (split_lines prev) (split_lines-IsLine prev)),
    ) in
    ap servers_of
      (split_lines-newline first_line (loopback_line ∷ kept_lines (split_lines prev)) lines)
    ∙ servers_of-append (first_line ∷ loopback_line ∷ kept_lines (split_lines prev))
    ∙ own_lines (kept_lines (split_lines prev))
    ∙ ap (◌∷◌ (codes "127.0.0.1")) (servers_of-kept_lines (split_lines prev))
