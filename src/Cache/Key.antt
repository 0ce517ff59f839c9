-- ===== src/Cache/Key.antt =====
-- `Key`: which questions share a key.
use true_dns.Base.{ℕ, ◌≡◌, ◌↔◌, true, false, [], ◌∷◌, ◌++◌, arith, ap, sym, ◌∙◌}
use true_dns.Text.{Bytes, to_lower, contains_byte}
use true_dns.Dns.{Question}
use true_dns.Cache.Defs.{cache_key}
use mathlib.Core.List.{append_assoc}

abbrev bar : ℕ
bar = b'|'

bar_inside : (a b : Bytes) → contains_byte (a ++ (bar ∷ b)) bar ≡ true
unfolding contains_byte
bar_inside [] b = ground arith
bar_inside (c ∷ a) b = ground (arith, bar_inside a b)

-- A text splits in one way at its last bar.
split_at_bar :
    (a a' b b' : Bytes)
    → contains_byte b bar ≡ false
    → contains_byte b' bar ≡ false
    → a ++ (bar ∷ b) ≡ a' ++ (bar ∷ b')
    → (a ≡ a') × (b ≡ b')
split_at_bar [] [] b b' h h' e = (cc, cc)
split_at_bar [] (d ∷ a') b b' h h' e =
    let f : b ≡ a' ++ (bar ∷ b') = cc in
    let k : contains_byte b bar ≡ true = ap (λ s. contains_byte s bar) f ∙ bar_inside a' b' in cc
split_at_bar (d ∷ a) [] b b' h h' e =
    let f : b' ≡ a ++ (bar ∷ b) = cc in
    let k : contains_byte b' bar ≡ true = ap (λ s. contains_byte s bar) f ∙ bar_inside a b in cc
split_at_bar (c ∷ a) (d ∷ a') b b' h h' e =
    let ih = split_at_bar a a' b b' h h' (cc) in (cc ih.0, ih.1)

-- Where the tables of type and class names have no bar, two questions share a cache key exactly
-- when they agree in the name but for its case, in the name of the type and in that of the class.
-- So two types for which the table has no name share a key.
pub cache_key_iff :
    (type_to_string class_to_string : ℕ → Bytes)
    → ((t : ℕ) → contains_byte (type_to_string t) b'|' ≡ false)
    → ((t : ℕ) → contains_byte (class_to_string t) b'|' ≡ false)
    → (q r : Question)
    → (cache_key type_to_string class_to_string q ≡ cache_key type_to_string class_to_string r) ↔ (
        (to_lower q.name ≡ to_lower r.name)
        × (type_to_string q.qtype ≡ type_to_string r.qtype)
        × (class_to_string q.qclass ≡ class_to_string r.qclass))
unfolding cache_key
cache_key_iff types classes no_bar_t no_bar_c q r = (
  λ e.
      let joined =
        append_assoc (to_lower q.name) (bar ∷ types q.qtype) (bar ∷ classes q.qclass)
        ∙ e
        ∙ sym (append_assoc (to_lower r.name) (bar ∷ types r.qtype) (bar ∷ classes r.qclass)) in
      let outer =
        split_at_bar (to_lower q.name ++ (bar ∷ types q.qtype))
          (to_lower r.name ++ (bar ∷ types r.qtype)) (classes q.qclass) (classes r.qclass)
          (no_bar_c q.qclass) (no_bar_c r.qclass) joined in
      let inner =
        split_at_bar (to_lower q.name) (to_lower r.name) (types q.qtype) (types r.qtype)
          (no_bar_t q.qtype) (no_bar_t r.qtype) outer.0 in
      (inner.0, inner.1, outer.1),
  λ (n, t, c). λ i. n i ++ (bar ∷ (t i ++ (bar ∷ c i))),
)
