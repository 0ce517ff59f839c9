-- ===== src/Base/Perms.antt =====
-- Rearrangements: the library's `Permᴰ` with the native length and with `In`.
use Prim.Native.Nat.{suc}
use mathlib.Core.Path.{◌≡◌, refl, ap, ◌∙◌, sym}
use mathlib.Core.Logic.{inl, inr}
use mathlib.Core.List.{List, Permᴰ}
use true_dns.Base.Lists.{length, In}

pub length-Permᴰ : {A : Type 0} {xs ys : List A} → Permᴰ xs ys → length xs ≡ length ys
length-Permᴰ Permᴰ.nil = refl
length-Permᴰ (Permᴰ.cons e p) = ap suc (length-Permᴰ p)
length-Permᴰ (Permᴰ.swap e f) = refl
length-Permᴰ (Permᴰ.trans p q) = length-Permᴰ p ∙ length-Permᴰ q

pub In-Permᴰ : {A : Type 0} {xs ys : List A} (x : A) → Permᴰ xs ys → In x xs → In x ys
In-Permᴰ x Permᴰ.nil i = i
In-Permᴰ x (Permᴰ.cons e p) (inl f) = inl (sym e ∙ f)
In-Permᴰ x (Permᴰ.cons e p) (inr i) = inr (In-Permᴰ x p i)
In-Permᴰ x (Permᴰ.swap e f) (inl g) = inr (inl (sym e ∙ g))
In-Permᴰ x (Permᴰ.swap e f) (inr (inl g)) = inl (sym f ∙ g)
In-Permᴰ x (Permᴰ.swap e f) (inr (inr i)) = inr (inr i)
In-Permᴰ x (Permᴰ.trans p q) i = In-Permᴰ x q (In-Permᴰ x p i)
