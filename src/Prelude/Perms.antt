-- ===== src/Prelude/Perms.antt =====
-- Permutations of lists, the library's relation.
use mathlib.Core.List.{Permᴰ, List, [], ◌∷◌, ◌++◌}
use Prim.Native.Nat.{suc}
use lbpr.Prelude.Lists.{length}
use mathlib.Core.Path.{◌≡◌, refl, ap, ◌∙◌}

pub perm_refl {ℓ} : {A : Type ℓ} (xs : List A) → Permᴰ xs xs
perm_refl [] = Permᴰ.nil
perm_refl (x ∷ xs) = Permᴰ.cons refl (perm_refl xs)

pub perm_append {ℓ} :
    {A : Type ℓ} (xs : List A) {ys zs : List A} → Permᴰ ys zs → Permᴰ (xs ++ ys) (xs ++ zs)
perm_append [] h = h
perm_append (x ∷ xs) h = Permᴰ.cons refl (perm_append xs h)

pub perm_middle {ℓ} :
    {A : Type ℓ} (xs : List A) (a : A) (ys : List A) → Permᴰ (xs ++ a ∷ ys) (a ∷ (xs ++ ys))
perm_middle [] a ys = perm_refl (a ∷ ys)
perm_middle (x ∷ xs) a ys =
    Permᴰ.trans (Permᴰ.cons refl (perm_middle xs a ys)) (Permᴰ.swap refl refl)

pub perm_length {ℓ} : {A : Type ℓ} {xs ys : List A} → Permᴰ xs ys → length xs ≡ length ys
perm_length Permᴰ.nil = refl
perm_length (Permᴰ.cons e h) = ap suc (perm_length h)
perm_length (Permᴰ.swap e f) = refl
perm_length (Permᴰ.trans h k) = perm_length h ∙ perm_length k
