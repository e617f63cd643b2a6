-- ===== src/Prelude/Permutations.antt =====
-- Predicates and relations on the items of a list, which do not depend on their order.
use mathlib.Core.Path.{subst, subst₂}
use mathlib.Core.List.{List, [], ◌∷◌, map, Permᴰ}
use rumur.Prelude.Lists.{All}

abbrev pub Pairwise {ℓ κ} : {A : Type ℓ} → (A → A → Type κ) → List A → Type κ
Pairwise R [] = Unit
Pairwise R (x ∷ xs) = All (R x) xs × Pairwise R xs

pub All-imp {ℓ κ κ'} :
    {A : Type ℓ} {P : A → Type κ} {Q : A → Type κ'}
    → ((a : A) → P a → Q a)
    → (xs : List A) → All P xs
    → All Q xs
All-imp f [] h = tt
All-imp f (x ∷ xs) (h, hs) = (f x h, All-imp f xs hs)

pub All-imp₂ {ℓ κ κ' κ''} :
    {A : Type ℓ} {P : A → Type κ} {Q : A → Type κ'} {R : A → Type κ''}
    → ((a : A) → P a → Q a → R a)
    → (xs : List A) → All P xs
    → All Q xs
    → All R xs
All-imp₂ f [] h k = tt
All-imp₂ f (x ∷ xs) (h, hs) (k, ks) = (f x h k, All-imp₂ f xs hs ks)

pub All-of {ℓ κ} : {A : Type ℓ} {P : A → Type κ} → ((a : A) → P a) → (xs : List A) → All P xs
All-of f [] = tt
All-of f (x ∷ xs) = (f x, All-of f xs)

module _ {ℓ κ} {A : Type ℓ} where
  pub All-perm : (P : A → Type κ) {xs ys : List A} → Permᴰ xs ys → All P xs → All P ys
  All-perm P Permᴰ.nil h = tt
  All-perm P (Permᴰ.cons e p) (h, hs) = (subst P e h, All-perm P p hs)
  All-perm P (Permᴰ.swap e f) (h, (k, hs)) = (subst P f k, (subst P e h, hs))
  All-perm P (Permᴰ.trans p q) h = All-perm P q (All-perm P p h)

  pub Pairwise-perm :
      (R : A → A → Type κ)
      → ((a b : A) → R a b → R b a)
      → {xs ys : List A} → Permᴰ xs ys
      → Pairwise R xs
      → Pairwise R ys
  Pairwise-perm R swapped Permᴰ.nil h = tt
  Pairwise-perm R swapped (Permᴰ.cons {l₂ = ys} e p) (h, hs) =
      (subst (λ a. All (R a) ys) e (All-perm (R _) p h), Pairwise-perm R swapped p hs)
  Pairwise-perm R swapped (Permᴰ.swap {a = a} {b = b} {l = l} e f) ((ab, al), (bl, hs)) = (
    (subst₂ R f e (swapped a b ab), subst (λ c. All (R c) l) f bl),
    (subst (λ c. All (R c) l) e al, hs),
  )
  Pairwise-perm R swapped (Permᴰ.trans p q) h =
      Pairwise-perm R swapped q (Pairwise-perm R swapped p h)

-- A predicate and a relation on the images of the items.
pub All-map {ℓ κ μ} :
    {A : Type ℓ} {B : Type κ} {P : A → Type μ} (Q : B → Type μ) (f : A → B)
    → ((a : A) → P a → Q (f a))
    → (xs : List A) → All P xs
    → All Q (map f xs)
All-map Q f image [] h = tt
All-map Q f image (x ∷ xs) (h, hs) = (image x h, All-map Q f image xs hs)

pub Pairwise-map {ℓ κ μ} :
    {A : Type ℓ} {B : Type κ} {R : A → A → Type μ} (S : B → B → Type μ) (f : A → B)
    → ((a b : A) → R a b → S (f a) (f b))
    → (xs : List A) → Pairwise R xs
    → Pairwise S (map f xs)
Pairwise-map S f image [] h = tt
Pairwise-map S f image (x ∷ xs) (h, hs) =
    (All-map (S (f x)) f (image x) xs h, Pairwise-map S f image xs hs)
