-- ===== src/Prelude/Products.antt =====
-- Equivalences of products, part by part.
use mathlib.Core.Logic.{◌↔◌}

pub both : {A B C D : Type 0} → A ↔ B → C ↔ D → (A × C) ↔ (B × D)
both f g = ((λ p. (f.0 p.0, g.0 p.1)), λ p. (f.1 p.0, g.1 p.1))

pub last : {A B : Type 0} → A ↔ B → (A × Unit {0}) ↔ B
last f = ((λ p. f.0 p.0), λ b. (f.1 b, tt))

pub skip : {A B : Type 0} → A ↔ B → (Unit {0} × A) ↔ B
skip f = ((λ p. f.0 p.1), λ b. (tt, f.1 b))

pub under : {A B P : Type 0} → A ↔ B → (P → A) ↔ (P → B)
under f = ((λ h p. f.0 (h p)), λ h p. f.1 (h p))

pub never : {A : Type 0} → (⊥ × A) ↔ ⊥
never = ((λ p. p.0), λ h. absurd h)

pub same : {A : Type 0} → A ↔ A
same = ((λ a. a), λ a. a)

pub flat3 : {A B C D : Type 0} → A ↔ (B × (C × D)) → A ↔ (B × C × D)
flat3 f = ((λ a. let (b, (c, d)) = f.0 a in (b, c, d)), λ (b, c, d). f.1 (b, (c, d)))

pub flat4 : {A B C D E : Type 0} → A ↔ (B × (C × (D × E))) → A ↔ (B × C × D × E)
flat4 f =
    ((λ a. let (b, (c, (d, e))) = f.0 a in (b, c, d, e)), λ (b, c, d, e). f.1 (b, (c, (d, e))))

pub flat5 : {A B C D E F : Type 0} → A ↔ (B × (C × (D × (E × F)))) → A ↔ (B × C × D × E × F)
flat5 g = (
  (λ a. let (b, (c, (d, (e, f)))) = g.0 a in (b, c, d, e, f)),
  λ (b, c, d, e, f). g.1 (b, (c, (d, (e, f)))),
)
