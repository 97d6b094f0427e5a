-- ===== src/Towers/Pool.antt =====
-- Chains of nodes in the pool, and what an update of a node that is not in a chain does to it.
use cellift_meta.Base.{
  ℕ, ◌≡◌, ◌≢◌, refl, sym, ap, ◌∙◌, Option, none, some, List, [], ◌∷◌, All, map, store, ==_false,
  store_other,
}
use cellift_meta.Towers.{Peg}

-- From `h` on, `next` leads through the nodes `ns` to NULL.
abbrev pub Chain : (ℕ → Option ℕ) → Option ℕ → List ℕ → Type 0
Chain next h [] = h ≡ none
Chain next h (n ∷ ns) = (h ≡ some n) × Chain next (next n) ns

abbrev pub Apart : ℕ → List ℕ → Type 0
Apart n = All (λ m. m ≢ n)

abbrev pub Distinct : List ℕ → Type 0
Distinct [] = Unit
Distinct (n ∷ ns) = Apart n ns × Distinct ns

pub Chain-store :
    (next : ℕ → Option ℕ) (h : Option ℕ) (ns : List ℕ) (n : ℕ) (p : Option ℕ)
    → Apart n ns
    → Chain next h ns
    → Chain (store next n p) h ns
Chain-store next h [] n p a c = c
Chain-store next h (m ∷ ns) n p a c =
    (c.0, rw (store_other next n m p (==_false m n a.0)) (Chain-store next (next m) ns n p a.1 c.1))

pub map-store :
    (val : ℕ → ℕ) (ns : List ℕ) (n v : ℕ) → Apart n ns → map (store val n v) ns ≡ map val ns
map-store val [] n v a = refl
map-store val (m ∷ ns) n v a = rw (==_false m n a.0, map-store val ns n v a.1) refl

module _ (owner : ℕ → Option Peg) where
  abbrev pub OwnedBy : Option Peg → List ℕ → Type 0
  OwnedBy o = All (λ n. owner n ≡ o)

  pub OwnedBy-Apart :
      (o o' : Option Peg) (ns : List ℕ) (n : ℕ) → owner n ≡ o' → o ≢ o' → OwnedBy o ns → Apart n ns
  OwnedBy-Apart o o' [] n e ne h = tt
  OwnedBy-Apart o o' (m ∷ ns) n e ne h =
      (λ eq. ne (sym h.0 ∙ ap owner eq ∙ e), OwnedBy-Apart o o' ns n e ne h.1)

pub OwnedBy-store :
    (owner : ℕ → Option Peg) (o o' : Option Peg) (ns : List ℕ) (n : ℕ)
    → Apart n ns
    → OwnedBy owner o ns
    → OwnedBy (store owner n o') o ns
OwnedBy-store owner o o' [] n a h = tt
OwnedBy-store owner o o' (m ∷ ns) n a h =
    (store_other owner n m o' (==_false m n a.0) ∙ h.0, OwnedBy-store owner o o' ns n a.1 h.1)
