-- ===== src/Towers/Linked.antt =====
-- The lists of the pegs and the free list share the pool without overlap, which `list_push` and
-- `list_pop` preserve.
use cellift_meta.Base.{
  ℕ, ◌≡◌, ◌≢◌, refl, sym, ap, subst, ◌∙◌, inl, inr, true, false, Option, none, some, List, ◌∷◌,
  length, arith, store, ==_self, Bool-cases,
}
use cellift_meta.Towers.{Peg, peg_a, peg_b, peg_c, peg_eq, put, Heap, push_node, pop_node}
use cellift_meta.Towers.Pool.{
  Chain, Apart, Distinct, Chain-store, OwnedBy, OwnedBy-Apart, OwnedBy-store,
}

-- The free list runs through `unused` and the list of a peg through the nodes of that peg, no node
-- is in two lists or twice in one, and the sizes are right.
pub record IsLinked (h : Heap) (unused : List ℕ) (nodes : Peg → List ℕ) (owner : ℕ → Option Peg)
    : Type 0 where
  pub free_chain : Chain h.next h.free unused
  pub chains : (p : Peg) → Chain h.next (h.head p) (nodes p)
  pub free_owned : OwnedBy owner none unused
  pub owned : (p : Peg) → OwnedBy owner (some p) (nodes p)
  pub free_distinct : Distinct unused
  pub distinct : (p : Peg) → Distinct (nodes p)
  pub sizes : (p : Peg) → h.size p ≡ length (nodes p)

peg_eq-true : (p q : Peg) → peg_eq p q ≡ true → p ≡ q
peg_eq-true peg_a peg_a h = refl
peg_eq-true peg_b peg_b h = refl
peg_eq-true peg_c peg_c h = refl
peg_eq-true peg_a peg_b h = cc
peg_eq-true peg_a peg_c h = cc
peg_eq-true peg_b peg_a h = cc
peg_eq-true peg_b peg_c h = cc
peg_eq-true peg_c peg_a h = cc
peg_eq-true peg_c peg_b h = cc

pub peg_eq_self : (p : Peg) → peg_eq p p ≡ true
peg_eq_self peg_a = refl
peg_eq_self peg_b = refl
peg_eq_self peg_c = refl

peg_eq-false : (p q : Peg) → peg_eq p q ≡ false → some p ≢ some q
peg_eq-false p q h e =
    let eq : p ≡ q = cc in
    let both : true ≡ false = sym (peg_eq_self p) ∙ ap (peg_eq p) eq ∙ h in cc

module _ {A : Type 0} (f : Peg → A) (p q : Peg) (a : A) where
  pub put_same : peg_eq q p ≡ true → put f p a q ≡ a
  put_same h = rw (h) refl

  pub put_other : peg_eq q p ≡ false → put f p a q ≡ f q
  put_other h = rw (h) refl

-- A property of each peg after an update: of the new value for the peg itself, of the old one else.
pub put-all :
    {A : Type 0} (P : Peg → A → Type 0) (f : Peg → A) (p : Peg) (a : A)
    → P p a
    → ((q : Peg) → some q ≢ some p → P q (f q))
    → (q : Peg) → P q (put f p a q)
put-all P f p a new old q = elim (Bool-cases (peg_eq q p)) [
  | inl same ↦ rw (same, peg_eq-true q p same) new
  | inr other ↦ rw (other) (old q (peg_eq-false q p other))
]

pub none-some : {A : Type 0} {a : A} → some a ≢ none
none-some e = cc

pub push_node-IsLinked :
    (h : Heap) (p : Peg) (v n : ℕ) (fs : List ℕ) (nodes : Peg → List ℕ) (owner : ℕ → Option Peg)
    → IsLinked h (n ∷ fs) nodes owner
    → IsLinked (push_node h p v n) fs (put nodes p (n ∷ nodes p)) (store owner n (some p))
push_node-IsLinked h p v n fs nodes owner l =
    let apart : (q : Peg) → Apart n (nodes q) =
      λ q. OwnedBy-Apart owner (some q) none (nodes q) n l.free_owned.0 none-some (l.owned q) in
    record {
      free_chain = Chain-store h.next (h.next n) fs n (h.head p) l.free_distinct.0 l.free_chain.1;
      chains = λ q. elim (Bool-cases (peg_eq q p)) [
        | inl same ↦ rw (same) (
          refl,
          rw (==_self n)
              (Chain-store h.next (h.head p) (nodes p) n (h.head p) (apart p) (l.chains p)),
        )
        | inr other ↦
            rw (other) (Chain-store h.next (h.head q) (nodes q) n (h.head p) (apart q) (l.chains q))
      ];
      free_owned = OwnedBy-store owner none (some p) fs n l.free_distinct.0 l.free_owned.1;
      owned =
          put-all (λ q ns. OwnedBy (store owner n (some p)) (some q) ns) nodes p (n ∷ nodes p)
            (
              rw (==_self n) refl,
              OwnedBy-store owner (some p) (some p) (nodes p) n (apart p) (l.owned p),
            )
            (λ q ne. OwnedBy-store owner (some q) (some p) (nodes q) n (apart q) (l.owned q));
      free_distinct = l.free_distinct.1;
      distinct =
          put-all (λ q ns. Distinct ns) nodes p (n ∷ nodes p) (apart p, l.distinct p)
            (λ q ne. l.distinct q);
      sizes = λ q. elim (Bool-cases (peg_eq q p)) [
        | inl same ↦ rw (same) (omega (arith, l.sizes p))
        | inr other ↦ rw (other) (l.sizes q)
      ];
    }

pub pop_node-IsLinked :
    (h : Heap) (p : Peg) (n : ℕ) (ns fs : List ℕ) (nodes : Peg → List ℕ) (owner : ℕ → Option Peg)
    → nodes p ≡ n ∷ ns
    → IsLinked h fs nodes owner
    → IsLinked (pop_node h p n) (n ∷ fs) (put nodes p ns) (store owner n none)
pop_node-IsLinked h p n ns fs nodes owner e l =
    let chain : Chain h.next (h.head p) (n ∷ ns) = subst (Chain h.next (h.head p)) e (l.chains p) in
    let mine : OwnedBy owner (some p) (n ∷ ns) = subst (OwnedBy owner (some p)) e (l.owned p) in
    let once : Distinct (n ∷ ns) = subst Distinct e (l.distinct p) in
    let unused : Apart n fs =
      OwnedBy-Apart owner none (some p) fs n mine.0 (λ eq. none-some (sym eq)) l.free_owned in
    let apart : (q : Peg) → some q ≢ some p → Apart n (nodes q) =
      λ q ne. OwnedBy-Apart owner (some q) (some p) (nodes q) n mine.0 ne (l.owned q) in
    record {
      free_chain =
          (refl, rw (==_self n) (Chain-store h.next h.free fs n h.free unused l.free_chain));
      chains = λ q. elim (Bool-cases (peg_eq q p)) [
        | inl same ↦ rw (same) (Chain-store h.next (h.next n) ns n h.free once.0 chain.1)
        | inr other ↦ rw (other) (
            Chain-store h.next (h.head q) (nodes q) n h.free (apart q (peg_eq-false q p other))
              (l.chains q))
      ];
      free_owned = (rw (==_self n) refl, OwnedBy-store owner none none fs n unused l.free_owned);
      owned =
          put-all (λ q ns. OwnedBy (store owner n none) (some q) ns) nodes p ns
            (OwnedBy-store owner (some p) none ns n once.0 mine.1)
            (λ q ne. OwnedBy-store owner (some q) none (nodes q) n (apart q ne) (l.owned q));
      free_distinct = (unused, l.free_distinct);
      distinct = put-all (λ q ns. Distinct ns) nodes p ns once.1 (λ q ne. l.distinct q);
      sizes = λ q. elim (Bool-cases (peg_eq q p)) [
        | inl same ↦ rw (same) (omega (arith, l.sizes p, ap length e))
        | inr other ↦ rw (other) (l.sizes q)
      ];
    }
