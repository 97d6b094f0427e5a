-- ===== src/Towers/Stacks.antt =====
-- `list_push` and `list_pop` act on the lists of the pegs as on stacks.
use cellift_meta.Base.{
  ℕ, suc, ◌≡◌, refl, ap, subst, ◌∙◌, inl, inr, Option, none, some, List, [], ◌∷◌, map, length,
  arith, store, ==_self, Bool-cases,
}
use cellift_meta.Towers.{Peg, peg_eq, put, Heap, push_node, pop_node, list_push, list_pop}
use cellift_meta.Towers.Pool.{Apart, Chain, map-store, OwnedBy-Apart}
use cellift_meta.Towers.Linked.{IsLinked, none-some, push_node-IsLinked, pop_node-IsLinked}

-- `room` nodes are free, and the list of each peg holds its stack of `s`.
pub record IsStacks (h : Heap) (room : ℕ) (s : Peg → List ℕ) : Type 0 where
  pub unused : List ℕ
  pub nodes : Peg → List ℕ
  pub owner : ℕ → Option Peg
  pub linked : IsLinked h unused nodes owner
  pub rooms : length unused ≡ room
  pub values : (p : Peg) → map h.val (nodes p) ≡ s p

push-unused :
    (h : Heap) (room : ℕ) (s : Peg → List ℕ) (p : Peg) (v : ℕ) (unused : List ℕ)
    (nodes : Peg → List ℕ) (owner : ℕ → Option Peg)
    → IsLinked h unused nodes owner
    → length unused ≡ suc room
    → ((q : Peg) → map h.val (nodes q) ≡ s q)
    → (h' : Heap) × (list_push h p v ≡ some h') × IsStacks h' room (put s p (v ∷ s p))
unfolding list_push
push-unused h room s p v [] nodes owner l r values = absurd (omega arith)
push-unused h room s p v (n ∷ fs) nodes owner l r values =
    let apart : (q : Peg) → Apart n (nodes q) =
      λ q. OwnedBy-Apart owner (some q) none (nodes q) n l.free_owned.0 none-some (l.owned q) in
    let kept : (q : Peg) → map (store h.val n v) (nodes q) ≡ s q =
      λ q. map-store h.val (nodes q) n v (apart q) ∙ values q in
    (
      push_node h p v n,
      rw (l.free_chain.0) refl,
      record {
        unused = fs;
        nodes = put nodes p (n ∷ nodes p);
        owner = store owner n (some p);
        linked = push_node-IsLinked h p v n fs nodes owner l;
        rooms = omega arith;
        values = λ q. elim (Bool-cases (peg_eq q p)) [
          | inl same ↦ rw (same, ==_self n, kept p) refl
          | inr other ↦ rw (other) (kept q)
        ];
      },
    )

-- While a node is free, `list_push` puts a value on the stack of its peg, and leaves the other
-- stacks as they were.
pub list_push-IsStacks :
    (h : Heap) (room : ℕ) (s : Peg → List ℕ) (p : Peg) (v : ℕ)
    → IsStacks h (suc room) s
    → (h' : Heap) × (list_push h p v ≡ some h') × IsStacks h' room (put s p (v ∷ s p))
list_push-IsStacks h room s p v st =
    push-unused h room s p v st.unused st.nodes st.owner st.linked st.rooms st.values

pop-nodes :
    (h : Heap) (room : ℕ) (s : Peg → List ℕ) (p : Peg) (v : ℕ) (vs : List ℕ)
    (st : IsStacks h room s) (l : List ℕ)
    → st.nodes p ≡ l
    → map h.val l ≡ v ∷ vs
    → (h' : Heap) × (list_pop h p ≡ some (v, h')) × IsStacks h' (suc room) (put s p vs)
unfolding list_pop
pop-nodes h room s p v vs st [] e values = absurd (cc)
pop-nodes h room s p v vs st (n ∷ ns) e values =
    let chain : Chain h.next (h.head p) (n ∷ ns) =
      subst (Chain h.next (h.head p)) e (st.linked.chains p) in
    (
      pop_node h p n,
      rw (chain.0, list_pop) (ap (λ (x : ℕ). some (x, pop_node h p n)) cc),
      record {
        unused = n ∷ st.unused;
        nodes = put st.nodes p ns;
        owner = store st.owner n none;
        linked = pop_node-IsLinked h p n ns st.unused st.nodes st.owner e st.linked;
        rooms = omega (arith, st.rooms);
        values = λ q. elim (Bool-cases (peg_eq q p)) [
          | inl same ↦ rw (same) cc
          | inr other ↦ rw (other) (st.values q)
        ];
      },
    )

-- `list_pop` takes the top value off the stack of its peg and returns it, and leaves the other
-- stacks as they were; its node becomes free.
pub list_pop-IsStacks :
    (h : Heap) (room : ℕ) (s : Peg → List ℕ) (p : Peg) (v : ℕ) (vs : List ℕ)
    → IsStacks h room s
    → s p ≡ v ∷ vs
    → (h' : Heap) × (list_pop h p ≡ some (v, h')) × IsStacks h' (suc room) (put s p vs)
list_pop-IsStacks h room s p v vs st e =
    pop-nodes h room s p v vs st (st.nodes p) refl (st.values p ∙ e)
