-- ===== src/LinkedList/Chain.antt =====
-- The sequence of nodes that a list stands for.
use mos_moody_hunter.Base.{ℕ, ◌≡◌, ◌≢◌, ◌↔◌, refl, ◌∙◌, true, List, [], ◌∷◌, ◌++◌, arith}
use mos_moody_hunter.LinkedList.{Heap, set_prev, set_next, linked_list_init, list_is_empty}

-- The nodes `xs` are linked in order, both ways, between `a` and `z`.
abbrev pub Linked : Heap → ℕ → List ℕ → ℕ → Type 0
Linked h a [] z = (h.next a ≡ z) × (h.prev z ≡ a)
Linked h a (x ∷ xs) z = (h.next a ≡ x) × (h.prev x ≡ a) × Linked h x xs z

-- The node is none of the list.
abbrev pub Avoids : ℕ → List ℕ → Type 0
Avoids x [] = Unit {0}
Avoids x (y ∷ ys) = (x ≢ y) × Avoids x ys

abbrev pub Distinct : List ℕ → Type 0
Distinct [] = Unit {0}
Distinct (x ∷ xs) = Avoids x xs × Distinct xs

-- The list with this head holds the nodes `xs`.
pub record Holds (h : Heap) (head : ℕ) (xs : List ℕ) : Type 0 where
  pub linked : Linked h head xs head
  pub distinct : Distinct xs
  pub apart : Avoids head xs

-- The last of `a` and `xs`, and the first of `xs` and `z`.
abbrev pub last_of : ℕ → List ℕ → ℕ
last_of a [] = a
last_of a (x ∷ xs) = last_of x xs

abbrev pub first_of : List ℕ → ℕ → ℕ
first_of [] z = z
first_of (x ∷ xs) z = x

pub Avoids-append : (x : ℕ) (xs ys : List ℕ) → Avoids x (xs ++ ys) ↔ (Avoids x xs × Avoids x ys)
Avoids-append x [] ys = (λ h. (tt, h), λ h. h.1)
Avoids-append x (y ∷ xs) ys = (
  λ (n, h). let r = (Avoids-append x xs ys).0 h in ((n, r.0), r.1),
  λ ((n, h), h'). (n, (Avoids-append x xs ys).1 (h, h')),
)

pub last_of-ne : (x a : ℕ) (xs : List ℕ) → x ≢ a → Avoids x xs → x ≢ last_of a xs
last_of-ne x a [] n h = n
last_of-ne x a (y ∷ xs) n h = last_of-ne x y xs h.0 h.1

pub first_of-ne : (x z : ℕ) (xs : List ℕ) → x ≢ z → Avoids x xs → x ≢ first_of xs z
first_of-ne x z [] n h = n
first_of-ne x z (y ∷ xs) n h = h.0

-- The neighbours of a place in a chain point to each other.
pub neighbours :
    (h : Heap) (a : ℕ) (xs ys : List ℕ) (z : ℕ)
    → Linked h a (xs ++ ys) z
    → (h.next (last_of a xs) ≡ first_of ys z) × (h.prev (first_of ys z) ≡ last_of a xs)
neighbours h a [] [] z l = l
neighbours h a [] (y ∷ ys) z l = (l.0, l.1)
neighbours h a (x ∷ xs) ys z (n, p, l) = neighbours h x xs ys z l

-- The two heaps have the same links between `a` and `z`.
abbrev pub Agrees : Heap → Heap → ℕ → List ℕ → ℕ → Type 0
Agrees h h' a [] z = (h'.next a ≡ h.next a) × (h'.prev z ≡ h.prev z)
Agrees h h' a (x ∷ xs) z = (h'.next a ≡ h.next a) × (h'.prev x ≡ h.prev x) × Agrees h h' x xs z

pub Agrees-Linked :
    (h h' : Heap) (a : ℕ) (xs : List ℕ) (z : ℕ)
    → Agrees h h' a xs z
    → Linked h a xs z
    → Linked h' a xs z
Agrees-Linked h h' a [] z (n, p) (n', p') = (n ∙ n', p ∙ p')
Agrees-Linked h h' a (x ∷ xs) z (n, p, r) (n', p', l) =
    (n ∙ n', p ∙ p', Agrees-Linked h h' x xs z r l)

-- `linked_list_init` makes the node an empty list of its own.
pub linked_list_init-Holds : (h : Heap) (node : ℕ) → Holds (linked_list_init h node) node []
unfolding linked_list_init set_next set_prev
linked_list_init-Holds h node = record {
  linked = (ground arith, ground arith);
  distinct = tt;
  apart = tt;
}

-- A list is empty exactly if it holds no node.
pub list_is_empty_iff :
    (h : Heap) (head : ℕ) (xs : List ℕ)
    → Holds h head xs
    → (list_is_empty h head ≡ true) ↔ (xs ≡ [])
unfolding list_is_empty
list_is_empty_iff h head [] v = (λ e. refl, λ e. ground (arith, v.linked.0))
list_is_empty_iff h head (x ∷ xs) v =
    (λ e. absurd (v.apart.0 (ground (arith, v.linked.0, e))), λ e. absurd (cc))
