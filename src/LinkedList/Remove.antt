-- ===== src/LinkedList/Remove.antt =====
-- Removal of a node from the list that it is in.
use mos_moody_hunter.Base.{ℕ, ◌≡◌, ◌≢◌, sym, ap, List, [], ◌∷◌, ◌++◌, arith, drop}
use mos_moody_hunter.LinkedList.{Heap, set_prev, set_next, list_node_remove, list_node_pop}
use mos_moody_hunter.LinkedList.Chain.{
  Linked, Avoids, Distinct, Holds, last_of, first_of, Avoids-append, last_of-ne, first_of-ne,
  neighbours, Agrees, Agrees-Linked,
}

-- The four stores, with the neighbours that the code reads.
unfoldable unlinked : Heap → ℕ → ℕ → ℕ → Heap
unlinked h p x n = set_prev (set_next (set_prev (set_next h p n) n p) x x) x x

list_node_remove-eq-unlinked :
    (h : Heap) (x : ℕ) → list_node_remove h x ≡ unlinked h (h.prev x) x (h.next x)
unfolding list_node_remove unlinked set_prev set_next
list_node_remove-eq-unlinked h x =
    ap (λ n. set_prev (set_next (set_prev (set_next h (h.prev x) (h.next x)) n (h.prev x)) x x) x x)
      (ground arith)

module _ (h : Heap) (p x n : ℕ) where
  -- The links of a chain of other nodes stay.
  unlinked-Agrees :
      (c : ℕ) (cs : List ℕ) (z : ℕ)
      → p ≢ c
      → Avoids p cs
      → x ≢ c
      → Avoids x cs
      → x ≢ z
      → Avoids n cs
      → n ≢ z
      → Agrees h (unlinked h p x n) c cs z
  unfolding unlinked set_prev set_next
  unlinked-Agrees c [] z pc ps xc xs xz ns nz = (ground arith, ground arith)
  unlinked-Agrees c (d ∷ cs) z pc ps xc xs xz ns nz =
      (ground arith, ground arith, unlinked-Agrees d cs z ps.0 ps.1 xs.0 xs.1 xz ns.1 nz)

-- The first node of a chain.
unlink_first :
    (h : Heap) (a x : ℕ) (ys : List ℕ) (z : ℕ)
    → Linked h a (x ∷ ys) z
    → Distinct ys
    → Avoids a ys
    → Avoids z ys
    → Avoids x ys
    → x ≢ a
    → x ≢ z
    → Linked (unlinked h a x (first_of ys z)) a ys z
unfolding unlinked set_prev set_next
unlink_first h a x [] z l d fa zs xs xa xz = (ground arith, ground arith)
unlink_first h a x (c ∷ cs) z l d fa zs xs xa xz = (
  ground (arith, xs.0),
  ground (arith, xs.0),
  Agrees-Linked h (unlinked h a x c) c cs z
      (unlinked-Agrees h a x c c cs z fa.0 fa.1 xs.0 xs.1 xz d.0 (λ e. zs.0 (sym e))) l.2.2,
)

-- A node at any place of a chain.
unlink_inside :
    (h : Heap) (a x : ℕ) (xs ys : List ℕ) (z : ℕ)
    → Linked h a (xs ++ x ∷ ys) z
    → Distinct (xs ++ ys)
    → Avoids a (xs ++ ys)
    → Avoids z (xs ++ ys)
    → Avoids x (xs ++ ys)
    → x ≢ a
    → x ≢ z
    → Linked (unlinked h (last_of a xs) x (first_of ys z)) a (xs ++ ys) z
unfolding unlinked set_prev set_next
unlink_inside h a x [] ys z l d fa zs xs xa xz = unlink_first h a x ys z l d fa zs xs xa xz
unlink_inside h a x (b ∷ bs) ys z l d fa zs xs xa xz =
    let not_last : a ≢ last_of b bs = last_of-ne a b bs fa.0 ((Avoids-append a bs ys).0 fa.1).0 in
    let not_first : b ≢ first_of ys z =
      first_of-ne b z ys (λ e. zs.0 (sym e)) ((Avoids-append b bs ys).0 d.0).1 in
    (
      ground (arith, l.0),
      ground (arith, l.1, xs.0),
      unlink_inside h b x bs ys z l.2 d.1 d.0 zs.1 xs.1 xs.0 xz,
    )

-- Without the node in the middle.
Avoids-middle : (k x : ℕ) (xs ys : List ℕ) → Avoids k (xs ++ x ∷ ys) → (k ≢ x) × Avoids k (xs ++ ys)
Avoids-middle k x xs ys h =
    let (left, right) = (Avoids-append k xs (x ∷ ys)).0 h in
    (right.0, (Avoids-append k xs ys).1 (left, right.1))

Distinct-middle :
    (x : ℕ) (xs ys : List ℕ) → Distinct (xs ++ x ∷ ys) → Avoids x (xs ++ ys) × Distinct (xs ++ ys)
Distinct-middle x [] ys d = d
Distinct-middle x (b ∷ bs) ys d =
    let (other, away) = Avoids-middle b x bs ys d.0 in
    let (rest, d') = Distinct-middle x bs ys d.1 in ((λ e. other (sym e), rest), (away, d'))

pub next_of :
    (h : Heap) (a x : ℕ) (xs ys : List ℕ) (z : ℕ)
    → Linked h a (xs ++ x ∷ ys) z
    → h.next x ≡ first_of ys z
next_of h a x [] [] z l = l.2.0
next_of h a x [] (y ∷ ys) z l = l.2.0
next_of h a x (b ∷ xs) ys z l = next_of h b x xs ys z l.2

removed_alone : (h : Heap) (x : ℕ) → Linked (list_node_remove h x) x [] x
unfolding list_node_remove set_prev set_next
removed_alone h x = (ground arith, ground arith)

-- `list_node_remove` of a node of a well-linked list takes exactly this node out, keeps the others in
-- order and the list well linked, and leaves the node an empty list of its own.
pub list_node_remove-Holds :
    (h : Heap) (head x : ℕ) (xs ys : List ℕ)
    → Holds h head (xs ++ x ∷ ys)
    → Holds (list_node_remove h x) head (xs ++ ys) × Holds (list_node_remove h x) x []
list_node_remove-Holds h head x xs ys v =
    let (other, away) = Avoids-middle head x xs ys v.apart in
    let (fresh, distinct) = Distinct-middle x xs ys v.distinct in
    let apart : x ≢ head = λ e. other (sym e) in
    let (before, prev) = neighbours h head xs (x ∷ ys) head v.linked in
    (
      record {
        linked =
            rw (list_node_remove-eq-unlinked, prev, next_of h head x xs ys head v.linked)
              (unlink_inside h head x xs ys head v.linked distinct away away fresh apart apart);
        distinct = distinct;
        apart = away;
      },
      record { linked = removed_alone h x; distinct = tt; apart = tt },
    )

-- `list_node_pop` of a well-linked list returns its first node and takes it out; of an empty list it
-- returns the head. The list stays well linked.
pub list_node_pop-Holds :
    (h : Heap) (head : ℕ) (xs : List ℕ)
    → Holds h head xs
    → ((list_node_pop h head).0 ≡ first_of xs head)
      × Holds (list_node_pop h head).1 head (drop 1 xs)
unfolding list_node_pop
list_node_pop-Holds h head [] v = (
  v.linked.0,
  rw v.linked.0 (record { linked = removed_alone h head; distinct = tt; apart = tt }),
)
list_node_pop-Holds h head (x ∷ xs) v =
    (v.linked.0, rw v.linked.0 (list_node_remove-Holds h head x [] xs v).0)
