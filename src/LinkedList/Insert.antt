-- ===== src/LinkedList/Insert.antt =====
-- Insertion at any place of a list, and the four operations that choose the place.
use mos_moody_hunter.Base.{
  ℕ, ◌≡◌, ◌≢◌, refl, sym, ap, ◌∙◌, List, [], ◌∷◌, ◌++◌, arith, append-nil, append_assoc,
}
use mathlib.Core.Path.{subst}
use mos_moody_hunter.LinkedList.{
  Heap, set_prev, set_next, list_node_insert, list_node_prepend, list_node_append,
  list_node_insert_before, list_node_insert_after,
}
use mos_moody_hunter.LinkedList.Chain.{
  Linked, Avoids, Distinct, Holds, last_of, first_of, Avoids-append, last_of-ne, first_of-ne,
  neighbours, Agrees, Agrees-Linked,
}

module _ (h : Heap) (p x n : ℕ) where
  -- The links of a chain of other nodes stay.
  insert-Agrees :
      (c : ℕ) (cs : List ℕ) (z : ℕ)
      → p ≢ c
      → Avoids p cs
      → x ≢ c
      → Avoids x cs
      → x ≢ z
      → Avoids n cs
      → n ≢ z
      → Agrees h (list_node_insert h p x n) c cs z
  unfolding list_node_insert set_prev set_next
  insert-Agrees c [] z pc ps xc xs xz ns nz = (ground arith, ground arith)
  insert-Agrees c (d ∷ cs) z pc ps xc xs xz ns nz =
      (ground arith, ground arith, insert-Agrees d cs z ps.0 ps.1 xs.0 xs.1 xz ns.1 nz)

-- At the front of a chain.
insert_first :
    (h : Heap) (a x : ℕ) (ys : List ℕ) (z : ℕ)
    → Linked h a ys z
    → Distinct ys
    → Avoids a ys
    → Avoids z ys
    → Avoids x ys
    → x ≢ a
    → x ≢ z
    → Linked (list_node_insert h a x (first_of ys z)) a (x ∷ ys) z
unfolding list_node_insert set_prev set_next
insert_first h a x [] z l d fa zs xs xa xz =
    (ground arith, ground arith, (ground arith, ground arith))
insert_first h a x (c ∷ cs) z l d fa zs xs xa xz = (
  ground arith,
  ground (arith, xs.0),
  (
    ground (arith, xs.0),
    ground arith,
    Agrees-Linked h (list_node_insert h a x c) c cs z
        (insert-Agrees h a x c c cs z fa.0 fa.1 xs.0 xs.1 xz d.0 (λ e. zs.0 (sym e))) l.2,
  ),
)

-- At any place of a chain.
insert_inside :
    (h : Heap) (a x : ℕ) (xs ys : List ℕ) (z : ℕ)
    → Linked h a (xs ++ ys) z
    → Distinct (xs ++ ys)
    → Avoids a (xs ++ ys)
    → Avoids z (xs ++ ys)
    → Avoids x (xs ++ ys)
    → x ≢ a
    → x ≢ z
    → Linked (list_node_insert h (last_of a xs) x (first_of ys z)) a (xs ++ x ∷ ys) z
unfolding list_node_insert set_prev set_next
insert_inside h a x [] ys z l d fa zs xs xa xz = insert_first h a x ys z l d fa zs xs xa xz
insert_inside h a x (b ∷ bs) ys z l d fa zs xs xa xz =
    let not_last : a ≢ last_of b bs = last_of-ne a b bs fa.0 ((Avoids-append a bs ys).0 fa.1).0 in
    let not_first : b ≢ first_of ys z =
      first_of-ne b z ys (λ e. zs.0 (sym e)) ((Avoids-append b bs ys).0 d.0).1 in
    (
      ground (arith, l.0),
      ground (arith, l.1, xs.0),
      insert_inside h b x bs ys z l.2 d.1 d.0 zs.1 xs.1 xs.0 xz,
    )

Distinct-insert :
    (x : ℕ) (xs ys : List ℕ) → Distinct (xs ++ ys) → Avoids x (xs ++ ys) → Distinct (xs ++ x ∷ ys)
Distinct-insert x [] ys d n = (n, d)
Distinct-insert x (b ∷ bs) ys d n =
    let parts = (Avoids-append b bs ys).0 d.0 in
    (
      (Avoids-append b bs (x ∷ ys)).1 (parts.0, (λ e. n.0 (sym e), parts.1)),
      Distinct-insert x bs ys d.1 n.1,
    )

-- An insertion between two neighbours of a list.
pub insert-Holds :
    (h : Heap) (head x : ℕ) (xs ys : List ℕ)
    → Holds h head (xs ++ ys)
    → x ≢ head
    → Avoids x (xs ++ ys)
    → Holds (list_node_insert h (last_of head xs) x (first_of ys head)) head (xs ++ x ∷ ys)
insert-Holds h head x xs ys v fresh other =
    let parts = (Avoids-append head xs ys).0 v.apart in
    record {
      linked =
          insert_inside h head x xs ys head v.linked v.distinct v.apart v.apart other fresh fresh;
      distinct = Distinct-insert x xs ys v.distinct other;
      apart = (Avoids-append head xs (x ∷ ys)).1 (parts.0, (λ e. fresh (sym e), parts.1));
    }

last_of-append : (a : ℕ) (xs : List ℕ) (e : ℕ) → last_of a (xs ++ e ∷ []) ≡ e
last_of-append a [] e = refl
last_of-append a (x ∷ xs) e = last_of-append x xs e

module _ (h : Heap) (head x : ℕ) where
  -- `list_node_prepend` and `list_node_append` put a node that is neither the head nor in the list
  -- before all nodes of the list and behind all of them, and leave the list well linked.
  pub prepend_append-Holds :
      (xs : List ℕ)
      → Holds h head xs
      → x ≢ head
      → Avoids x xs
      → Holds (list_node_prepend h head x) head (x ∷ xs)
        × Holds (list_node_append h head x) head (xs ++ x ∷ [])
  unfolding list_node_prepend list_node_append
  prepend_append-Holds xs v fresh other =
      let whole = append-nil xs in
      let v' : Holds h head (xs ++ []) = subst (Holds h head) (sym whole) v in
      let (first, back) = neighbours h head [] xs head v.linked in
      let (next, last) = neighbours h head xs [] head v'.linked in
      (
        rw first (insert-Holds h head x [] xs v fresh other),
        rw last (insert-Holds h head x xs [] v' fresh (subst (Avoids x) (sym whole) other)),
      )

  -- `list_node_insert_before` and `list_node_insert_after` put such a node next to a node of the
  -- list, on the side they are named for, and leave the list well linked.
  pub insert_before_after-Holds :
      (e : ℕ) (xs ys : List ℕ)
      → Holds h head (xs ++ e ∷ ys)
      → x ≢ head
      → Avoids x (xs ++ e ∷ ys)
      → Holds (list_node_insert_before h e x) head (xs ++ x ∷ e ∷ ys)
        × Holds (list_node_insert_after h e x) head (xs ++ e ∷ x ∷ ys)
  unfolding list_node_insert_before list_node_insert_after
  insert_before_after-Holds e xs ys v fresh other =
      let split : (zs : List ℕ) → (xs ++ e ∷ []) ++ zs ≡ xs ++ e ∷ zs = append_assoc xs (e ∷ []) in
      let v' : Holds h head ((xs ++ e ∷ []) ++ ys) = subst (Holds h head) (sym (split ys)) v in
      let (next, prev) = neighbours h head xs (e ∷ ys) head v.linked in
      let (next', prev') = neighbours h head (xs ++ e ∷ []) ys head v'.linked in
      let at : last_of head (xs ++ e ∷ []) ≡ e = last_of-append head xs e in
      (
        rw prev (insert-Holds h head x xs (e ∷ ys) v fresh other),
        subst (λ k. Holds (list_node_insert h e x k) head (xs ++ e ∷ x ∷ ys))
            (sym next' ∙ ap h.next at)
            (subst (λ k. Holds (list_node_insert h k x (first_of ys head)) head (xs ++ e ∷ x ∷ ys))
              at
              (subst
                (Holds (list_node_insert h (last_of head (xs ++ e ∷ [])) x (first_of ys head)) head)
                (split (x ∷ ys))
                (insert-Holds h head x (xs ++ e ∷ []) ys v' fresh
                  (subst (Avoids x) (sym (split ys)) other)))),
      )
