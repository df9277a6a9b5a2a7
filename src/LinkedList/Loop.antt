-- ===== src/LinkedList/Loop.antt =====
-- A loop over a list whose body takes nodes out.
use mos_moody_hunter.Base.{
  ℕ, zero, suc, ◌+◌, ◌<◌, ◌≡◌, refl, sym, ◌∙◌, Returns, Bool, true, false, List, [], ◌∷◌, ◌++◌,
  length, ◌==◌, if◌then◌else◌, arith, append-nil, append_assoc, Bool-cases, inl, inr,
}
use mathlib.Core.Path.{subst}
use mos_moody_hunter.LinkedList.{Heap, list_node_remove, list_node_foreach, foreach_from}
use mos_moody_hunter.LinkedList.Chain.{Avoids-append, Holds, first_of, neighbours}
use mos_moody_hunter.LinkedList.Remove.{list_node_remove-Holds, next_of}

-- A body that notes the node and takes it out of the list if the test says so.
abbrev pub note_and_remove : (ℕ → Bool) → ℕ → Heap → List ℕ → Heap × List ℕ
note_and_remove test v h seen = (if test v then list_node_remove h v else h, seen ++ v ∷ [])

-- The nodes that stay.
abbrev pub kept : (ℕ → Bool) → List ℕ → List ℕ
kept test [] = []
kept test (x ∷ xs) = if test x then kept test xs else x ∷ kept test xs

module _ (test : ℕ → Bool) (head : ℕ) where
  -- `ks` have been kept so far, `ys` are to come.
  foreach_from-Holds :
      (fuel : ℕ) (ks ys : List ℕ) (h : Heap) (seen : List ℕ)
      → length ys < fuel
      → Holds h head (ks ++ ys)
      → Returns
          (foreach_from fuel head
            (note_and_remove test)
            (first_of ys head)
            (h.next (first_of ys head))
            h
            seen)
          (λ r. (r.1 ≡ seen ++ ys) × Holds r.0 head (ks ++ kept test ys))
  unfolding foreach_from
  foreach_from-Holds zero ks ys h seen enough v = absurd (omega arith)
  foreach_from-Holds (suc fuel) ks [] h seen enough v =
      let here : (head == head) ≡ true = ground arith in
      ((h, seen), rw (foreach_from, here) refl, (sym (append-nil seen), v))
  foreach_from-Holds (suc fuel) ks (y ∷ ys) h seen enough v =
      let apart = ((Avoids-append head ks (y ∷ ys)).0 v.apart).1 in
      let other : (y == head) ≡ false = ground (arith, apart.0) in
      let one_more : (seen ++ y ∷ []) ++ ys ≡ seen ++ y ∷ ys = append_assoc seen (y ∷ []) ys in
      let split : (zs : List ℕ) → (ks ++ y ∷ []) ++ zs ≡ ks ++ y ∷ zs = append_assoc ks (y ∷ []) in
      let v' : Holds h head ((ks ++ y ∷ []) ++ ys) = subst (Holds h head) (sym (split ys)) v in
      let next : h.next y ≡ first_of ys head = next_of h head y ks ys head v.linked in
      elim (Bool-cases (test y)) [
        | inl out ↦
            let (r, run, (all, held)) =
              foreach_from-Holds fuel ks ys (list_node_remove h y) (seen ++ y ∷ []) (omega arith)
                (list_node_remove-Holds h head y ks ys v).0 in
            (
              r,
              rw (foreach_from, other, out, if◌then◌else◌, next) run,
              (all ∙ one_more, rw (out, if◌then◌else◌) held),
            )
        | inr stays ↦
            let (r, run, (all, held)) =
              foreach_from-Holds fuel (ks ++ y ∷ []) ys h (seen ++ y ∷ []) (omega arith) v' in
            (
              r,
              rw (foreach_from, other, stays, if◌then◌else◌, next) run,
              (
                all ∙ one_more,
                rw (stays, if◌then◌else◌) (subst (Holds r.0 head) (split (kept test ys)) held),
              ),
            )
      ]

-- `list_node_foreach` on a well-linked list, with a body that takes out the nodes for which a test
-- holds, ends after one round more than there are nodes. It comes to each node once, in order, though
-- the node it stands on may be out of the list, and leaves a well-linked list of the other nodes.
pub list_node_foreach-Holds :
    (test : ℕ → Bool) (h : Heap) (head : ℕ) (xs : List ℕ)
    → Holds h head xs
    → Returns
        (list_node_foreach (length xs + 1) head (note_and_remove test) h [])
        (λ r. (r.1 ≡ xs) × Holds r.0 head (kept test xs))
unfolding list_node_foreach
list_node_foreach-Holds test h head xs v =
    let (first, back) = neighbours h head [] xs head v.linked in
    rw first (foreach_from-Holds test head (length xs + 1) [] xs h [] (omega arith) v)
