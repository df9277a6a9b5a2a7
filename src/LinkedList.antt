-- ===== src/LinkedList.antt =====
-- kernel/lib/structures/list.c and its header: circular, doubly linked lists whose nodes stand inside
-- other structs. The heap is the two pointers of the node at each address; all addresses that a list
-- uses are those of nodes. A statement of the source is one store here, with its reads made when the
-- source makes them.
pub mod Chain
pub mod Insert
pub mod Remove
pub mod Loop
use mos_moody_hunter.Base.{
  ℕ, zero, suc, Bool, true, false, Option, none, some, List, [], ◌∷◌, ◌==◌, if◌then◌else◌, ◌>>=◌,
}

-- `list_node_t` at every address
pub record Heap : Type 0 where
  pub prev : ℕ → ℕ
  pub next : ℕ → ℕ

-- `node->prev = value` and `node->next = value`
unfoldable pub set_prev : Heap → ℕ → ℕ → Heap
set_prev h node value = record h { prev = λ k. if k == node then value else h.prev k }

unfoldable pub set_next : Heap → ℕ → ℕ → Heap
set_next h node value = record h { next = λ k. if k == node then value else h.next k }

unfoldable pub linked_list_init : Heap → ℕ → Heap
linked_list_init h node = set_next (set_prev h node node) node node

unfoldable pub list_is_empty : Heap → ℕ → Bool
list_is_empty h head = h.next head == head

unfoldable pub list_node_remove : Heap → ℕ → Heap
list_node_remove h node =
    let h₁ = set_next h (h.prev node) (h.next node) in
    let h₂ = set_prev h₁ (h₁.next node) (h₁.prev node) in
    let h₃ = set_next h₂ node node in set_prev h₃ node node

unfoldable pub list_node_insert : Heap → ℕ → ℕ → ℕ → Heap
list_node_insert h prev new_node next =
    let h₁ = set_prev h new_node prev in
    let h₂ = set_next h₁ new_node next in
    let h₃ = set_next h₂ prev new_node in set_prev h₃ next new_node

unfoldable pub list_node_pop : Heap → ℕ → ℕ × Heap
list_node_pop h head = let node = h.next head in (node, list_node_remove h node)

unfoldable pub list_node_prepend : Heap → ℕ → ℕ → Heap
list_node_prepend h head item = list_node_insert h head item (h.next head)

unfoldable pub list_node_append : Heap → ℕ → ℕ → Heap
list_node_append h head item = list_node_insert h (h.prev head) item head

unfoldable pub list_node_insert_before : Heap → ℕ → ℕ → Heap
list_node_insert_before h element item = list_node_insert h (h.prev element) item element

unfoldable pub list_node_insert_after : Heap → ℕ → ℕ → Heap
list_node_insert_after h element item = list_node_insert h element item (h.next element)

-- `list_node_foreach(v, h)` on fuel: the address of the next node is read before the body runs on this
-- one. The body works on the heap and on a state of its own.
unfoldable pub foreach_from {ℓ} :
    {S : Type ℓ} → ℕ → ℕ → (ℕ → Heap → S → Heap × S) → ℕ → ℕ → Heap → S → Option (Heap × S)
foreach_from zero head body v next h s = none
foreach_from (suc fuel) head body v next h s = elim (v == head) [
  | true ↦ some (h, s)
  | false ↦ let (h', s') = body v h s in foreach_from fuel head body next (h'.next next) h' s'
]

unfoldable pub list_node_foreach {ℓ} :
    {S : Type ℓ} → ℕ → ℕ → (ℕ → Heap → S → Heap × S) → Heap → S → Option (Heap × S)
list_node_foreach fuel head body h s =
    foreach_from fuel head body (h.next head) (h.next (h.next head)) h s
