-- ===== src/HashMap.antt =====
-- kernel/lib/structures/hashmap.c and its header: a chained hash map from machine words to pointers. A
-- chain is the list of its entries, each of which the map owns. An operation holds the map's spinlock
-- from its first access to its return, so it is one step here; `hashmap_foreach` takes no lock, and is
-- modelled on a map that nobody else changes meanwhile. `none` is a failed assertion, a panic, a
-- division by zero or an access through a bad pointer.
pub mod Chain
pub mod Valid
pub mod Laws
pub mod Walk
use mos_moody_hunter.Base.{
  ℕ, zero, suc, ◌+◌, ◌*◌, ◌^◌, Bool, true, false, Option, none, some, List, [], ◌∷◌, ◌++◌,
  get_elem?, set, replicate, ◌==◌, if◌then◌else◌, ◌>>=◌, add64, sub64, rem, length,
}

-- `MOS_FOURCC('H', 'M', 'a', 'p')`
abbrev pub hashmap_magic : ℕ
hashmap_magic = b'H' + b'M' * 2 ^ 8 + b'a' * 2 ^ 16 + b'p' * 2 ^ 24

-- `NULL`
abbrev pub null : ℕ
null = 0

-- `hashmap_entry_t`, its `next` being the list
pub record Entry : Type 0 where
  pub key : ℕ
  pub value : ℕ

abbrev pub Chain : Type 0
Chain = List Entry

-- `hashmap_t`; `key_compare_func` is read as a truth value.
pub record HashMap : Type 0 where
  pub magic : ℕ
  pub entries : List Chain
  pub capacity : ℕ
  pub size : ℕ
  pub hash_func : ℕ → ℕ
  pub key_compare_func : ℕ → ℕ → Bool

-- `map` is the memory before the call; `kcalloc` returns zeroed memory or, if `allocated` is false,
-- a null pointer.
unfoldable pub init : HashMap → ℕ → (ℕ → ℕ) → (ℕ → ℕ → Bool) → Bool → Option HashMap
init map capacity hash_func compare_func allocated =
    if map.magic == hashmap_magic
    then none
    else some (record {
      magic = hashmap_magic;
      entries = if allocated then replicate capacity [] else [];
      capacity = capacity;
      size = 0;
      hash_func = hash_func;
      key_compare_func = compare_func;
    })

-- `MOS_LIB_ASSERT_X(map && map->magic == HASHMAP_MAGIC, ...)`, the index and the chain there.
unfoldable pub bucket : HashMap → ℕ → Option (ℕ × Chain)
bucket map key =
    if map.magic == hashmap_magic
    then (do
      index ← rem (map.hash_func key) map.capacity
      chain ← get_elem? map.entries index
      some (index, chain))
    else none

module _ (same : ℕ → ℕ → Bool) where
  -- The loop of `hashmap_get`.
  unfoldable pub find : Chain → ℕ → Option ℕ
  find [] key = none
  find (e ∷ chain) key = if same e.key key then some e.value else find chain key

  -- The loop of `hashmap_put`: the old value of an entry under the key, and the chain with the new.
  unfoldable pub assign : Chain → ℕ → ℕ → Option (ℕ × Chain)
  assign [] key value = none
  assign (e ∷ chain) key value =
      let rest = assign chain key value in
      if same e.key key
      then some (e.value, record e { value = value } ∷ chain)
      else (rest >>= λ (old, chain'). some (old, e ∷ chain'))

  -- The loop of `hashmap_remove`, which unlinks the entry from `prev` or from the array.
  unfoldable pub unlink : Chain → ℕ → Option (ℕ × Chain)
  unlink [] key = none
  unlink (e ∷ chain) key =
      let rest = unlink chain key in
      if same e.key key
      then some (e.value, chain)
      else (rest >>= λ (old, chain'). some (old, e ∷ chain'))

-- `allocated`: whether `kmalloc` gives memory for a new entry.
unfoldable pub put : HashMap → ℕ → ℕ → Bool → Option (ℕ × HashMap)
unfolding bucket
put map key value allocated = do
  (index, chain) ← bucket map key
  elim (assign map.key_compare_func chain key value) [
    | some (old, chain') ↦ some (old, record map { entries = set map.entries index chain' })
    | none ↦
        if allocated
        then some (
          null,
          record map {
            entries = set map.entries index (record { key = key; value = value } ∷ chain);
            size = add64 map.size 1;
          },
        )
        else none
  ]

unfoldable pub get : HashMap → ℕ → Option ℕ
unfolding bucket
get map key = do
  (index, chain) ← bucket map key
  elim (find map.key_compare_func chain key) [ some value ↦ some value | none ↦ some null ]

unfoldable pub remove : HashMap → ℕ → Option (ℕ × HashMap)
unfolding bucket
remove map key = do
  (index, chain) ← bucket map key
  elim (unlink map.key_compare_func chain key) [
    | some (old, chain') ↦
        some (old, record map { entries = set map.entries index chain'; size = sub64 map.size 1 })
    | none ↦ some (null, map)
  ]

-- The callback of `hashmap_foreach` works on the state behind `data`, and says whether to go on.
unfoldable pub walk_chain {ℓ} : {S : Type ℓ} → (ℕ → ℕ → S → Bool × S) → Chain → S → Bool × S
walk_chain func [] s = (true, s)
walk_chain func (e ∷ chain) s =
    let (more, s') = func e.key e.value s in
    elim more [ true ↦ walk_chain func chain s' | false ↦ (false, s') ]

-- `i` is the index that the loop has come to, `left` the rounds to go.
unfoldable pub walk_buckets {ℓ} :
    {S : Type ℓ} → (ℕ → ℕ → S → Bool × S) → List Chain → ℕ → ℕ → S → Option S
unfolding walk_chain
walk_buckets func entries i zero s = some s
walk_buckets func entries i (suc left) s = do
  chain ← get_elem? entries i
  let (more, s') = walk_chain func chain s
  elim more [ true ↦ walk_buckets func entries (i + 1) left s' | false ↦ some s' ]

unfoldable pub foreach {ℓ} : {S : Type ℓ} → HashMap → (ℕ → ℕ → S → Bool × S) → S → Option S
unfolding walk_buckets
foreach map func s =
    if map.magic == hashmap_magic then walk_buckets func map.entries 0 map.capacity s else none

-- The entries that `hashmap_deinit` frees, in order; the map itself stays.
unfoldable pub free_buckets : List Chain → ℕ → ℕ → Option (List Entry)
free_buckets entries i zero = some []
free_buckets entries i (suc left) = do
  chain ← get_elem? entries i
  rest ← free_buckets entries (i + 1) left
  some (chain ++ rest)

unfoldable pub deinit : HashMap → Option (List Entry)
unfolding free_buckets
deinit map = if map.magic == hashmap_magic then free_buckets map.entries 0 map.capacity else none
