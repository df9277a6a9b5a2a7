-- ===== src/HashMap/Walk.antt =====
-- `hashmap_foreach` and `hashmap_deinit` go once through all the entries, bucket by bucket.
use mos_moody_hunter.Base.{
  ℕ, zero, suc, ◌+◌, ◌≡◌, refl, ◌∙◌, Bool, true, false, some, List, [], ◌∷◌, ◌++◌, length, get_or,
  drop, ◌>>=◌, arith, get_elem?-eq-get_or, drop-eq-cons, drop_all, length-append, Bool-cases, inl,
  inr, Returns,
}
use mathlib.Core.List.{flatten}
use mos_moody_hunter.HashMap.{
  Entry, Chain, HashMap, walk_chain, walk_buckets, foreach, free_buckets, deinit,
}
use mos_moody_hunter.HashMap.Valid.{total, IsValid}

-- All entries, in the order of the buckets.
abbrev pub all_entries : HashMap → List Entry
all_entries map = flatten map.entries

module _ {ℓ} {S : Type ℓ} (func : ℕ → ℕ → S → Bool × S) where
  -- `func` is called on the entries in order, each once, up to the first for which it says to stop; the
  -- state goes from call to call.
  pub data Visits : List Entry → S → S → Type ℓ where
    all : (s : S) → Visits [] s s
    stop :
        (e : Entry) (es : List Entry) (s : S)
        → (func e.key e.value s).0 ≡ false
        → Visits (e ∷ es) s (func e.key e.value s).1
    more :
        (e : Entry) (es : List Entry) (s t : S)
        → (func e.key e.value s).0 ≡ true
        → Visits es (func e.key e.value s).1 t
        → Visits (e ∷ es) s t

  walk_chain-Visits : (chain : Chain) (s : S) → Visits chain s (walk_chain func chain s).1
  unfolding walk_chain
  walk_chain-Visits [] s = all s
  walk_chain-Visits (e ∷ chain) s = elim (Bool-cases (func e.key e.value s).0) [
    | inl go_on ↦
        rw (walk_chain, go_on)
          (more e chain s _ go_on (walk_chain-Visits chain (func e.key e.value s).1))
    | inr end ↦ rw (walk_chain, end) (stop e chain s end)
  ]

  walk_chain-append :
      (a b : Chain) (s : S)
      → walk_chain func (a ++ b) s ≡ (elim (walk_chain func a s).0 [
        | true ↦ walk_chain func b (walk_chain func a s).1
        | false ↦ walk_chain func a s
      ])
  unfolding walk_chain
  walk_chain-append [] b s = refl
  walk_chain-append (e ∷ a) b s = ground (arith, walk_chain-append a b (func e.key e.value s).1)

  walk_buckets-eq-walk_chain :
      (entries : List Chain) (i left : ℕ) (s : S)
      → i + left ≡ length entries
      → walk_buckets func entries i left s ≡ some (walk_chain func (flatten (drop i entries)) s).1
  unfolding walk_buckets flatten
  walk_buckets-eq-walk_chain entries i zero s h = rw (drop_all entries i (omega arith)) refl
  walk_buckets-eq-walk_chain entries i (suc left) s h = ground (
    arith,
    drop-eq-cons entries i [] (omega arith),
    get_elem?-eq-get_or entries i [] (omega arith),
    walk_chain-append (get_or entries i []) (flatten (drop (i + 1) entries)) s,
    walk_buckets-eq-walk_chain entries (i + 1) left (walk_chain func (get_or entries i []) s).1
        (omega arith),
  )

-- `hashmap_foreach` on a valid map does not fault, and calls the function on the entries in turn, bucket
-- by bucket, each once, up to the first for which it says to stop; no other is called then. The
-- state it leaves is the one after the last call.
pub foreach-Visits {ℓ} :
    {S : Type ℓ} (map : HashMap) (func : ℕ → ℕ → S → Bool × S) (s : S)
    → IsValid map
    → Returns (foreach map func s) (Visits func (all_entries map) s)
unfolding foreach
foreach-Visits map func s v = (
  (walk_chain func (all_entries map) s).1,
  ground (
    arith,
    v.initialized,
    walk_buckets-eq-walk_chain func map.entries 0 map.capacity s (omega (arith, v.width)),
  ),
  walk_chain-Visits func (all_entries map) s,
)

free_buckets-eq-flatten :
    (entries : List Chain) (i left : ℕ)
    → i + left ≡ length entries
    → free_buckets entries i left ≡ some (flatten (drop i entries))
unfolding free_buckets flatten
free_buckets-eq-flatten entries i zero h = rw (drop_all entries i (omega arith)) refl
free_buckets-eq-flatten entries i (suc left) h =
    rw
      (
        drop-eq-cons entries i [] (omega arith),
        get_elem?-eq-get_or entries i [] (omega arith),
        ◌>>=◌,
        free_buckets-eq-flatten entries (i + 1) left (omega arith),
      )
      refl

length-flatten : (entries : List Chain) → length (flatten entries) ≡ total entries
unfolding flatten
length-flatten [] = refl
length-flatten (chain ∷ entries) =
    omega (arith, length-append chain (flatten entries), length-flatten entries)

-- `hashmap_deinit` of a valid map does not fault, and frees all entries of all buckets, each once; they
-- are as many as the map's size says.
pub deinit-eq-all_entries :
    (map : HashMap)
    → IsValid map
    → (deinit map ≡ some (all_entries map)) × (length (all_entries map) ≡ map.size)
unfolding deinit
deinit-eq-all_entries map v = (
  ground (
    arith,
    v.initialized,
    free_buckets-eq-flatten map.entries 0 map.capacity (omega (arith, v.width)),
  ),
  length-flatten map.entries ∙ v.counted,
)
