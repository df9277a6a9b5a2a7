-- ===== src/HashMap/Laws.antt =====
-- The operations of a valid hash map act on the partial map that it stands for.
use mos_moody_hunter.Base.{
  ℕ, ◌+◌, ◌%◌, ◌^◌, ◌<◌, ◌≡◌, ◌≢◌, zero, suc, refl, Bool, true, Option, none, some, [], ◌∷◌, length,
  get_or, if◌then◌else◌, ◌>>=◌, add64, sub64, arith, Returns, replicate, Option-cases, inl, inr,
  length-replicate,
}
use mos_moody_hunter.HashMap.{Chain, HashMap, hashmap_magic, null, find, init, put, get, remove}
use mos_moody_hunter.HashMap.Chain.{
  IsEquality, find_congr, assign-none, assign-some, unlink-none, unlink-some,
}
use mos_moody_hunter.HashMap.Valid.{
  total, total-set, home, chain_at, view, IsValid, home-lt, home_congr, bucket-eq-some,
  write_bucket, write_bucket-view, write_bucket-IsValid,
}

-- What a caller gets for a key: the pointer, or a null pointer.
abbrev pub or_null : Option ℕ → ℕ
or_null none = null
or_null (some value) = value

-- How many entries a key has.
abbrev pub entry_count : Option ℕ → ℕ
entry_count none = 0
entry_count (some value) = 1

-- `hashmap_get` on a valid map does not fault, and returns the pointer under the key, or null.
pub get-view : {map : HashMap} (key : ℕ) → IsValid map → get map key ≡ some (or_null (view map key))
unfolding get view
get-view {map} key v = rw (bucket-eq-some v key, ◌>>=◌) (ground arith)

-- What a write of `value` at `key` returns and leaves: the old pointer, the partial map with the key
-- changed and all other keys as they were, and the right number of entries.
pub record Updated (map : HashMap) (key : ℕ) (value : Option ℕ) (r : ℕ × HashMap) : Type 0 where
  pub returns : r.0 ≡ or_null (view map key)
  pub reads : (q : ℕ) → view r.1 q ≡ (if map.key_compare_func key q then value else view map q)
  pub size : r.1.size + entry_count (view map key) ≡ map.size + entry_count value
  pub valid : IsValid r.1

module _ {map : HashMap} (v : IsValid map) (key : ℕ) where
  chain : Chain
  chain = chain_at map (home map key)

  -- `hashmap_put` on a valid map of fewer than 2 ^ 64 - 1 entries, with memory for a new one, does
  -- not fault. It makes the value the one under the key and leaves those under unequal keys, returns
  -- the old value or null, counts the key if it is new, and keeps the invariant.
  pub put-Updated :
      (value : ℕ)
      → map.size + 1 < 2 ^ 64
      → Returns (put map key value true) (Updated map key (some value))
  unfolding put view chain find
  put-Updated value small = elim (Option-cases (find map.key_compare_func chain key)) [
    | inr (old, e) ↦
        let (r, run, a) = assign-some map.key_compare_func v.equality chain key value old e in
        (
          (r.0, write_bucket v key r.1 map.size),
          rw (bucket-eq-some v key, ◌>>=◌, run) refl,
          record {
            returns = rw e a.returns;
            reads = write_bucket-view v key r.1 map.size (some value) a.reads;
            size = rw e refl;
            valid =
                write_bucket-IsValid v key r.1 map.size
                  (omega (
                    arith,
                    total-set map.entries (home map key) r.1,
                    home-lt v key,
                    v.width,
                    a.count,
                    v.counted,
                  ))
                  (a.distinct (v.distinct (home map key)))
                  (a.home (home map) (home map key) (v.placed (home map key)));
          },
        )
    | inl e ↦
        let fresh = record { key = key; value = value } ∷ chain in
        (
          (null, write_bucket v key fresh (map.size + 1)),
          rw
              (
                bucket-eq-some v key,
                ◌>>=◌,
                assign-none map.key_compare_func v.equality chain key value e,
                add64-size,
              )
              refl,
          record {
            returns = rw e refl;
            reads = write_bucket-view v key fresh (map.size + 1) (some value) (λ q. refl);
            size = rw e (omega arith);
            valid =
                write_bucket-IsValid v key fresh (map.size + 1)
                  (omega (
                    arith,
                    total-set map.entries (home map key) fresh,
                    home-lt v key,
                    v.width,
                    v.counted,
                  ))
                  (e, v.distinct (home map key)) (refl, v.placed (home map key));
          },
        )
  ]
    where
      add64-size : add64 map.size 1 ≡ map.size + 1
      add64-size = omega arith

  -- `hashmap_remove` on a valid map of fewer than 2 ^ 64 entries does not fault. It takes the key out
  -- and leaves the values under unequal keys, returns the old value or null, counts the key off if it
  -- was there, and keeps the invariant.
  pub remove-Updated : map.size < 2 ^ 64 → Returns (remove map key) (Updated map key none)
  unfolding remove view chain
  remove-Updated small = elim (Option-cases (find map.key_compare_func chain key)) [
    | inr (old, e) ↦
        let (r, run, a) =
          unlink-some map.key_compare_func v.equality chain key old (v.distinct (home map key)) e in
        let count =
          total-set map.entries (home map key) r.1 (omega (arith, home-lt v key, v.width)) in
        let fewer : length r.1 + 1 ≡ length chain = a.count in
        (
          (r.0, write_bucket v key r.1 (sub64 map.size 1)),
          rw (bucket-eq-some v key, ◌>>=◌, run) refl,
          record {
            returns = rw e a.returns;
            reads = write_bucket-view v key r.1 (sub64 map.size 1) none a.reads;
            size = rw e (omega (arith, count, fewer, v.counted));
            valid =
                write_bucket-IsValid v key r.1 (sub64 map.size 1)
                  (omega (arith, count, fewer, v.counted)) a.distinct
                  (a.home (home map) (home map key) (v.placed (home map key)));
          },
        )
    | inl e ↦ (
      (null, map),
      rw (bucket-eq-some v key, ◌>>=◌, unlink-none map.key_compare_func v.equality chain key e)
          refl,
      record {
        returns = rw e refl;
        reads = λ q.
            ground
              (arith, find_congr map.key_compare_func v.equality chain key q, home_congr v key q);
        size = rw e refl;
        valid = v;
      },
    )
  ]

-- After a put on a valid map of fewer than 2 ^ 64 - 1 entries, with memory for a new one, a get gives
-- the new value under an equal key, and what it gave before under any other.
pub get-put :
    {map : HashMap} (key value q : ℕ)
    → IsValid map
    → map.size + 1 < 2 ^ 64
    → (put map key value true >>= λ r. get r.1 q)
      ≡ some (if map.key_compare_func key q then value else or_null (view map q))
get-put {map} key value q v small =
    let (r, run, w) = put-Updated v key value small in
    rw (run, ◌>>=◌, get-view q w.valid, w.reads q) (ground arith)

empty_bucket : (n i : ℕ) → get_or (replicate n (let c : Chain = [] in c)) i [] ≡ []
empty_bucket zero i = refl
empty_bucket (suc n) zero = refl
empty_bucket (suc n) (suc i) = empty_bucket n i

total-replicate : (n : ℕ) → total (replicate n []) ≡ 0
total-replicate zero = refl
total-replicate (suc n) = omega (arith, total-replicate n)

-- `hashmap_init` of memory that holds no map, with memory for at least one bucket, a comparison that
-- is an equality and a hash that equal keys share, makes a valid map with no key.
pub init-IsValid :
    (memory : HashMap) (capacity : ℕ) (hash : ℕ → ℕ) (same : ℕ → ℕ → Bool)
    → memory.magic ≢ hashmap_magic
    → 0 < capacity
    → IsEquality same
    → ((a b : ℕ) → same a b ≡ true → hash a ≡ hash b)
    → Returns
        (init memory capacity hash same true)
        (λ map. IsValid map × ((q : ℕ) → view map q ≡ none))
unfolding init view find
init-IsValid memory capacity hash same other some_bucket equality congr = (
  record {
    magic = hashmap_magic;
    entries = replicate capacity [];
    capacity = capacity;
    size = 0;
    hash_func = hash;
    key_compare_func = same;
  },
  ground arith,
  (
    record {
      initialized = refl;
      some_bucket = some_bucket;
      width = length-replicate capacity [];
      counted = total-replicate capacity;
      equality = equality;
      hash_congr = congr;
      distinct = λ i. rw (empty_bucket capacity i) tt;
      placed = λ i. rw (empty_bucket capacity i) tt;
    },
    λ q. rw (empty_bucket capacity (hash q % capacity)) refl,
  ),
)
