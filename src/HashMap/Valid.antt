-- ===== src/HashMap/Valid.antt =====
-- The invariant of a hash map, the partial map that it stands for, and a write to one bucket.
use mos_moody_hunter.Base.{
  ℕ, zero, suc, ◌+◌, ◌%◌, ◌<◌, ◌≡◌, ap, ◌∙◌, true, Option, some, List, [], ◌∷◌, length, set, get_or,
  if◌then◌else◌, ◌==◌, arith, Bool-cases, ==_iff, inl, inr, length-set, get_or-set,
  get_elem?-eq-get_or,
}
use mathlib.Core.Path.{subst}
use native.Mathlib.Nat.{mod-lt}
use mos_moody_hunter.HashMap.{Chain, HashMap, hashmap_magic, find, bucket}
use mos_moody_hunter.HashMap.Chain.{IsEquality, IsDistinct, AllHome}

-- The number of entries in all buckets.
abbrev pub total : List Chain → ℕ
total [] = 0
total (chain ∷ entries) = length chain + total entries

pub total-set :
    (entries : List Chain) (i : ℕ) (chain : Chain)
    → i < length entries
    → total (set entries i chain) + length (get_or entries i []) ≡ total entries + length chain
total-set [] i chain h = absurd (omega arith)
total-set (c ∷ entries) zero chain h = omega arith
total-set (c ∷ entries) (suc i) chain h = omega (arith, total-set entries i chain (omega arith))

abbrev pub home : HashMap → ℕ → ℕ
home map key = map.hash_func key % map.capacity

abbrev pub chain_at : HashMap → ℕ → Chain
chain_at map i = get_or map.entries i []

-- The value under a key.
unfoldable pub view : HashMap → ℕ → Option ℕ
view map key = find map.key_compare_func (chain_at map (home map key)) key

pub record IsValid (map : HashMap) : Type 0 where
  pub initialized : map.magic ≡ hashmap_magic
  pub some_bucket : 0 < map.capacity
  pub width : length map.entries ≡ map.capacity
  pub counted : total map.entries ≡ map.size
  pub equality : IsEquality map.key_compare_func
  pub hash_congr : (a b : ℕ) → map.key_compare_func a b ≡ true → map.hash_func a ≡ map.hash_func b
  pub distinct : (i : ℕ) → IsDistinct map.key_compare_func (chain_at map i)
  pub placed : (i : ℕ) → AllHome (home map) i (chain_at map i)

module _ {map : HashMap} (v : IsValid map) (key : ℕ) where
  pub home-lt : home map key < map.capacity
  home-lt = mod-lt (map.hash_func key) v.some_bucket

  pub bucket-eq-some : bucket map key ≡ some (home map key, chain_at map (home map key))
  unfolding bucket
  bucket-eq-some = ground (
    arith,
    v.initialized,
    v.some_bucket,
    get_elem?-eq-get_or map.entries (home map key) [],
    home-lt,
    v.width,
  )

  pub home_congr : (q : ℕ) → map.key_compare_func key q ≡ true → home map key ≡ home map q
  home_congr q h = ap (λ x. x % map.capacity) (v.hash_congr key q h)

  -- The bucket of `key` replaced by `chain`.
  abbrev pub write_bucket : Chain → ℕ → HashMap
  write_bucket chain n = record map { entries = set map.entries (home map key) chain; size = n }

  pub write_bucket-view :
      (chain : Chain) (n : ℕ) (value : Option ℕ)
      → ((q : ℕ)
          → find map.key_compare_func chain q ≡ (
              if map.key_compare_func key q
              then value
              else find map.key_compare_func (chain_at map (home map key)) q))
      → (q : ℕ)
      → view (write_bucket chain n) q ≡ (if map.key_compare_func key q then value else view map q)
  unfolding view
  write_bucket-view chain n value reads q = ground (
    arith,
    get_or-set map.entries (home map key) (home map q) chain [],
    home-lt,
    v.width,
    reads q,
    home_congr q,
  )

  pub write_bucket-IsValid :
      (chain : Chain) (n : ℕ)
      → total (set map.entries (home map key) chain) ≡ n
      → IsDistinct map.key_compare_func chain
      → AllHome (home map) (home map key) chain
      → IsValid (write_bucket chain n)
  write_bucket-IsValid chain n count distinct placed = record {
    initialized = v.initialized;
    some_bucket = v.some_bucket;
    width = length-set map.entries (home map key) chain ∙ v.width;
    counted = count;
    equality = v.equality;
    hash_congr = v.hash_congr;
    distinct = λ i. rw (written i) (elim (Bool-cases (home map key == i)) [
      | inl e ↦ rw e distinct
      | inr e ↦ rw e (v.distinct i)
    ]);
    placed = λ i. rw (written i) (elim (Bool-cases (home map key == i)) [
      | inl e ↦
          rw e (subst (λ j. AllHome (home map) j chain) ((==_iff (home map key) i).0 e) placed)
      | inr e ↦ rw e (v.placed i)
    ]);
  }
    where
      written :
          (i : ℕ)
          → get_or (set map.entries (home map key) chain) i []
            ≡ (if home map key == i then chain else chain_at map i)
      written i = get_or-set map.entries (home map key) i chain [] (omega (arith, home-lt, v.width))
