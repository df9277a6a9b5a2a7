-- ===== src/Tests/Maps.antt =====
-- A hash map of two buckets: even keys and odd keys.
use mos_moody_hunter.Base.{
  ℕ, zero, suc, ◌+◌, ◌≡◌, refl, Returns, Bool, true, not, some, none, [], ◌∷◌, ◌>>=◌, ◌==◌,
  if◌then◌else◌, arith,
}
use mos_moody_hunter.HashMap.{HashMap, hashmap_magic, put, get, remove, foreach, find}
use mos_moody_hunter.HashMap.Chain.{IsEquality, IsDistinct, AllHome}
use mos_moody_hunter.HashMap.Valid.{IsValid, view, chain_at, home}
use mos_moody_hunter.HashMap.Laws.{Updated, or_null, put-Updated, remove-Updated, get-put}
use mos_moody_hunter.HashMap.Walk.{all_entries, Visits, foreach-Visits}

abbrev map : HashMap
map = record {
  magic = hashmap_magic;
  entries =
      (record { key = 2; value = 20 } ∷ record { key = 4; value = 40 } ∷ [])
      ∷ (record { key = 1; value = 10 } ∷ [])
      ∷ [];
  capacity = 2;
  size = 3;
  hash_func = λ k. k;
  key_compare_func = ◌==◌;
}

==-IsEquality : IsEquality ◌==◌
==-IsEquality = record {
  same_refl = λ a. ground arith;
  same_symm = λ a b. ground arith;
  same_trans = λ a b c h. ground arith;
}

map-IsValid : IsValid map
unfolding find
map-IsValid = record {
  initialized = refl;
  some_bucket = omega arith;
  width = refl;
  counted = refl;
  equality = ==-IsEquality;
  hash_congr = λ a b h. ground arith;
  distinct = distinct;
  placed = placed;
}
  where
    distinct : (i : ℕ) → IsDistinct ◌==◌ (chain_at map i)
    distinct zero = (refl, (refl, tt))
    distinct (suc zero) = (refl, tt)
    distinct (suc (suc i)) = tt

    placed : (i : ℕ) → AllHome (home map) i (chain_at map i)
    placed zero = (refl, (refl, tt))
    placed (suc zero) = (refl, tt)
    placed (suc (suc i)) = tt

-- Counts the entries, and stops after two.
abbrev count : ℕ → ℕ → ℕ → Bool × ℕ
count key value n = (not (n == 1), n + 1)

get_four : get map 4 ≡ some 40
unfolding get find
get_four = refl

foreach_stops : foreach map count 0 ≡ some 2
unfolding foreach
foreach_stops = refl

put_example : Returns (put map 6 60 true) (Updated map 6 (some 60))
put_example = put-Updated map-IsValid 6 60 (omega arith)

remove_example : Returns (remove map 2) (Updated map 2 none)
remove_example = remove-Updated map-IsValid 2 (omega arith)

get-put_example :
    (put map 4 44 true >>= λ r. get r.1 4)
    ≡ some (if map.key_compare_func 4 4 then 44 else or_null (view map 4))
get-put_example = get-put 4 44 4 map-IsValid (omega arith)

foreach_example : Returns (foreach map count 0) (Visits count (all_entries map) 0)
foreach_example = foreach-Visits map count 0 map-IsValid
