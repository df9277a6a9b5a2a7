-- ===== src/Tests/Stacks.antt =====
-- A stack of six bytes at address 4096.
use mos_moody_hunter.Base.{ℕ, ◌≡◌, ◌<◌, refl, Returns, some, none, List, [], ◌∷◌, ◌>>=◌, arith}
use mos_moody_hunter.DownStack.{DownStack, index_of, push, pop}
use mos_moody_hunter.Memory.{copy, copied}
use mos_moody_hunter.DownStack.Laws.{IsValid, contents, pop-push, pop_underflows}

abbrev region : List ℕ
region = 0 ∷ 0 ∷ 0 ∷ 3 ∷ 4 ∷ 5 ∷ []

-- 3, 4 and 5 are on it.
abbrev half : DownStack
half = record { top = 4102; head = 4099; capacity = 6 }

half-IsValid : IsValid half region 4096
half-IsValid = omega arith

push_two :
    push half region 4096 (1 ∷ 2 ∷ []) 2
    ≡ some (record half { head = 4097 }, 0 ∷ 1 ∷ 2 ∷ 3 ∷ 4 ∷ 5 ∷ [])
unfolding push index_of copy copied
push_two = refl

pop-push_example :
    Returns
      (push half region 4096 (1 ∷ 2 ∷ []) 2 >>= λ (s, region').
        pop s region' 4096 2 (some (8 ∷ 9 ∷ [])) >>= λ (s', out). some (s', region', out))
      (λ (s', region', out).
        (out ≡ some (1 ∷ 2 ∷ [])) × (contents s' region' 4096 ≡ contents half region 4096))
pop-push_example = pop-push (1 ∷ 2 ∷ []) (8 ∷ 9 ∷ []) half-IsValid refl (omega arith)

pop_underflows_example : Returns (pop half region 4096 4 none) (λ r. r.0.top < r.0.head)
pop_underflows_example = pop_underflows half-IsValid 4 (omega arith) (omega arith) (omega arith)
