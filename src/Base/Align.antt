-- ===== src/Base/Align.antt =====
-- Rounding to pages (ALIGN_UP_TO_PAGE and ALIGN_DOWN_TO_PAGE of
-- kernel/include/public/mos/mos_global.h), without bit operations.
use Prim.Native.Nat.{ℕ, suc, ◌+◌, ◌-◌, ◌*◌, ◌/◌, ◌^◌, ◌<◌, bit_and}
use mathlib.Core.Path.{◌≡◌, ap, ◌∙◌}
use mathlib.Core.Logic.{inl, inr}
use native.Mathlib.Omega.{arith}
use mos_moody_hunter.Base.Tests.{Bool-cases, ltb}
use mos_moody_hunter.Base.Words.{add64, page_size, align_up_to_page, align_down_to_page}
use mos_moody_hunter.Base.Bits.{
  bit, bit-lt, bit_ext, bit-bit_and, bit-complement, bit-ones, bit-shl, bit_of_lt,
}

-- The digits of the page number.
bit-page : (a k : ℕ) → bit (a / 4096) k ≡ bit a (k + 12)
bit-page a k =
    let e : k + 12 ≡ suc (suc (suc (suc (suc (suc (suc (suc (suc (suc (suc (suc k))))))))))) =
      omega arith in
    rw e (ap (λ x. bit x k) (omega arith))

-- The mask `~(MOS_PAGE_SIZE - 1)` clears the place in the page.
pub bit_and-page_mask :
    (a : ℕ) → a < 2 ^ 64 → bit_and a (2 ^ 64 - 1 - (page_size - 1)) ≡ a / page_size * page_size
bit_and-page_mask a h = bit_ext _ _ (λ k.
    let digit = bit-bit_and a (2 ^ 64 - 1 - (page_size - 1)) k in
    let mask = bit-complement 64 (page_size - 1) k (omega arith) in
    let ones = bit-ones 12 k in
    let above = bit_of_lt 64 a k h in
    let page = bit-shl 12 (a / page_size) k in
    let moved = bit-page a (k - 12) in
    let lt = bit-lt a k in
    elim (Bool-cases (ltb k 12)) [
      | inl low ↦ ground (arith, low, digit, mask, ones, page, lt)
      | inr high ↦
          let e : k - 12 + 12 ≡ k = ground (arith, high) in
          let moved' : bit (a / page_size) (k - 12) ≡ bit a k = moved ∙ ap (bit a) e in
          ground (arith, high, digit, mask, ones, page, lt, above, moved')
    ])

pub align_down_to_page_lem : (a : ℕ) → a < 2 ^ 64 → align_down_to_page a ≡ a / page_size * page_size
unfolding align_down_to_page
align_down_to_page_lem a h = bit_and-page_mask a h

pub align_up_to_page_lem :
    (a : ℕ)
    → a + page_size - 1 < 2 ^ 64
    → align_up_to_page a ≡ (a + page_size - 1) / page_size * page_size
unfolding align_up_to_page
align_up_to_page_lem a h = bit_and-page_mask (add64 a (page_size - 1)) (omega arith) ∙ omega arith
