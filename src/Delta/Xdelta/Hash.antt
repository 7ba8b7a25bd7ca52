-- ===== src/Delta/Xdelta/Hash.antt =====
-- The hash of a block in delta/xdelta.go: `rollHash` against `rollingHash`.
use go_svn.Base.Bits.{bit_or_disjoint}
use Prim.Native.Nat.{bit_or}
use go_svn.Delta.Xdelta.{block_size, roll_hash, rolling_hash, rolling_loop}
use mathlib.Core.Path.{ap₂}
use go_svn.Base.{
  IsByte, sym, ◌-◌, ◌/◌, length, All, Bytes, [], ap, arith, length-append, ℕ, ◌%◌, ◌*◌, ◌++◌, ◌+◌,
  ◌<◌, ◌^◌, ◌∙◌, ◌∷◌, ◌≡◌, ◌≤◌,
}

-- The two sums of a block, without wrap-around.
pub total : Bytes → ℕ
total [] = 0
total (value ∷ block) = value + total block

pub weight : Bytes → ℕ
weight [] = 0
weight (value ∷ block) = length (value ∷ block) * value + weight block

total_bound : (block : Bytes) → All IsByte block → total block ≤ 255 * length block
unfolding total
total_bound [] h = omega arith
total_bound (b ∷ block) (hb, h) = omega (arith, total_bound block h)

total-append_one : (block : Bytes) (b : ℕ) → total (block ++ (b ∷ [])) ≡ total block + b
unfolding total
total-append_one [] b = omega arith
total-append_one (v ∷ block) b = omega (arith, total-append_one block b)

weight-append_one :
    (block : Bytes) (b : ℕ) → weight (block ++ (b ∷ [])) ≡ weight block + total block + b
unfolding weight total
weight-append_one [] b = omega arith
weight-append_one (v ∷ block) b =
    omega (arith, weight-append_one block b, ap (λ (t : ℕ). t * v) (length-append block (b ∷ [])))

rolling_loop-sums :
    (block : Bytes) (low high : ℕ)
    → low < 2 ^ 32
    → high < 2 ^ 32
    → rolling_loop block low high
      ≡ bit_or ((low + total block) % 2 ^ 32) ((high + weight block) % 2 ^ 32 * 2 ^ 16 % 2 ^ 32)
unfolding rolling_loop total weight
rolling_loop-sums [] low high hl hh =
    let a : (low + 0) % 2 ^ 32 ≡ low = omega arith in
    let b : (high + 0) % 2 ^ 32 ≡ high = omega arith in rw (a, b)
rolling_loop-sums (v ∷ block) low high hl hh =
    let n : ℕ = length (v ∷ block) * v in
    let a : ((low + v) % 2 ^ 32 + total block) % 2 ^ 32 ≡ (low + (v + total block)) % 2 ^ 32 =
      omega arith in
    let b : ((high + n % 2 ^ 32) % 2 ^ 32 + weight block) % 2 ^ 32
        ≡ (high + (n + weight block)) % 2 ^ 32 =
      omega arith in
    rolling_loop-sums block ((low + v) % 2 ^ 32) ((high + n % 2 ^ 32) % 2 ^ 32) (omega arith)
      (omega arith)
    ∙ ap₂ (λ s t. bit_or s (t * 2 ^ 16 % 2 ^ 32)) a b

-- The hash of a block whose byte sum fits sixteen bits.
rolling_hash-sums :
    (block : Bytes)
    → total block < 2 ^ 16
    → rolling_hash block ≡ total block + weight block % 2 ^ 16 * 2 ^ 16
unfolding rolling_hash
rolling_hash-sums block h =
    let a : (0 + total block) % 2 ^ 32 ≡ total block = omega arith in
    let b : (0 + weight block) % 2 ^ 32 * 2 ^ 16 % 2 ^ 32 ≡ weight block % 2 ^ 16 * 2 ^ 16 =
      omega arith in
    rolling_loop-sums block 0 0 (omega arith) (omega arith)
    ∙ ap₂ bit_or a b
    ∙ bit_or_disjoint 16 (total block) (weight block % 2 ^ 16) h

-- `rollHash` in terms of the two sums that a hash holds.
roll_hash-sums :
    (hash low high outgoing incoming : ℕ)
    → hash ≡ low + high % 2 ^ 16 * 2 ^ 16
    → low < 2 ^ 16
    → outgoing ≤ low
    → block_size * outgoing ≤ high
    → outgoing < 256
    → low - outgoing + incoming < 2 ^ 16
    → roll_hash hash outgoing incoming
      ≡ low
        - outgoing
        + incoming
        + (high - block_size * outgoing + (low - outgoing + incoming)) % 2 ^ 16 * 2 ^ 16
unfolding roll_hash
roll_hash-sums hash low high x y e hl hx hw hb hs =
    let l : ℕ = ((hash % 2 ^ 16 + 2 ^ 32 - x) % 2 ^ 32 + y) % 2 ^ 32 in
    let h : ℕ =
      ((hash / 2 ^ 16 % 2 ^ 16 + 2 ^ 32 - block_size * x % 2 ^ 32) % 2 ^ 32 + l) % 2 ^ 32 in
    let now : l ≡ low - x + y = omega arith in
    let then' : h % 2 ^ 16 ≡ (high - block_size * x + (low - x + y)) % 2 ^ 16 =
      omega (arith, now) in
    let a : l % 2 ^ 16 ≡ low - x + y = omega (arith, now) in
    let b : h % 2 ^ 16 * 2 ^ 16 % 2 ^ 32
        ≡ (high - block_size * x + (low - x + y)) % 2 ^ 16 * 2 ^ 16 =
      omega (arith, then') in
    ap₂ bit_or a b
    ∙ bit_or_disjoint 16 (low - x + y) ((high - block_size * x + (low - x + y)) % 2 ^ 16) hs

-- `rollHash` agrees with `rollingHash`: from the hash of a block of 64 bytes it computes the hash
-- of the block one byte further on.
pub roll_hash-rolling_hash :
    (outgoing incoming : ℕ) (block : Bytes)
    → length (outgoing ∷ block) ≡ block_size
    → All IsByte (outgoing ∷ block)
    → IsByte incoming
    → roll_hash (rolling_hash (outgoing ∷ block)) outgoing incoming
      ≡ rolling_hash (block ++ (incoming ∷ []))
unfolding total weight
roll_hash-rolling_hash x y block n (hx, h) hy =
    let bound : total block ≤ 255 * length block = total_bound block h in
    let first : rolling_hash (x ∷ block)
        ≡ x + total block + (length (x ∷ block) * x + weight block) % 2 ^ 16 * 2 ^ 16 =
      rolling_hash-sums (x ∷ block) (omega arith) in
    let size : length (x ∷ block) * x ≡ block_size * x = ap (λ (t : ℕ). t * x) n in
    let low : total (block ++ (y ∷ [])) ≡ x + total block - x + y =
      omega (arith, total-append_one block y) in
    let high : weight (block ++ (y ∷ []))
        ≡ length (x ∷ block) * x + weight block - block_size * x + (x + total block - x + y) =
      omega (arith, weight-append_one block y, size) in
    roll_hash-sums (rolling_hash (x ∷ block)) (x + total block)
      (length (x ∷ block) * x + weight block) x y first (omega arith) (omega arith)
      (omega (arith, size)) hx (omega arith)
    ∙ sym (
        rolling_hash-sums (block ++ (y ∷ [])) (omega (arith, low))
        ∙ ap₂ (λ s t. s + t % 2 ^ 16 * 2 ^ 16) low high)
