-- ===== src/Delta/Xdelta/Match.antt =====
-- The matches that `buildWindow` of delta/xdelta.go takes from the source.
use go_svn.Base.Int.{pos, ℤ}
use go_svn.Base.Outcome.{slice_lem, at_lem, ok}
use go_svn.Delta.Xdelta.{block_size, find_match, good_match, try_candidate, extend}
use go_svn.Base.{
  All, Bool, List, equal, equal→eq, false, leb, refl, ◌-◌, length, Bool-cases, Bytes, [], ap, arith,
  drop, get_elem?, get_elem?_bound, inl, inr, ltb, some, suc, sym, take, take-suc-drop, zero, ℕ,
  ◌&&◌, ◌++◌, ◌+◌, ◌<◌, ◌==◌, ◌∙◌, ◌∷◌, ◌≡◌, ◌≤◌,
}

-- The `n` bytes from `candidate` in the source are those from `position` in the target.
pub record IsMatch (source target : Bytes) (candidate position n : ℕ) : Type 0 where
  pub source_in : candidate + n ≤ length source
  pub target_in : position + n ≤ length target
  pub same : take n (drop candidate source) ≡ take n (drop position target)

module _ (source target : Bytes) (candidate position : ℕ) where
  lengthen :
      (n a : ℕ)
      → IsMatch source target candidate position n
      → get_elem? source (candidate + n) ≡ some a
      → get_elem? target (position + n) ≡ some a
      → candidate + n < length source
      → position + n < length target
      → IsMatch source target candidate position (suc n)
  lengthen n a m p q hs ht = record {
    source_in = omega arith;
    target_in = omega arith;
    same =
        take-suc-drop candidate n source p
        ∙ ap (λ t. t ++ (a ∷ [])) m.same
        ∙ sym (take-suc-drop position n target q);
  }

  -- The loop ends with a match at least as long.
  pub extend_lem :
      (fuel n : ℕ)
      → length target < position + n + fuel
      → IsMatch source target candidate position n
      → (n' : ℕ) × (extend fuel source target candidate position n ≡ ok n')
        × IsMatch source target candidate position n'
        × (n ≤ n')
  unfolding extend
  extend_lem zero n f m = absurd (omega (arith, m.target_in))
  extend_lem (suc fuel) n f m =
      elim (Bool-cases
        (ltb (candidate + n) (length source) && ltb (position + n) (length target))) [
          | inr e ↦ (n, rw e, m, omega arith)
          | inl e ↦
              let hs : candidate + n < length source = ground arith in
              let ht : position + n < length target = ground arith in
              let (a, p) = get_elem?_bound source (candidate + n) hs in
              let (b, q) = get_elem?_bound target (position + n) ht in
              elim (Bool-cases (a == b)) [
                | inr d ↦ (
                  n,
                  rw (e, at_lem source (candidate + n) p, at_lem target (position + n) q, d),
                  m,
                  omega arith,
                )
                | inl d ↦
                    let same : b ≡ a = ground arith in
                    let (n', run, m', h) =
                      extend_lem fuel (suc n) (omega arith)
                        (lengthen n a m p (q ∙ ap some same) hs ht) in
                    let next : n + 1 ≡ suc n = omega arith in
                    (
                      n',
                      rw
                          (
                            e,
                            at_lem source (candidate + n) p,
                            at_lem target (position + n) q,
                            d,
                            next,
                          )
                          run,
                      m',
                      omega arith,
                    )
              ]
        ]

-- The best match so far: none, or a match of its length.
pub data IsBest (source target : Bytes) (position : ℕ) : ℤ → ℕ → Type 0 where
  nothing : (o : ℤ) → IsBest source target position o 0
  match :
      (candidate n : ℕ)
      → 0 < n
      → IsMatch source target candidate position n
      → IsBest source target position (pos candidate) n

module _ (source target : Bytes) (position : ℕ) (fits : position + block_size ≤ length target) where
  try_candidate_lem :
      (candidate : ℕ) (o : ℤ) (n : ℕ)
      → candidate + block_size ≤ length source
      → IsBest source target position o n
      → (o' : ℤ) × (n' : ℕ) × (stop : Bool) × (try_candidate source target position candidate o n
          ≡ ok (o', n', stop))
        × IsBest source target position o' n'
  unfolding try_candidate
  try_candidate_lem candidate o n h best =
      let block : Bytes = take (candidate + block_size - candidate) (drop candidate source) in
      let wanted : Bytes = take (position + block_size - position) (drop position target) in
      let a = slice_lem source candidate (candidate + block_size) (omega arith) h in
      let b = slice_lem target position (position + block_size) (omega arith) fits in
      elim (Bool-cases (equal block wanted)) [
        | inr d ↦ (o, n, false, rw (a, b, d), best)
        | inl d ↦
            let size : candidate + block_size - candidate ≡ block_size = omega arith in
            let size' : position + block_size - position ≡ block_size = omega arith in
            let first : IsMatch source target candidate position block_size = record {
              source_in = h;
              target_in = fits;
              same = rw (size, size') at (equal→eq block wanted d);
            } in
            let (n', run, m, le) =
              extend_lem source target candidate position (length target) block_size (omega arith)
                first in
            elim (Bool-cases (ltb n n')) [
              | inl l ↦ (
                pos candidate,
                n',
                leb good_match n',
                rw (a, b, d, run, l),
                match candidate n' (omega arith) m,
              )
              | inr l ↦ (o, n, false, rw (a, b, d, run, l), best)
            ]
      ]

  pub find_match_lem :
      (candidates : List ℕ) (o : ℤ) (n : ℕ)
      → All (λ c. c + block_size ≤ length source) candidates
      → IsBest source target position o n
      → (o' : ℤ) × (n' : ℕ) × (find_match source target position candidates o n ≡ ok (o', n'))
        × IsBest source target position o' n'
  unfolding find_match
  find_match_lem [] o n h best = (o, n, refl, best)
  find_match_lem (c ∷ candidates) o n (hc, h) best =
      let (o₁, n₁, stop, step, best₁) = try_candidate_lem c o n hc best in
      let (o₂, n₂, run, best₂) = find_match_lem candidates o₁ n₁ h best₁ in
      elim (Bool-cases stop) [
        | inl s ↦ (o₁, n₁, rw (step, s), best₁)
        | inr s ↦ (o₂, n₂, rw (step, s) run, best₂)
      ]
