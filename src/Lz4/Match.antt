-- ===== src/Lz4/Match.antt =====
-- The matches that `EncodeBlock` of internal/lz4/lz4.go finds, and the copies that `DecodeBlock` makes.
use go_svn.Base.{
  ℕ, zero, suc, ◌+◌, ◌-◌, ◌*◌, ◌^◌, ◌≤◌, ◌<◌, ◌≡◌, refl, sym, ap, ◌∙◌, Bool, true, false, [], ◌∷◌,
  ◌++◌, Bytes, ◌==◌, some, length, take, get_elem?, get_elem?_bound, get_elem?-take, take-suc,
  arith, All, All-get, IsByte, Bool-cases, inl, inr,
}
use go_svn.Base.Int.{ℤ, pos, negsuc, ltb_ℤ, sub_ℕ}
use go_svn.Base.Outcome.{ok, at_lem}
use go_svn.Lz4.{copy_match, uint32_at, equal4, is_match, match_loop, max_offset, last_literals}

-- The bytes from the two positions agree.
abbrev pub Agrees : Bytes → (candidate position n : ℕ) → Type 0
Agrees source candidate position n =
    (i : ℕ) → i < n → get_elem? source (candidate + i) ≡ get_elem? source (position + i)

copy_match-round :
    (n start : ℕ) (output : Bytes) (b : ℕ)
    → get_elem? output start ≡ some b
    → copy_match (suc n) start output ≡ copy_match n (start + 1) (output ++ (b ∷ []))
unfolding copy_match
copy_match-round n start output b e = rw (at_lem output start e)

-- A copy of the bytes at an earlier position that agree with the next ones gives the next ones.
pub copy_match-take :
    (n candidate position : ℕ) (source : Bytes)
    → candidate < position
    → position + n ≤ length source
    → Agrees source candidate position n
    → copy_match n candidate (take position source) ≡ ok (take (position + n) source)
copy_match-take zero c p source h fits same =
    let e : p + 0 ≡ p = omega arith in rw e (unfold copy_match in refl)
copy_match-take (suc n) c p source h fits same =
    let (b, found) = get_elem?_bound source c (omega arith) in
    let first : get_elem? source c ≡ get_elem? source p =
      (let ec : c + 0 ≡ c = omega arith in
        let ep : p + 0 ≡ p = omega arith in rw (ec, ep) at (same 0 (omega arith))) in
    let next : p + 1 ≡ suc p = omega arith in
    let end : p + suc n ≡ p + 1 + n = omega arith in
    copy_match-round n c (take p source) b (get_elem?-take p source c h ∙ found)
    ∙ rw (← take-suc p source (sym first ∙ found), ← next, end)
        (copy_match-take n (c + 1) (p + 1) source (omega arith) (omega arith) (λ i lt.
          let ec : c + 1 + i ≡ c + suc i = omega arith in
          let ep : p + 1 + i ≡ p + suc i = omega arith in rw (ec, ep) (same (suc i) (omega arith))))

-- The four bytes at a position.
pub record Word (source : Bytes) (position word : ℕ) : Type 0 where
  pub a : ℕ
  pub b : ℕ
  pub c : ℕ
  pub d : ℕ
  pub at_a : get_elem? source position ≡ some a
  pub at_b : get_elem? source (position + 1) ≡ some b
  pub at_c : get_elem? source (position + 2) ≡ some c
  pub at_d : get_elem? source (position + 3) ≡ some d
  pub bytes : (a < 256) × (b < 256) × (c < 256) × (d < 256)
  pub sum : word ≡ a + b * 2 ^ 8 + c * 2 ^ 16 + d * 2 ^ 24

pub uint32_at_lem :
    (source : Bytes) (position : ℕ)
    → All IsByte source
    → position + 4 ≤ length source
    → (word : ℕ) × (uint32_at source position ≡ ok word) × Word source position word
unfolding uint32_at
uint32_at_lem source p bytes h =
    let (a, ea) = get_elem?_bound source p (omega arith) in
    let (b, eb) = get_elem?_bound source (p + 1) (omega arith) in
    let (c, ec) = get_elem?_bound source (p + 2) (omega arith) in
    let (d, ed) = get_elem?_bound source (p + 3) (omega arith) in
    (
      a + b * 2 ^ 8 + c * 2 ^ 16 + d * 2 ^ 24,
      rw (
        at_lem source p ea,
        at_lem source (p + 1) eb,
        at_lem source (p + 2) ec,
        at_lem source (p + 3) ed,
      ),
      record {
        a = a;
        b = b;
        c = c;
        d = d;
        at_a = ea;
        at_b = eb;
        at_c = ec;
        at_d = ed;
        sum = refl;
        bytes = (
          All-get IsByte source p a bytes ea,
          All-get IsByte source (p + 1) b bytes eb,
          All-get IsByte source (p + 2) c bytes ec,
          All-get IsByte source (p + 3) d bytes ed,
        );
      },
    )

digits_agree :
    (a b c d a' b' c' d' : ℕ)
    → (a < 256) × (b < 256) × (c < 256) × (d < 256)
    → (a' < 256) × (b' < 256) × (c' < 256) × (d' < 256)
    → a + b * 2 ^ 8 + c * 2 ^ 16 + d * 2 ^ 24 ≡ a' + b' * 2 ^ 8 + c' * 2 ^ 16 + d' * 2 ^ 24
    → (a ≡ a') × (b ≡ b') × (c ≡ c') × (d ≡ d')
digits_agree a b c d a' b' c' d' h k e = (omega arith, omega arith, omega arith, omega arith)

words_agree :
    (source : Bytes) (p q v w : ℕ) → Word source p v → Word source q w → v ≡ w → Agrees source p q 4
words_agree source p q v w x y e i h =
    let (ea, eb, ec, ed) =
      digits_agree x.a x.b x.c x.d y.a y.b y.c y.d x.bytes y.bytes (sym x.sum ∙ e ∙ y.sum) in
    by_place i h ea eb ec ed
  where
    by_place :
        (i : ℕ)
        → i < 4
        → x.a ≡ y.a
        → x.b ≡ y.b
        → x.c ≡ y.c
        → x.d ≡ y.d
        → get_elem? source (p + i) ≡ get_elem? source (q + i)
    by_place zero h ea eb ec ed =
        let zp : p + 0 ≡ p = omega arith in
        let zq : q + 0 ≡ q = omega arith in rw (zp, zq, x.at_a, y.at_a, ea)
    by_place (suc zero) h ea eb ec ed = rw (x.at_b, y.at_b, eb)
    by_place (suc (suc zero)) h ea eb ec ed = rw (x.at_c, y.at_c, ec)
    by_place (suc (suc (suc zero))) h ea eb ec ed = rw (x.at_d, y.at_d, ed)
    by_place (suc (suc (suc (suc i)))) h ea eb ec ed = absurd (omega arith)

-- A candidate is accepted only if it is near enough and its four bytes agree.
pub is_match_lem :
    (source : Bytes) (candidate : ℤ) (position : ℕ)
    → All IsByte source
    → ((c : ℕ) → candidate ≡ pos c → c < position)
    → position + 4 ≤ length source
    → (found : Bool) × (is_match source candidate position ≡ ok found)
      × (found ≡ true
          → (c : ℕ) × (candidate ≡ pos c)
            × (position - c ≤ max_offset)
            × Agrees source c position 4)
unfolding is_match equal4
is_match_lem source (negsuc n) p bytes below h = (false, refl, λ e. cc)
is_match_lem source (pos c) p bytes below h =
    elim (Bool-cases (ltb_ℤ (pos max_offset) (sub_ℕ p c))) [
      | inl far ↦ (false, rw far, λ e. cc)
      | inr near ↦
          let lt : c < p = below c refl in
          let (v, run, x) = uint32_at_lem source c bytes (omega arith) in
          let (w, run', y) = uint32_at_lem source p bytes h in
          (
            v == w,
            rw (near, run, run'),
            λ e. (c, refl, ground arith, words_agree source c p v w x y (ground arith)),
          )
    ]

Agrees-suc :
    (source : Bytes) (c p n : ℕ)
    → Agrees source c p n
    → get_elem? source (c + n) ≡ get_elem? source (p + n)
    → Agrees source c p (n + 1)
Agrees-suc source c p n h e i lt = elim (Bool-cases (i == n)) [
  | inl same ↦ let s : i ≡ n = ground arith in rw s e
  | inr other ↦ h i (ground arith)
]

-- The loop ends with a match that is at least as long and ends within the source.
pub match_loop_lem :
    (fuel : ℕ) (source : Bytes) (c p n : ℕ)
    → length source < p + n + fuel
    → c < p
    → p + n ≤ length source
    → Agrees source c p n
    → (n' : ℕ) × (match_loop fuel source c p n ≡ ok n')
      × (n ≤ n')
      × (p + n' ≤ length source)
      × Agrees source c p n'
unfolding match_loop
match_loop_lem zero source c p n f lt fits same = absurd (omega arith)
match_loop_lem (suc fuel) source c p n f lt fits same =
    elim (Bool-cases (ltb_ℤ (pos (p + n)) (sub_ℕ (length source) last_literals))) [
      | inr e ↦ (n, rw e, omega arith, fits, same)
      | inl e ↦
          let inner : p + n < length source = ground arith in
          let (a, ea) = get_elem?_bound source (c + n) (omega arith) in
          let (b, eb) = get_elem?_bound source (p + n) inner in
          elim (Bool-cases (a == b)) [
            | inr d ↦ (
              n,
              rw (e, at_lem source (c + n) ea, at_lem source (p + n) eb, d),
              omega arith,
              fits,
              same,
            )
            | inl d ↦
                let ab : a ≡ b = ground arith in
                let (n', run, more, fits', same') =
                  match_loop_lem fuel source c p (n + 1) (omega arith) lt (omega arith)
                    (Agrees-suc source c p n same (ea ∙ ap some ab ∙ sym eb)) in
                (
                  n',
                  rw (e, at_lem source (c + n) ea, at_lem source (p + n) eb, d) run,
                  omega arith,
                  fits',
                  same',
                )
          ]
    ]
