-- ===== src/Delta/Window/Copy.antt =====
-- Copies within the target view: `OpTarget` of `ApplyWindow`.
use go_svn.Base.{
  ℕ, zero, suc, ◌+◌, ◌<◌, ◌≡◌, refl, sym, ap, ◌∙◌, [], ◌∷◌, ◌++◌, Bytes, some, length,
  length-append, get_elem?, get_elem?_bound, get_elem?-append_left, append_assoc, append-nil, arith,
}
use mathlib.Core.Path.{subst}
use go_svn.Base.Outcome.{ok, at}
use go_svn.Delta.Window.{copy_target}

get_elem?_seam : (xs ys : Bytes) (b : ℕ) → get_elem? (xs ++ (b ∷ ys)) (length xs) ≡ some b
get_elem?_seam [] ys b = refl
get_elem?_seam (x ∷ xs) ys b = get_elem?_seam xs ys b

abbrev pub Repeats : (position from rounds : ℕ) → Bytes → Type 0
Repeats position from rounds final =
    (i : ℕ) → i < rounds → get_elem? final (from + i) ≡ get_elem? final (position + i)

Repeats-suc :
    (position from rounds : ℕ) (final : Bytes)
    → get_elem? final from ≡ get_elem? final position
    → Repeats (position + 1) (from + 1) rounds final
    → Repeats position from (suc rounds) final
Repeats-suc position from rounds final first rest zero h =
    let p : position + 0 ≡ position = omega arith in
    let f : from + 0 ≡ from = omega arith in rw (p, f) first
Repeats-suc position from rounds final first rest (suc i) h =
    let p : position + suc i ≡ position + 1 + i = omega arith in
    let f : from + suc i ≡ from + 1 + i = omega arith in rw (p, f) (rest i (omega arith))

seam_byte :
    (target piece : Bytes) (position b : ℕ)
    → get_elem? target position ≡ some b
    → position < length target
    → get_elem? (target ++ (b ∷ piece)) (length target) ≡ get_elem? (target ++ (b ∷ piece)) position
seam_byte target piece position b e h =
    get_elem?_seam target piece b ∙ sym (get_elem?-append_left target (b ∷ piece) position h ∙ e)

copy_target_round :
    (rounds position : ℕ) (target : Bytes) (b : ℕ)
    → get_elem? target position ≡ some b
    → copy_target (suc rounds) position target
      ≡ copy_target rounds (position + 1) (target ++ (b ∷ []))
unfolding copy_target at
copy_target_round rounds position target b e = rw e

-- A copy that starts within the produced bytes never indexes out of range; it appends exactly the
-- bytes asked for and keeps those that are there; and each appended byte is the one `position`
-- bytes further on in the final target, also where the copy overlaps itself.
pub copy_target_lem :
    (rounds position : ℕ) (target : Bytes)
    → position < length target
    → (piece : Bytes) × (copy_target rounds position target ≡ ok (target ++ piece))
      × (length piece ≡ rounds)
      × Repeats position (length target) rounds (target ++ piece)
copy_target_lem zero position target h =
    ([], rw append-nil (unfold copy_target in refl), refl, λ i lt. elim lt [ ])
copy_target_lem (suc rounds) position target h =
    let (b, found) = get_elem?_bound target position h in
    let longer : length (target ++ (b ∷ [])) ≡ length target + 1 =
      omega (arith, length-append target (b ∷ [])) in
    let (piece, run, count, repeats) =
      copy_target_lem rounds (position + 1) (target ++ (b ∷ [])) (omega (arith, longer)) in
    let joined : (target ++ (b ∷ [])) ++ piece ≡ target ++ (b ∷ piece) =
      append_assoc target (b ∷ []) piece in
    (
      b ∷ piece,
      copy_target_round rounds position target b found ∙ run ∙ ap ok joined,
      ap suc count,
      Repeats-suc position (length target) rounds _ (seam_byte target piece position b found h) (
          subst (λ f. Repeats (position + 1) f rounds (target ++ (b ∷ piece))) longer
            (subst (λ t. Repeats (position + 1) (length (target ++ (b ∷ []))) rounds t) joined
              repeats)),
    )
