-- ===== src/Diff/Lines.antt =====
-- `Lines` of internal/diff/diff.go.
use go_svn.Base.{
  ℕ, suc, ◌≡◌, refl, ap, sym, ◌∙◌, false, List, [], ◌∷◌, ◌++◌, Bytes, ◌==◌, length, All, Bool-cases,
  inl, inr, arith, append-nil,
}
use go_svn.Diff.{split_after, drop_last_empty, split_lines, put_first, join}

-- A line is not empty, and has a newline at its end at most.
abbrev pub IsLine : Bytes → Type 0
IsLine [] = ⊥
IsLine (c ∷ []) = Unit
IsLine (c ∷ (d ∷ line)) = ((c == 10) ≡ false) × IsLine (d ∷ line)

-- The strings of `strings.SplitAfter`: lines, and then one that may be empty.
abbrev IsSplit : List Bytes → Type 0
IsSplit [] = ⊥
IsSplit ([] ∷ []) = Unit
IsSplit ((c ∷ line) ∷ []) = IsLine (c ∷ line)
IsSplit (line ∷ (next ∷ lines)) = IsLine line × IsSplit (next ∷ lines)

put_first-IsSplit :
    (c : ℕ) (lines : List Bytes) → (c == 10) ≡ false → IsSplit lines → IsSplit (put_first c lines)
put_first-IsSplit c [] e h = elim h [ ]
put_first-IsSplit c ([] ∷ []) e h = tt
put_first-IsSplit c ((d ∷ line) ∷ []) e h = (e, h)
put_first-IsSplit c ([] ∷ (next ∷ lines)) e h = elim h.0 [ ]
put_first-IsSplit c ((d ∷ line) ∷ (next ∷ lines)) e h = ((e, h.0), h.1)

newline-IsSplit : (c : ℕ) (lines : List Bytes) → IsSplit lines → IsSplit ((c ∷ []) ∷ lines)
newline-IsSplit c [] h = elim h [ ]
newline-IsSplit c (line ∷ lines) h = (tt, h)

nonempty_lem : (n : ℕ) → (suc n == 0) ≡ false
nonempty_lem n = ground arith

split_after-IsSplit : (text : Bytes) → IsSplit (split_after text)
unfolding split_after
split_after-IsSplit [] = tt
split_after-IsSplit (c ∷ text) = elim (Bool-cases (c == 10)) [
  | inl e ↦ rw e (newline-IsSplit c (split_after text) (split_after-IsSplit text))
  | inr e ↦ rw e (put_first-IsSplit c (split_after text) e (split_after-IsSplit text))
]

join-put_first : (c : ℕ) (lines : List Bytes) → join [] (put_first c lines) ≡ c ∷ join [] lines
unfolding join
join-put_first c [] = refl
join-put_first c (line ∷ []) = refl
join-put_first c (line ∷ (next ∷ lines)) = refl

join-cons : (line : Bytes) (lines : List Bytes) → join [] (line ∷ lines) ≡ line ++ join [] lines
unfolding join
join-cons line [] = sym (append-nil line)
join-cons line (next ∷ lines) = refl

join-split_after : (text : Bytes) → join [] (split_after text) ≡ text
unfolding split_after join
join-split_after [] = refl
join-split_after (c ∷ text) = elim (Bool-cases (c == 10)) [
  | inl e ↦ rw (e, join-cons (c ∷ []) (split_after text), join-split_after text) refl
  | inr e ↦ rw (e, join-put_first c (split_after text), join-split_after text) refl
]

drop_last_empty-All : (lines : List Bytes) → IsSplit lines → All IsLine (drop_last_empty lines)
unfolding drop_last_empty
drop_last_empty-All [] h = tt
drop_last_empty-All ([] ∷ []) h = tt
drop_last_empty-All ((c ∷ line) ∷ []) h = rw (nonempty_lem (length line)) (h, tt)
drop_last_empty-All ([] ∷ (next ∷ lines)) h = elim h.0 [ ]
drop_last_empty-All ((c ∷ line) ∷ (next ∷ lines)) h = (h.0, drop_last_empty-All (next ∷ lines) h.1)

join-drop_last_empty : (lines : List Bytes) → join [] (drop_last_empty lines) ≡ join [] lines
unfolding drop_last_empty join
join-drop_last_empty [] = refl
join-drop_last_empty ([] ∷ []) = refl
join-drop_last_empty ((c ∷ line) ∷ []) = rw (nonempty_lem (length line)) refl
join-drop_last_empty (line ∷ (next ∷ lines)) =
    join-cons line _ ∙ ap (λ t. line ++ t) (join-drop_last_empty (next ∷ lines))

-- `Lines` cuts a text into lines, none of them empty and with a newline at its end at most, that are
-- the text when joined.
join-split_lines :
    (text : Bytes) → (join [] (split_lines text) ≡ text) × All IsLine (split_lines text)
unfolding split_lines join
join-split_lines [] = (refl, tt)
join-split_lines (c ∷ text) = rw (nonempty_lem (length text)) (
  join-drop_last_empty (split_after (c ∷ text)) ∙ join-split_after (c ∷ text),
  drop_last_empty-All (split_after (c ∷ text)) (split_after-IsSplit (c ∷ text)),
)
