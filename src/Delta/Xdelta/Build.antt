-- ===== src/Delta/Xdelta/Build.antt =====
-- The window under construction in `buildWindow` of delta/xdelta.go.
pub mod Correct
use mathlib.Core.Path.{subst}
use go_svn.Base.Int.{pos, pos_part, ℤ}
use go_svn.Delta.Xdelta.{append_literal, append_source}
use go_svn.Delta.Window.{
  op_source, validate_kind, Op, Window, apply_op, apply_ops, op_new, validate_op, validate_ops,
}
use go_svn.Delta.Instructions.RoundTrip.{Sequential, done, takes_new, takes_old}
use go_svn.Base.Outcome.{slice, slice_lem, >>=-eq-ok, ok}
use go_svn.Delta.Xdelta.Match.{IsMatch}
use go_svn.Base.{
  drop, length-drop, length-take, ap, append_assoc, arith, drop-append_seam, length-append, refl,
  sym, take-append-take, take-append_seam, ◌-◌, ◌∙◌, [], length, Bytes, List, take, ℕ, ◌++◌, ◌+◌,
  ◌<◌, ◌∷◌, ◌≡◌, ◌≢◌, ◌≤◌,
}

pub apply_ops-append_one :
    (source new_data : Bytes) (ops : List Op) (op : Op) (target middle final : Bytes)
    → apply_ops source new_data target ops ≡ ok middle
    → apply_op source new_data middle op ≡ ok final
    → apply_ops source new_data target (ops ++ (op ∷ [])) ≡ ok final
unfolding apply_ops
apply_ops-append_one source new_data [] op target middle final e f =
    let same : target ≡ middle = cc in rw (same, f)
apply_ops-append_one source new_data (o ∷ ops) op target middle final e f =
    let (next, first, rest) = >>=-eq-ok (apply_op source new_data target o) _ e in
    rw first (apply_ops-append_one source new_data ops op next middle final rest f)

pub validate_ops-append_one :
    (s t n : ℕ) (ops : List Op) (op : Op) (start middle final : ℕ)
    → validate_ops s t n start ops ≡ ok middle
    → validate_op s t n middle op ≡ ok final
    → validate_ops s t n start (ops ++ (op ∷ [])) ≡ ok final
unfolding validate_ops
validate_ops-append_one s t n [] op start middle final e f =
    let same : start ≡ middle = cc in rw (same, f)
validate_ops-append_one s t n (o ∷ ops) op start middle final e f =
    let (next, first, rest) = >>=-eq-ok (validate_op s t n start o) _ e in
    rw first (validate_ops-append_one s t n ops op next middle final rest f)

pub Sequential-append_new :
    {n m : ℕ} {ops : List Op} (op : Op) (final : ℕ)
    → Sequential n ops m
    → op.kind ≡ op_new
    → op.offset ≡ pos m
    → m + pos_part op.length ≡ final
    → Sequential n (ops ++ (op ∷ [])) final
Sequential-append_new op final (done n) k o e = takes_new k o (rw e (done final))
Sequential-append_new op final (takes_new k' o' s) k o e =
    takes_new k' o' (Sequential-append_new op final s k o e)
Sequential-append_new op final (takes_old k' s) k o e =
    takes_old k' (Sequential-append_new op final s k o e)

pub Sequential-append_old :
    {n m : ℕ} {ops : List Op} (op : Op)
    → Sequential n ops m
    → op.kind ≢ op_new
    → Sequential n (ops ++ (op ∷ [])) m
Sequential-append_old op (done n) k = takes_old k (done n)
Sequential-append_old op (takes_new k' o' s) k = takes_new k' o' (Sequential-append_old op s k)
Sequential-append_old op (takes_old k' s) k = takes_old k' (Sequential-append_old op s k)

-- The window produces the first `count` bytes of the target, with any more new data behind its own.
pub record Builds (source target : Bytes) (offset : ℤ) (count : ℕ) (w : Window) : Type 0 where
  pub within : count ≤ length target
  pub source_offset : w.source_offset ≡ offset
  pub source_length : w.source_length ≡ pos (length source)
  pub target_length : w.target_length ≡ pos (length target)
  pub applies :
      (more : Bytes) → apply_ops source (w.new_data ++ more) [] w.ops ≡ ok (take count target)
  pub valid :
      (more : Bytes)
      → validate_ops (length source) (length target) (length (w.new_data ++ more)) 0 w.ops
        ≡ ok count
  pub sequential : Sequential 0 w.ops (length w.new_data)

abbrev source_op : ℕ → ℕ → Op
source_op candidate n = record { kind = op_source; offset = pos candidate; length = pos n }

abbrev new_op : ℕ → ℕ → Op
new_op start n = record { kind = op_new; offset = pos start; length = pos n }

apply_source_op :
    (source target new_data : Bytes) (candidate position n : ℕ)
    → IsMatch source target candidate position n
    → apply_op source new_data (take position target) (source_op candidate n)
      ≡ ok (take (position + n) target)
unfolding apply_op
apply_source_op source target new_data candidate position n m =
    let size : candidate + n - candidate ≡ n = omega arith in
    rw (slice_lem source candidate (candidate + n) (omega arith) m.source_in, size, m.same)
      (ap ok (take-append-take position n target))

validate_source_op :
    (s t k position candidate n : ℕ)
    → 0 < n
    → candidate + n ≤ s
    → position + n ≤ t
    → validate_op s t k position (source_op candidate n) ≡ ok (position + n)
unfolding validate_op validate_kind
validate_source_op s t k position candidate n p hs ht = ground arith

apply_new_op :
    (source front piece more target : Bytes)
    → apply_op source ((front ++ piece) ++ more) target (new_op (length front) (length piece))
      ≡ ok (target ++ piece)
unfolding apply_op
apply_new_op source front piece more target =
    let size : length front + length piece - length front ≡ length piece = omega arith in
    let room : length front + length piece ≤ length ((front ++ piece) ++ more) =
      omega (arith, length-append (front ++ piece) more, length-append front piece) in
    rw (
      slice_lem ((front ++ piece) ++ more) (length front) (length front + length piece)
          (omega arith) room,
      size,
      append_assoc,
      drop-append_seam,
      take-append_seam,
    )

validate_new_op :
    (s t k position start n : ℕ)
    → 0 < n
    → start + n ≤ k
    → position + n ≤ t
    → validate_op s t k position (new_op start n) ≡ ok (position + n)
unfolding validate_op validate_kind
validate_new_op s t k position start n p hs ht = ground arith

module _ (source target : Bytes) (offset : ℤ) where
  pub append_source-Builds :
      (position candidate n : ℕ) (w : Window)
      → 0 < n
      → IsMatch source target candidate position n
      → Builds source target offset position w
      → Builds source target offset (position + n) (append_source w (pos candidate) n)
  unfolding append_source
  append_source-Builds position candidate n w p m b = record {
    within = m.target_in;
    source_offset = b.source_offset;
    source_length = b.source_length;
    target_length = b.target_length;
    applies = λ more.
        apply_ops-append_one source (w.new_data ++ more) w.ops _ [] (take position target) _
          (b.applies more)
          (apply_source_op source target (w.new_data ++ more) candidate position n m);
    valid = λ more.
        validate_ops-append_one (length source) (length target) (length (w.new_data ++ more)) w.ops
          _ 0 position _ (b.valid more)
          (validate_source_op _ _ _ position candidate n p m.source_in m.target_in);
    sequential = Sequential-append_old _ b.sequential (λ k. omega arith);
  }

  append_cons-Builds :
      (start finish : ℕ) (w : Window) (byte : ℕ) (literal : Bytes)
      → start + length (byte ∷ literal) ≡ finish
      → finish ≤ length target
      → take start target ++ (byte ∷ literal) ≡ take finish target
      → Builds source target offset start w
      → Builds source target offset finish (append_literal w (byte ∷ literal))
  unfolding append_literal
  append_cons-Builds start finish w byte literal e h same b = record {
    within = h;
    source_offset = b.source_offset;
    source_length = b.source_length;
    target_length = b.target_length;
    applies = λ more.
        apply_ops-append_one source ((w.new_data ++ (byte ∷ literal)) ++ more) w.ops _ []
          (take start target) _
          (ap (λ d. apply_ops source d [] w.ops) (append_assoc w.new_data (byte ∷ literal) more)
            ∙ b.applies ((byte ∷ literal) ++ more))
          (apply_new_op source w.new_data (byte ∷ literal) more (take start target) ∙ ap ok same);
    valid = λ more.
        validate_ops-append_one (length source) (length target)
          (length ((w.new_data ++ (byte ∷ literal)) ++ more)) w.ops _ 0 start _
          (ap (λ d. validate_ops (length source) (length target) (length d) 0 w.ops)
              (append_assoc w.new_data (byte ∷ literal) more)
            ∙ b.valid ((byte ∷ literal) ++ more))
          (validate_new_op _ _ _ start (length w.new_data) (length (byte ∷ literal)) (omega arith)
              (omega (
                arith,
                length-append (w.new_data ++ (byte ∷ literal)) more,
                length-append w.new_data (byte ∷ literal),
              ))
              (omega arith)
            ∙ ap ok e);
    sequential =
        Sequential-append_new _ _ b.sequential refl refl
          (sym (length-append w.new_data (byte ∷ literal)));
  }

  append_any-Builds :
      (start finish : ℕ) (w : Window) (literal : Bytes)
      → start + length literal ≡ finish
      → finish ≤ length target
      → take start target ++ literal ≡ take finish target
      → Builds source target offset start w
      → Builds source target offset finish (append_literal w literal)
  append_any-Builds start finish w [] e h same b =
      let now : start ≡ finish = omega arith in
      unfold append_literal in subst (λ k. Builds source target offset k w) now b
  append_any-Builds start finish w (byte ∷ literal) e h same b =
      append_cons-Builds start finish w byte literal e h same b

  -- The pending literal is the piece of the target from `start` up to `finish`; it may be empty.
  pub append_literal-Builds :
      (start finish : ℕ) (w : Window)
      → start ≤ finish
      → finish ≤ length target
      → Builds source target offset start w
      → (literal : Bytes) × (slice target start finish ≡ ok literal)
        × Builds source target offset finish (append_literal w literal)
  append_literal-Builds start finish w le h b =
      let literal : Bytes = take (finish - start) (drop start target) in
      let size : start + length literal ≡ finish =
        omega (arith, length-take (finish - start) (drop start target), length-drop start target) in
      let whole : start + (finish - start) ≡ finish = omega arith in
      (
        literal,
        slice_lem target start finish le h,
        append_any-Builds start finish w literal size h
            (take-append-take start (finish - start) target ∙ ap (λ k. take k target) whole) b,
      )
