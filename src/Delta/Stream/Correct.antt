-- ===== src/Delta/Stream/Correct.antt =====
-- delta/txstream.go against delta/apply.go: the windows that are sent, applied.
use go_svn.Base.{
  ℕ, zero, suc, ◌+◌, ◌-◌, ◌≤◌, ◌<◌, ◌≡◌, ◌∙◌, refl, sym, ap, inl, inr, true, false, Bool-cases,
  some, List, [], ◌∷◌, ◌++◌, Bytes, append_assoc, append-nil, leb, ◌==◌, length, take, drop,
  length-take, length-drop, take-append-drop, arith, equal_refl,
}
use go_svn.Base.Int.{pos}
use go_svn.Base.Outcome.{ok, slice_lem, max_alloc, make_slice_lem}
use go_svn.Checksum.{Hashes, equal_checksum}
use go_svn.Delta.Window.{Window}
use go_svn.Delta.Xdelta.Build.Correct.{build_window-Builds, Builds-apply_window}
use go_svn.Delta.Svndiff.{max_window_size}
use go_svn.Delta.Stream.{
  WindowHandler, TxDeltaStream, new_stream, md5_checksum, next_delta, send_loop, send_stream,
  list_reader, next_of_list, source_view, apply_loop, apply, read_window_chunk,
}

-- A handler that keeps what it is given.
unfoldable pub collector : WindowHandler (List Window)
collector = record { window = λ ws w. ok (ws ++ (w ∷ [])); close = λ ws. ok ws }

take_own_length : (n : ℕ) (xs : Bytes) → take (length (take n xs)) xs ≡ take n xs
take_own_length zero xs = refl
take_own_length (suc n) [] = refl
take_own_length (suc n) (x ∷ xs) = ap (λ t. x ∷ t) (take_own_length n xs)

drop_own_length : (n : ℕ) (xs : Bytes) → drop n xs ≡ drop (length (take n xs)) xs
drop_own_length zero xs = refl
drop_own_length (suc n) [] = refl
drop_own_length (suc n) (x ∷ xs) = drop_own_length n xs

drop_nil : (n : ℕ) → drop {A = ℕ} n [] ≡ []
drop_nil zero = refl
drop_nil (suc n) = refl

take_nil : (n : ℕ) → take {A = ℕ} n [] ≡ []
take_nil zero = refl
take_nil (suc n) = refl

drop-drop : (k n : ℕ) (xs : Bytes) → drop n (drop k xs) ≡ drop (k + n) xs
drop-drop zero n xs = let p : 0 + n ≡ n = omega arith in rw p
drop-drop (suc k) n [] = drop_nil n ∙ sym (drop_nil (suc k + n))
drop-drop (suc k) n (x ∷ xs) =
    let p : suc k + n ≡ suc (k + n) = omega arith in rw p (drop-drop k n xs)

length-zero : (xs : Bytes) → length xs ≡ 0 → xs ≡ []
length-zero [] e = refl
length-zero (x ∷ xs) e = absurd (omega arith)

empty_chunk : (n : ℕ) (xs : Bytes) → 0 < n → (length (take n xs) == 0) ≡ true → xs ≡ []
empty_chunk zero xs lt e = absurd (omega arith)
empty_chunk (suc n) [] lt e = refl
empty_chunk (suc n) (x ∷ xs) lt e = absurd (ground arith)

shorter_rest :
    (n : ℕ) (xs : Bytes) → (length (take n xs) == 0) ≡ false → length (drop n xs) < length xs
shorter_rest zero xs e = cc
shorter_rest (suc n) [] e = cc
shorter_rest (suc n) (x ∷ xs) e = omega (arith, length-drop n xs)

source_view_lem :
    (source : Bytes) (k n : ℕ) (w : Window)
    → n ≤ max_alloc
    → k ≤ length source
    → w.source_offset ≡ pos k
    → w.source_length ≡ pos (length (take n (drop k source)))
    → source_view source w ≡ ok (take n (drop k source))
unfolding source_view
source_view_lem source k n w allocated le offset len =
    let chunk : Bytes = take n (drop k source) in
    let short : length chunk ≤ length source - k =
      omega (arith, length-take n (drop k source), length-drop k source) in
    elim (Bool-cases (length chunk == 0)) [
      | inl e ↦ rw (len, e, length-zero chunk (ground arith))
      | inr e ↦
          let inside : leb (k + length chunk) (length source) ≡ true = ground arith in
          let same : k + length chunk - k ≡ length chunk = omega arith in
          rw
            (
              len,
              offset,
              e,
              make_slice_lem (length chunk) (omega (arith, length-take n (drop k source))),
              inside,
              slice_lem source k (k + length chunk) (omega arith) (ground arith),
              same,
            )
            (ap ok (take_own_length n (drop k source)))
    ]

read_window_chunk_lem :
    (input : Bytes)
    → read_window_chunk input ≡ (take max_window_size input, drop max_window_size input)
unfolding read_window_chunk
read_window_chunk_lem input = refl

module _ (h : Hashes) (source : Bytes) (n : ℕ) (positive : 0 < n) (allocated : n ≤ max_alloc)
    (chunks : (input : Bytes) → read_window_chunk input ≡ (take n input, drop n input)) where
  -- What a stream and the delta that it still has to send are, after some windows.
  record Reads (s : TxDeltaStream) : Type 0 where
    rest : s.source ≡ drop s.source_offset source
    inside : s.source_offset ≤ length source
    more : s.done ≡ false

  -- The windows that a stream sends, the checksum at its end, and what the application makes of them.
  record Sends (fuel : ℕ) (s : TxDeltaStream) : Type 0 where
    windows : List Window
    last : TxDeltaStream
    sent : (kept : List Window) → send_loop h collector fuel s kept ≡ ok (kept ++ windows, last)
    checksum : last.checksum ≡ some (md5_checksum h (s.digested ++ s.target))
    applied :
        (output : Bytes)
        → apply_loop list_reader (suc (length windows)) source windows output
          ≡ ok (output ++ s.target)

  Sends-none : (fuel : ℕ) (s : TxDeltaStream) → Reads s → s.target ≡ [] → Sends (suc fuel) s
  unfolding send_loop apply_loop next_delta list_reader next_of_list
  Sends-none fuel s r empty =
      let last : TxDeltaStream = record s {
        done = true;
        checksum = some (md5_checksum h s.digested);
      } in
      record {
        windows = [];
        last = last;
        sent = λ kept.
            rw (r.more, chunks s.target, chunks s.source, empty, take_nil n, append-nil kept) refl;
        checksum = rw (empty, append-nil s.digested) refl;
        applied = λ output. rw (empty, append-nil output) refl;
      }

  -- The stream behind a window.
  abbrev behind : TxDeltaStream → TxDeltaStream
  behind s = record s {
    source = drop n s.source;
    target = drop n s.target;
    digested = s.digested ++ take n s.target;
    source_offset = s.source_offset + length (take n s.source);
    done = false;
  }

  behind-Reads : (s : TxDeltaStream) → Reads s → Reads (behind s)
  behind-Reads s r = record {
    rest =
        let same : drop n (drop s.source_offset source)
            ≡ drop (s.source_offset + length (take n (drop s.source_offset source))) source =
          drop_own_length n _ ∙ drop-drop s.source_offset _ source in
        rw r.rest same;
    inside = rw r.rest (
        omega (
          arith,
          r.inside,
          length-take n (drop s.source_offset source),
          length-drop s.source_offset source,
        ));
    more = refl;
  }

  Sends-one :
      (fuel : ℕ) (s : TxDeltaStream)
      → Reads s
      → (length (take n s.target) == 0) ≡ false
      → Sends fuel (behind s)
      → Sends (suc fuel) s
  unfolding send_loop apply_loop next_delta list_reader next_of_list collector
  Sends-one fuel s r e rest =
      let view : Bytes = take n s.source in
      let chunk : Bytes = take n s.target in
      let (w, built, b) = build_window-Builds view chunk (pos s.source_offset) in
      let short : length chunk ≤ max_alloc = omega (arith, allocated, length-take n s.target) in
      let whole : (s.digested ++ chunk) ++ drop n s.target ≡ s.digested ++ s.target =
        append_assoc s.digested chunk (drop n s.target) ∙ rw (take-append-drop n s.target) refl in
      let cut : view ≡ take n (drop s.source_offset source) = ap (take n) r.rest in
      let seen : source_view source w ≡ ok view =
        source_view_lem source s.source_offset n w allocated r.inside b.source_offset
          (b.source_length ∙ ap (λ t. pos (length t)) cut)
        ∙ ap ok (sym cut) in
      record {
        windows = w ∷ rest.windows;
        last = rest.last;
        sent = λ kept.
            rw (r.more, chunks s.target, chunks s.source, e, built)
              (rest.sent (kept ++ (w ∷ [])) ∙ rw (append_assoc kept (w ∷ []) rest.windows) refl);
        checksum = rest.checksum ∙ ap (λ t. some (md5_checksum h t)) whole;
        applied = λ output.
            rw (seen, Builds-apply_window view chunk s.source_offset w b short)
              (rest.applied (output ++ chunk)
                ∙ ap ok (
                    append_assoc output chunk (drop n s.target)
                    ∙ rw (take-append-drop n s.target) refl));
      }

  Sends-all : (fuel : ℕ) (s : TxDeltaStream) → Reads s → length s.target < fuel → Sends fuel s
  Sends-all zero s r lt = absurd (omega arith)
  Sends-all (suc fuel) s r lt = elim (Bool-cases (length (take n s.target) == 0)) [
    | inl e ↦ Sends-none fuel s r (empty_chunk n s.target positive e)
    | inr e ↦
        let further : length (drop n s.target) < fuel = omega (arith, shorter_rest n s.target e) in
        Sends-one fuel s r e (Sends-all fuel (behind s) (behind-Reads s r) further)
  ]

-- A delta between two byte strings is always sent to its end. Applied to the source under the
-- checksum that `SendStream` returns, the windows that were sent rebuild the target, and that
-- checksum is the target's MD5.
pub apply-send_stream :
    (h : Hashes) (source target : Bytes)
    → (windows : List Window) × (send_stream h collector source target []
        ≡ ok (windows, md5_checksum h target))
      × (apply list_reader h (suc (length windows)) source windows (some (md5_checksum h target))
          ≡ ok (target, md5_checksum h target))
unfolding send_stream apply new_stream equal_checksum collector
apply-send_stream h source target =
    let s =
      Sends-all h source max_window_size (omega arith) (omega arith) read_window_chunk_lem
        (suc (length target)) (new_stream source target)
        (record { rest = refl; inside = omega arith; more = refl }) (omega arith) in
    (s.windows, rw (s.sent [], s.checksum) refl, rw (s.applied [], equal_refl (h.md5 target)) refl)
