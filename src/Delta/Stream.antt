-- ===== src/Delta/Stream.antt =====
-- delta/txstream.go and delta/apply.go: a delta between two streams, and its application. A reader is
-- the list of bytes left, and never fails; the digest is a parameter.
pub mod Correct
use go_svn.Base.{
  ℕ, zero, suc, ◌+◌, ◌≡◌, Bool, true, false, not, ◌&&◌, ◌||◌, Option, none, some, List, [], ◌∷◌,
  ◌++◌, Bytes, leb, ltb, ◌==◌, if◌then◌else◌, length, take, drop,
}
use go_svn.Base.Int.{ℤ, pos, negsuc, pos_part, ltb_ℤ}
use go_svn.Base.Outcome.{
  Outcome, ok, err, panic, eof, out_of_fuel, checksum_mismatch, seek_failed, read_failed, of_option,
  ◌>>=◌, ◌>>◌, guard, slice, make_slice,
}
use go_svn.Checksum.{Hashes, Checksum, checksum_md5, equal_checksum}
use go_svn.Delta.Window.{Window, apply_window, is_negative}
use go_svn.Delta.Xdelta.{build_window}
use go_svn.Delta.Svndiff.{Decoder, Zlib, max_window_size, next_window}

-- `WindowReader`: the next window and the reader behind it, or nothing at the end.
pub record WindowReader {ℓ} (R : Type ℓ) : Type ℓ where
  pub next : R → Outcome (Option Window × R)

-- `WindowHandler`, with the state that it changes.
pub record WindowHandler {ℓ} (S : Type ℓ) : Type ℓ where
  pub window : S → Window → Outcome S
  pub close : S → Outcome S

pub record TxDeltaStream : Type 0 where
  pub source : Bytes
  pub target : Bytes
  pub digested : Bytes
  pub source_offset : ℕ
  pub done : Bool
  pub checksum : Option Checksum

unfoldable pub new_stream : (source target : Bytes) → TxDeltaStream
new_stream source target = record {
  source = source;
  target = target;
  digested = [];
  source_offset = 0;
  done = false;
  checksum = none;
}

-- A chunk, and the reader behind it.
unfoldable pub read_window_chunk : Bytes → Bytes × Bytes
read_window_chunk input = (take max_window_size input, drop max_window_size input)

module _ (h : Hashes) where
  abbrev pub md5_checksum : Bytes → Checksum
  md5_checksum written = record { kind = checksum_md5; digest = h.md5 written }

  unfoldable pub next_delta : TxDeltaStream → Outcome (Option Window × TxDeltaStream)
  next_delta s =
      let (target, target') = read_window_chunk s.target in
      let (source, source') = read_window_chunk s.source in
      if s.done
      then ok (none, s)
      else if length target == 0
      then ok (none, record s { done = true; checksum = some (md5_checksum s.digested) })
      else (do
        w ← build_window source target (pos s.source_offset)
        ok (
          some w,
          record s {
            source = source';
            target = target';
            digested = s.digested ++ target;
            source_offset = s.source_offset + length source;
          },
        ))

  unfoldable pub stream_reader : WindowReader TxDeltaStream
  stream_reader = record { next = next_delta }

  module _ {ℓ} {S : Type ℓ} (handler : WindowHandler S) where
    -- The loop of `SendStream`, and the close behind it.
    unfoldable pub send_loop : (fuel : ℕ) → TxDeltaStream → S → Outcome (S × TxDeltaStream)
    send_loop zero stream state = out_of_fuel
    send_loop (suc fuel) stream state = do
      (next, stream') ← next_delta stream
      elim next [
        | none ↦ ok (state, stream')
        | some w ↦ (do state' ← handler.window state w; send_loop fuel stream' state')
      ]

    -- A round takes a byte of the target at least, and one more ends the loop.
    unfoldable pub send_stream : (source target : Bytes) → S → Outcome (S × Checksum)
    send_stream source target state = do
      (state', stream) ← send_loop (suc (length target)) (new_stream source target) state
      state'' ← handler.close state'
      checksum ← of_option stream.checksum
      ok (state'', checksum)

    unfoldable pub send_contents : (contents : Bytes) → S → Outcome (S × Checksum)
    send_contents contents state = send_stream [] contents state

-- `Windows`: a reader of a list.
unfoldable pub next_of_list : List Window → Outcome (Option Window × List Window)
next_of_list [] = ok (none, [])
next_of_list (w ∷ windows) = ok (some w, windows)

unfoldable pub list_reader : WindowReader (List Window)
list_reader = record { next = next_of_list }

-- A decoder as a reader: `io.EOF` is the end.
abbrev pub end_of_windows {ℓ} :
    {R : Type ℓ} → R → Outcome (Window × R) → Outcome (Option Window × R)
end_of_windows r (ok (w, r')) = ok (some w, r')
end_of_windows r (err eof) = ok (none, r)
end_of_windows r (err e) = err e
end_of_windows r panic = panic
end_of_windows r out_of_fuel = out_of_fuel

unfoldable pub decoder_reader : Zlib → WindowReader Decoder
decoder_reader z = record { next = λ d. end_of_windows d (next_window z d) }

-- The source view of a window. A slice of negative length is a panic, and one that is too large to be
-- made; a slice that is used again is one that could be made. A view of length 0 is not read.
unfoldable pub source_view : Bytes → Window → Outcome Bytes
source_view source w =
    if is_negative w.source_length
    then panic
    else if pos_part w.source_length == 0
    then ok []
    else (do
      make_slice (pos_part w.source_length)
      guard (not (is_negative w.source_offset)) seek_failed
      guard (leb (pos_part w.source_offset + pos_part w.source_length) (length source)) read_failed
      slice source (pos_part w.source_offset) (pos_part w.source_offset + pos_part w.source_length))

module _ {ℓ} {R : Type ℓ} (reader : WindowReader R) where
  -- The loop of `Apply`, with what was written so far.
  unfoldable pub apply_loop : (fuel : ℕ) → Bytes → R → (output : Bytes) → Outcome Bytes
  apply_loop zero source r output = out_of_fuel
  apply_loop (suc fuel) source r output = do
    (next, r') ← reader.next r
    elim next [
      | none ↦ ok output
      | some w ↦ (do
        view ← source_view source w
        contents ← apply_window view w
        apply_loop fuel source r' (output ++ contents))
    ]

  -- The target that is written, and its checksum.
  unfoldable pub apply :
      Hashes → (fuel : ℕ) → Bytes → R → (expected : Option Checksum) → Outcome (Bytes × Checksum)
  apply h fuel source r expected = do
    output ← apply_loop fuel source r []
    let actual = md5_checksum h output
    elim expected [
      | none ↦ ok (output, actual)
      | some wanted ↦ (do
        guard (equal_checksum actual wanted) checksum_mismatch
        ok (output, actual))
    ]
