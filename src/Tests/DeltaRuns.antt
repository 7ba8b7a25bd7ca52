-- ===== src/Tests/DeltaRuns.antt =====
-- Runs of package delta.
use go_svn.Delta.Xdelta.Blocks.{index_get-build_source_index}
use go_svn.Delta.Varint.RoundTrip.{varint-append_varint}
use go_svn.Delta.Xdelta.Build.Correct.{apply_window-build_window}
use go_svn.Delta.Xdelta.Index.{positions, block_at}
use go_svn.Delta.Xdelta.{
  index_get, build_source_index, build_window, index_append, index_loop, roll_hash, rolling_hash,
  rolling_loop,
}
use go_svn.Delta.Varint.Number.{IsNumber, varint-base128}
use go_svn.Delta.Window.Total.{apply_window_cases}
use go_svn.Delta.Instructions.RoundTrip.{
  Sequential, decode_instructions-encode_instructions, done, takes_new, takes_old,
}
use go_svn.Delta.Instructions.{decode_instructions, encode_instructions}
use go_svn.Delta.Varint.{consume_varint, read_varint, varint_loop, append_varint}
use go_svn.Base.Int.{pos, pos_part}
use go_svn.Base.Outcome.{err, svndiff_invalid_ops, at, ok, slice, panic, max_alloc, make_slice}
use go_svn.Base.{
  ◌↔◌, ◌-◌, length, Bytes, arith, suc, zero, ℕ, ◌++◌, ◌<◌, ◌≢◌, ◌≤◌, ◌⊎◌, [], codes, refl, ◌∷◌, ◌≡◌,
}
use go_svn.Delta.Window.{
  Window, apply_op, apply_ops, apply_window, copy_target, op_new, op_source, op_target, validate,
  validate_kind, validate_op, validate_ops,
}

test_vectors :
    (append_varint [] 130 ≡ 0x81 ∷ 0x02 ∷ []) × (append_varint [] 16384 ≡ 0x81 ∷ 0x80 ∷ 0x00 ∷ [])
unfolding append_varint
test_vectors = (refl, refl)

abbrev small_window : Window
small_window = record {
  source_offset = pos 7;
  source_length = pos 4;
  target_length = pos 9;
  ops =
      record { kind = op_source; offset = pos 1; length = pos 2 }
      ∷ record { kind = op_new; offset = pos 0; length = pos 3 }
      ∷ record { kind = op_target; offset = pos 3; length = pos 4 }
      ∷ [];
  new_data = codes "xyz";
}

small_window-valid : validate small_window ≡ ok tt
unfolding validate validate_ops validate_op validate_kind
small_window-valid = refl

-- The last operation overlaps itself: it starts two bytes before the end of what is there.
small_window-applied : apply_window (codes "abcd") small_window ≡ ok (codes "bcxyzyzyz")
unfolding apply_window make_slice validate validate_ops validate_op validate_kind apply_ops apply_op
    copy_target slice at
small_window-applied = refl

consume_padded : consume_varint (0x80 ∷ 0x05 ∷ 9 ∷ []) ≡ ok (5, 9 ∷ [])
unfolding consume_varint varint_loop
consume_padded = refl

varint-append_varint_example :
    (read_varint (append_varint [] 300 ++ (7 ∷ [])) ≡ ok (300, 7 ∷ []))
    × (consume_varint (append_varint [] 300 ++ (7 ∷ [])) ≡ ok (300, 7 ∷ []))
varint-append_varint_example = varint-append_varint 300 (7 ∷ []) (omega arith)

apply_window_cases_example :
    ((target : Bytes) × (apply_window (codes "abcd") small_window ≡ ok target)
      × (small_window.target_length ≡ pos (length target))
      × (validate small_window ≡ ok tt)
      × (small_window.source_length ≡ pos (length (codes "abcd")))
      × (length target ≤ max_alloc))
    ⊎ ((apply_window (codes "abcd") small_window ≡ panic)
        × (max_alloc < pos_part small_window.target_length)
        × (validate small_window ≡ ok tt)
        × (small_window.source_length ≡ pos (length (codes "abcd"))))
    ⊎ ((apply_window (codes "abcd") small_window ≡ err svndiff_invalid_ops)
        × ((validate small_window ≡ err svndiff_invalid_ops)
            ⊎ (small_window.source_length ≢ pos (length (codes "abcd")))))
apply_window_cases_example = apply_window_cases (codes "abcd") small_window

small_window-Sequential : Sequential 0 small_window.ops (length small_window.new_data)
small_window-Sequential =
    takes_old (omega arith) (takes_new refl refl (takes_old (omega arith) (done 3)))

decode_instructions-encode_instructions_example :
    decode_instructions (encode_instructions small_window.ops) (pos 4) (pos 9) 3
    ≡ ok small_window.ops
decode_instructions-encode_instructions_example =
    decode_instructions-encode_instructions small_window small_window-valid small_window-Sequential
      (omega arith) (omega arith) (omega arith)

apply_window-build_window_example :
    (w : Window) × (build_window (codes "abc") (codes "abcd") (pos 5) ≡ ok w)
    × (validate w ≡ ok tt)
    × (apply_window (codes "abc") w ≡ ok (codes "abcd"))
    × Sequential 0 w.ops (length w.new_data)
apply_window-build_window_example =
    apply_window-build_window (codes "abc") (codes "abcd") 5 (omega arith)

-- Sixty-four bytes, and one more behind them.
abbrev counted : ℕ → Bytes
counted zero = []
counted (suc n) = n ∷ counted n

counted_index :
    build_source_index (counted 65)
    ≡ ok (
        index_append
          (rolling_hash (block_at (counted 65) 1))
          1
          (index_append (rolling_hash (block_at (counted 65) 0)) 0 []))
unfolding build_source_index index_loop index_append rolling_hash rolling_loop roll_hash slice at
counted_index = refl

index_get-build_source_index_example :
    index_get 5 (
      index_append
        (rolling_hash (block_at (counted 65) 1))
        1
        (index_append (rolling_hash (block_at (counted 65) 0)) 0 []))
    ≡ positions (counted 65) 5 (65 - 63)
index_get-build_source_index_example =
    index_get-build_source_index (counted 65) _ 5 (omega arith) counted_index

varint-base128_example :
    ((consume_varint (0x80 ∷ 0x05 ∷ 9 ∷ []) ≡ ok (5, 9 ∷ []))
      ↔ IsNumber (0x80 ∷ 0x05 ∷ 9 ∷ []) 5 (9 ∷ []))
    × ((read_varint (0x80 ∷ 0x05 ∷ 9 ∷ []) ≡ ok (5, 9 ∷ []))
        ↔ IsNumber (0x80 ∷ 0x05 ∷ 9 ∷ []) 5 (9 ∷ []))
varint-base128_example = varint-base128 (0x80 ∷ 0x05 ∷ 9 ∷ []) 5 (9 ∷ [])
