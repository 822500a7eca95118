-- ===== src/Str/Tests.antt =====
-- Runs of the buffers of src/kvs_str.c, and the theorems on them.
use ckv.Base.Int.{◌-ℤ◌, ◌+ℤ◌}
use ckv.Str.Range.{
  from_end, read_from, copy_range, clamp_range, index_of, getrange-slice, slice, getrange,
}
use ckv.Str.Split.{strs_split, strs_init, strcspn, copied}
use ckv.Str.Tokens.{strs_split_words}
use ckv.Str.Write.{setrange-IsText, WriteEffect}
use ckv.Str.Print.{append_sprintf}
use ckv.Str.Printed.{PrintEffect, CutEffect, append_sprintf-PrintEffect, append_sprintf-CutEffect}
use ckv.Run.{fault, ok, ◌>>=◌, Returns}
use ckv.Str.{negsuc, copy_to, pos, fill, moved, grow, ensure, setrange, written, Buf}
use ckv.Base.{none, inr, ◌≡◌, replicate, refl, ◌++◌, arith, false, [], true, ◌∷◌, some}
use ckv.Str.Text.{padded, Held, text_of}

abbrev buf_ab : Buf
buf_ab = record {
  cells = some (some 97 ∷ some 98 ∷ some 0 ∷ []);
  len = 2;
  alloc = 3;
  is_buffer = false;
  inline_ = false;
}

buf_ab-Held : Held buf_ab (97 ∷ 98 ∷ [])
unfolding written
buf_ab-Held = record {
  slack = some 0 ∷ [];
  cells = refl;
  len = refl;
  alloc = refl;
  room = omega arith;
}

setrange-IsText_example :
    Returns
      (WriteEffect (padded 4 (97 ∷ 98 ∷ []) ++ 99 ∷ []) (97 ∷ 98 ∷ []) true)
      (setrange true true buf_ab (pos 4) (99 ∷ []))
setrange-IsText_example = setrange-IsText true 4 (99 ∷ []) (text_of buf_ab-Held)

getrange-slice_example :
    getrange true buf_ab (negsuc 0) (pos 5) ≡ ok (some (slice 1 1 (97 ∷ 98 ∷ [])))
unfolding index_of
getrange-slice_example = getrange-slice (negsuc 0) (pos 5) 1 5 buf_ab-Held refl refl

-- A start that goes back before the beginning of the text is not clamped.
test_getrange : getrange true buf_ab (negsuc 4) (pos 1) ≡ fault
unfolding getrange clamp_range copy_range read_from from_end ◌+ℤ◌ ◌-ℤ◌
test_getrange = refl

-- The gap before the bytes is filled with zeros.
test_setrange : (setrange true true buf_ab (pos 4) (99 ∷ []) >>= (λ r. ok r.1.len)) ≡ ok 5
unfolding setrange ensure grow moved fill copy_to replicate written
test_setrange = refl

-- A text that is longer than the memory.
append_sprintf-PrintEffect_example :
    Returns
      (PrintEffect true (97 ∷ 98 ∷ []) (99 ∷ 100 ∷ 101 ∷ []))
      (append_sprintf true true buf_ab (99 ∷ 100 ∷ 101 ∷ []))
unfolding ensure
append_sprintf-PrintEffect_example =
    append_sprintf-PrintEffect true (99 ∷ 100 ∷ 101 ∷ []) (text_of buf_ab-Held) (inr (omega arith))

append_sprintf-CutEffect_example :
    Returns (CutEffect buf_ab (97 ∷ 98 ∷ []) (99 ∷ [])) (append_sprintf true true buf_ab (99 ∷ []))
append_sprintf-CutEffect_example =
    append_sprintf-CutEffect true (99 ∷ []) buf_ab-Held (omega arith) (omega arith)

-- `a b`, split at blanks.
strs_split_words_example : strs_split 2 true 0 strs_init (97 ∷ 32 ∷ 98 ∷ []) (32 ∷ []) ≡ fault
unfolding strcspn
strs_split_words_example =
    strs_split_words 2 true 97 [] 32 (98 ∷ []) (32 ∷ []) (omega arith) refl refl

-- Blanks at the start of the line are passed over once more for each word.
blank_skipped_twice :
    strs_split 3 true 1
      (record { argv = none ∷ none ∷ []; argc = 0; alloc = 2 })
      (32 ∷ 97 ∷ 32 ∷ 98 ∷ 99 ∷ [])
      (32 ∷ [])
    ≡ ok (
      true,
      record {
        argv = some (copied (97 ∷ []) 1) ∷ some (copied (99 ∷ []) 1) ∷ [];
        argc = 2;
        alloc = 2;
      },
    )
unfolding strs_split
blank_skipped_twice = refl
