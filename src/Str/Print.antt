-- ===== src/Str/Print.antt =====
-- src/kvs_str.c, `kvs_buf_append_sprintf`. The text `t` that the format prints is an argument, with
-- what `vsnprintf` does with it: it writes the first bytes that fit in the size it is given, and a
-- NUL, and returns the length of the whole text, which is not negative.
use ckv.Run.{Run, ok, out_of_fuel, ◌>>=◌}
use ckv.Str.{Buf, buf_dsize, copy_to, ensure, moved}
use ckv.Base.{
  ℕ, zero, suc, ◌+◌, ◌-◌, List, [], ◌∷◌, ◌++◌, length, take, Option, some, none, Bool, true, false,
  ltb, ◌==◌, ◌&&◌, if◌then◌else◌,
}

-- The call of `vsnprintf` on what is left of the memory after `len`; a size below 0 is a `size_t`
-- beyond any memory.
unfoldable pub print_at : Buf → List ℕ → Run Buf
unfolding copy_to
print_at b t =
    if b.len == b.alloc
    then ok b
    else (copy_to b.cells b.len
          ((if ltb b.alloc b.len then t else take (b.alloc - b.len - 1) t) ++ 0 ∷ [])
        >>= λ cells. ok (record b { cells = some cells }))

-- What a failure of `malloc` or `realloc` leaves.
unfoldable pub not_moved : Buf → Buf
not_moved b = if b.is_buffer && b.inline_ then record b { cells = none; inline_ = false } else b

-- The rest of a round, with the next round as an argument.
unfoldable pub after_print :
    (Buf → Run (Option ℕ × Buf)) → Bool → Buf → List ℕ → Run (Option ℕ × Buf)
unfolding moved not_moved
after_print again memory b t = elim (ltb (length t) b.alloc) [
  | true ↦ ok (some (length t), record b { len = b.len + length t })
  | false ↦
      let size = b.len + length t + 1 in
      elim (moved memory b size) [
        | none ↦ ok (none, record (not_moved b) { alloc = size })
        | some cells ↦ again (record b { cells = some cells; alloc = size; inline_ = false })
      ]
]

-- The loop `while (1)`.
unfoldable pub print_loop : ℕ → Bool → Buf → List ℕ → Run (Option ℕ × Buf)
unfolding print_at after_print
print_loop zero memory b t = out_of_fuel
print_loop (suc rounds) memory b t =
    print_at b t >>= λ b. after_print (λ b. print_loop rounds memory b t) memory b t

-- `kvs_buf_append_sprintf`; `none` is the result -1.
unfoldable pub append_sprintf : (first second : Bool) → Buf → List ℕ → Run (Option ℕ × Buf)
unfolding print_loop ensure
append_sprintf first second b t =
    let b₁ = ensure first b buf_dsize in
    elim b₁.cells [ none ↦ ok (none, b₁) | some cells ↦ print_loop 2 second b₁ t ]
