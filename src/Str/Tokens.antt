-- ===== src/Str/Tokens.antt =====
-- How far `kvs_strs_split` of src/kvs_str.c gets.
use ckv.Run.{ok, fault}
use ckv.Str.Split.{
  Strs, pointed, strs_init, strs_split, split_loop, strs_grow, put_range, put_token, strspn,
  strcspn, is_in,
}
use ckv.Base.{
  inr, inl, Bool-cases, ℕ, zero, suc, ◌+◌, ◌<◌, ◌≤◌, ◌≡◌, refl, ◌∙◌, List, [], ◌∷◌, ◌++◌, length,
  length-append, replicate, some, Bool, true, false, not, ltb, ◌==◌, if◌then◌else◌, arith,
}

-- The list of one token at the start of the line. It has room for no other.
abbrev pub one_token : ℕ → Strs
one_token len = record { argv = some (pointed 0 len) ∷ []; argc = 1; alloc = 0 }

first_round :
    (f n : ℕ) (s dem : List ℕ)
    → 0 < length s
    → strspn s dem ≡ 0
    → strcspn s dem ≡ n
    → split_loop (suc f) true 0 s dem strs_init 0 ≡ (
        if n == length s
        then ok (true, one_token n)
        else split_loop f true 0 s dem (one_token n) (n + 1))
unfolding split_loop strs_grow put_range put_token replicate
first_round f n s dem some_bytes at_start len =
    let there : (0 == length s) ≡ false = ground (arith, some_bytes) in
    let inside : ltb (length s) 0 ≡ false = ground arith in
    let sum : 0 + 0 + n ≡ n = omega arith in rw (split_loop, at_start, there, len, inside, sum) refl

no_memory_round :
    (f n : ℕ) (s dem : List ℕ)
    → 0 < length s
    → strspn s dem ≡ 0
    → split_loop (suc f) false 0 s dem strs_init 0 ≡ ok (false, strs_init)
unfolding split_loop strs_grow
no_memory_round f n s dem some_bytes at_start =
    let there : (0 == length s) ≡ false = ground (arith, some_bytes) in
    let inside : ltb (length s) 0 ≡ false = ground arith in
    rw (split_loop, at_start, there, inside) refl

second_round :
    (f n p : ℕ) (s dem : List ℕ)
    → p < length s
    → strspn s dem ≡ 0
    → split_loop (suc f) true 0 s dem (one_token n) p ≡ fault
unfolding split_loop strs_grow put_range put_token replicate
second_round f n p s dem inside at_start =
    let e₁ : ltb (length s) p ≡ false = ground (arith, inside) in
    let e₂ : (p == length s) ≡ false = ground (arith, inside) in
    let e₃ : ltb (length s) (p + 0) ≡ false = ground (arith, inside) in
    rw (split_loop, at_start, e₁, e₂, e₃) refl

end_round :
    (f n : ℕ) (s dem : List ℕ)
    → split_loop (suc f) true 0 s dem (one_token n) (length s) ≡ ok (true, one_token n)
unfolding split_loop
end_round f n s dem =
    let e₁ : ltb (length s) (length s) ≡ false = ground arith in
    let e₂ : (length s == length s) ≡ true = ground arith in rw (split_loop, e₁, e₂) refl

strcspn-append :
    (a : List ℕ) (d : ℕ) (b dem : List ℕ)
    → strcspn a dem ≡ length a
    → is_in dem d ≡ true
    → strcspn (a ++ d ∷ b) dem ≡ length a
unfolding strcspn
strcspn-append [] d b dem e delimiter = rw delimiter refl
strcspn-append (x ∷ a) d b dem e delimiter = ground (arith, e, strcspn-append a d b dem)

strspn-append :
    (x : ℕ) (a rest dem : List ℕ)
    → strcspn (x ∷ a) dem ≡ suc (length a)
    → strspn (x ∷ a ++ rest) dem ≡ 0
unfolding strcspn strspn
strspn-append x a rest dem e = ground (arith, e)

-- A line of a word without delimiters, a delimiter and some more bytes: if there is memory,
-- `kvs_strs_split` into an empty list writes its second token outside the memory that it has asked
-- for, and finishes only if nothing follows the delimiter; without memory the result is -1, and the
-- list stays empty.
pub strs_split_words :
    (f : ℕ) (memory : Bool) (x : ℕ) (a : List ℕ) (d : ℕ) (b dem : List ℕ)
    → 2 ≤ f
    → strcspn (x ∷ a) dem ≡ suc (length a)
    → is_in dem d ≡ true
    → strs_split f memory 0 strs_init (x ∷ a ++ d ∷ b) dem ≡ (
        if not memory
        then ok (false, strs_init)
        else if length b == 0
        then ok (true, one_token (suc (length a)))
        else fault)
unfolding strs_split
strs_split_words zero memory x a d b dem fuel word delimiter = absurd (omega (arith, fuel))
strs_split_words (suc zero) memory x a d b dem fuel word delimiter = absurd (omega (arith, fuel))
strs_split_words (suc (suc f)) false x a d b dem fuel word delimiter =
    no_memory_round (suc f) (suc (length a)) (x ∷ a ++ d ∷ b) dem (omega arith)
      (strspn-append x a (d ∷ b) dem word)
strs_split_words (suc (suc f)) true x a d b dem fuel word delimiter =
    let s = x ∷ a ++ d ∷ b in
    let size = length-append (x ∷ a) (d ∷ b) in
    let more : (suc (length a) == length (x ∷ a ++ d ∷ b)) ≡ false = ground (arith, size) in
    first_round (suc f) (suc (length a)) s dem (omega arith) (strspn-append x a (d ∷ b) dem word)
      (strcspn-append (x ∷ a) d b dem word delimiter)
    ∙ rw more (elim (Bool-cases (length b == 0)) [
      | inl empty ↦ rw empty (
          let e : suc (length a) + 1 ≡ length (x ∷ a ++ d ∷ b) = ground (arith, size, empty) in
          rw e (end_round f (suc (length a)) s dem))
      | inr bytes ↦ rw bytes (
          second_round f (suc (length a)) (suc (length a) + 1) s dem (ground (arith, size, bytes))
            (strspn-append x a (d ∷ b) dem word))
    ])
