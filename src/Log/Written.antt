-- ===== src/Log/Written.antt =====
-- What `kvs_log` of src/kvs_log.c writes.
use ckv.Run.{Run, ok, fault, ◌>>=◌, ok-then}
use ckv.Log.{Log, kvs_log, log_loop, log_title, print_both, buf_size}
use ckv.Base.{
  ℕ, zero, suc, ◌+◌, ◌-◌, ◌<◌, ◌≤◌, ◌≡◌, refl, ap, ◌∙◌, List, [], ◌∷◌, ◌++◌, length, length-append,
  take, some, none, Bool, true, false, ◌||◌, ltb, if◌then◌else◌, Bool-cases, inl, inr, arith,
}

take-all : {A : Type 0} (n : ℕ) (xs : List A) → length xs ≤ n → take n xs ≡ xs
take-all zero [] h = refl
take-all zero (x ∷ xs) h = absurd (omega (arith, h))
take-all (suc n) [] h = refl
take-all (suc n) (x ∷ xs) h = ap (λ ys. x ∷ ys) (take-all n xs (omega (arith, h)))

any_memory : {A : Type 0} (m : Bool) (x : Run A) → x ≡ (if m || true then x else fault)
any_memory true x = refl
any_memory false x = refl

module _ (memory : Bool) (title text : List ℕ) where
  log_loop_null : (f size : ℕ) → log_loop (suc f) memory false size title text ≡ fault
  unfolding log_loop
  log_loop_null f size = refl

  log_loop_outside :
      (f size : ℕ)
      → ltb size (length title) ≡ true
      → log_loop (suc f) memory true size title text ≡ fault
  unfolding log_loop print_both
  log_loop_outside f size long = rw (log_loop, print_both, long)

  print_both-fits :
      (size : ℕ)
      → length text + length title < size
      → print_both size title text ≡ ok (title ++ text)
  unfolding print_both
  print_both-fits size fits =
      let short : ltb size (length title) ≡ false = ground (arith, fits) in
      rw (
        short,
        take-all (size - 1) title (omega (arith, fits)),
        take-all (size - length title - 1) text (omega (arith, fits)),
      )

  log_loop_fits :
      (f size : ℕ)
      → ltb (length text + length title) size ≡ true
      → log_loop (suc f) memory true size title text ≡ ok (title ++ text)
  unfolding log_loop
  log_loop_fits f size fits =
      ok-then (print_both size title text) (title ++ text) _
        (print_both-fits size (ground (arith, fits)))
      ∙ rw fits (
          ap ok (
            take-all (length text + length title) (title ++ text)
              (omega (arith, length-append title text))))

  log_loop_grows :
      (f size : ℕ)
      → ltb size (length title) ≡ false
      → ltb (length text + length title) size ≡ false
      → log_loop (suc f) memory true size title text
        ≡ log_loop f memory memory (length text + length title + 1) title text
  unfolding log_loop print_both
  log_loop_grows f size short long = rw (log_loop, print_both, short, long) refl

  -- The second round, in memory that is large enough or was not to be had.
  second_round :
      (f : ℕ) (there : Bool)
      → log_loop (suc f) memory there (length text + length title + 1) title text
        ≡ (if there || false then ok (title ++ text) else fault)
  second_round f true = log_loop_fits f (length text + length title + 1) (ground arith)
  second_round f false = log_loop_null f (length text + length title + 1)

  log_loop-lem :
      (f size : ℕ)
      → log_loop (suc (suc f)) memory true size title text ≡ (
          if ltb size (length title)
          then fault
          else if memory || ltb (length text + length title) size
          then ok (title ++ text)
          else fault)
  log_loop-lem f size = elim (Bool-cases (ltb size (length title))) [
    | inl outside ↦ log_loop_outside (suc f) size outside ∙ rw outside refl
    | inr short ↦ elim (Bool-cases (ltb (length text + length title) size)) [
      | inl fits ↦
          log_loop_fits (suc f) size fits
          ∙ rw (short, fits) (any_memory memory (ok (title ++ text)))
      | inr long ↦ log_loop_grows (suc f) size short long ∙ rw (short, long) (second_round f memory)
    ]
  ]

if_both :
    {A : Type 0} (b : Bool) (x : A) {y z : A} → y ≡ z → (if b then x else y) ≡ (if b then x else z)
if_both true x e = refl
if_both false x e = e

if_bind :
    (outside fits : Bool) (bytes : List ℕ)
    → ((if outside then fault else if fits then ok bytes else fault) >>= λ bytes. ok (some bytes))
      ≡ (if outside then fault else if fits then ok (some bytes) else fault)
if_bind true fits bytes = refl
if_bind false true bytes = refl
if_bind false false bytes = refl

-- `kvs_log` ends after at most two rounds: below the level of the log it writes nothing, with a title
-- longer than its first buffer it writes outside the memory, and otherwise it writes the title and
-- the text, however long they are, if they are shorter than the first buffer or there is memory for
-- a larger one.
pub kvs_log-lem :
    (f : ℕ) (memory : Bool) (log : Log) (time : List ℕ) (level : ℕ) (text : List ℕ)
    → 2 ≤ f
    → kvs_log f memory log time level text ≡ (
        if ltb level log.level
        then ok none
        else if ltb buf_size (length (log_title log time level))
        then fault
        else if memory || ltb (length text + length (log_title log time level)) buf_size
        then ok (some (log_title log time level ++ text))
        else fault)
unfolding kvs_log
kvs_log-lem zero memory log time level text fuel = absurd (omega (arith, fuel))
kvs_log-lem (suc zero) memory log time level text fuel = absurd (omega (arith, fuel))
kvs_log-lem (suc (suc f)) memory log time level text fuel =
    if_both (ltb level log.level) (ok none) (
      ap (λ r. r >>= λ bytes. ok (some bytes))
        (log_loop-lem memory (log_title log time level) text f buf_size)
      ∙ if_bind (ltb buf_size (length (log_title log time level)))
          (memory || ltb (length text + length (log_title log time level)) buf_size)
          (log_title log time level ++ text))
