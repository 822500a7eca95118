-- ===== src/Str/Split.antt =====
-- `kvs_strs_split` of src/kvs_str.c: the tokens of a line.
--
-- A line is its bytes before the zero at its end, and a place in it is an offset; a read behind the
-- zero is a fault. Whether allocations succeed is an argument.
use ckv.Run.{Run, ok, fault, out_of_fuel, ◌>>=◌}
use ckv.Base.{
  ℕ, zero, suc, ◌+◌, ◌-◌, ◌*◌, List, [], ◌∷◌, ◌++◌, length, take, drop, replicate, set, Option,
  some, none, Bool, true, false, ◌||◌, ltb, leb, ◌==◌, if◌then◌else◌,
}

-- `kvs_str_t` as a token: a place in the line, or a copy of its bytes.
pub data Token : Type 0 where
  pointed : (p len : ℕ) → Token
  copied : (p : List ℕ) → (len : ℕ) → Token

-- `kvs_strs_t`; `argv` is its memory, unwritten where it is `none`.
pub record Strs : Type 0 where
  pub argv : List (Option Token)
  pub argc : ℕ
  pub alloc : ℕ

-- `kvs_strs_init`
abbrev pub strs_init : Strs
strs_init = record { argv = []; argc = 0; alloc = 0 }

-- `kvs_strs_new`
unfoldable pub strs_new : Bool → Option Strs
strs_new false = none
strs_new true = some strs_init

-- `kvs_strs_reset`
abbrev pub strs_reset : Strs → Strs
strs_reset strs = record strs { argc = 0 }

abbrev pub is_in : List ℕ → ℕ → Bool
is_in [] b = false
is_in (d ∷ dem) b = (d == b) || is_in dem b

-- `strspn` and `strcspn`
unfoldable pub strspn : List ℕ → List ℕ → ℕ
strspn [] dem = 0
strspn (b ∷ s) dem = let rest = strspn s dem in if is_in dem b then suc rest else 0

unfoldable pub strcspn : List ℕ → List ℕ → ℕ
strcspn [] dem = 0
strcspn (b ∷ s) dem = let rest = strcspn s dem in if is_in dem b then 0 else suc rest

-- `realloc` to `n` entries
abbrev pub resized : ℕ → List (Option Token) → List (Option Token)
resized n argv = take n argv ++ replicate (n - length argv) none

-- The first block of a round: twice nothing is nothing, so that `alloc` stays 0. `none` is the
-- result -1.
unfoldable pub strs_grow : Bool → Strs → Option Strs
strs_grow memory strs =
    if leb strs.alloc strs.argc
    then (if memory
        then some
            (record strs { argv = resized (strs.alloc * 2 + 1) strs.argv; alloc = strs.alloc * 2 })
        else none)
    else some strs

-- `strs->argv[strs->argc++] = token`
unfoldable pub put_token : Strs → Token → Run Strs
put_token strs token =
    if ltb strs.argc (length strs.argv)
    then ok (record strs { argv = set strs.argv strs.argc (some token); argc = suc strs.argc })
    else fault

-- The second block: KVS_STRS_ALLOC is 1, and the copy is not tested for.
unfoldable pub put_range : Bool → ℕ → List ℕ → Strs → (p len : ℕ) → Run Strs
unfolding put_token
put_range memory flags s strs p len =
    if flags == 0
    then put_token strs (pointed p len)
    else if flags == 1
    then (if memory then put_token strs (copied (take len (drop p s)) len) else fault)
    else ok strs

-- The loop from `p` on: the delimiters are counted at the start of the line.
unfoldable pub split_loop : ℕ → Bool → ℕ → List ℕ → List ℕ → Strs → ℕ → Run (Bool × Strs)
unfolding strs_grow put_range strspn strcspn
split_loop zero memory flags s dem strs p0 = out_of_fuel
split_loop (suc f) memory flags s dem strs p0 =
    let p = p0 + strspn s dem in
    let len = strcspn (drop p s) dem in
    if ltb (length s) p0
    then fault
    else if p0 == length s
    then ok (true, strs)
    else if ltb (length s) p
    then fault
    else elim (strs_grow memory strs) [
      | none ↦ ok (false, strs)
      | some grown ↦ put_range memory flags s grown p len >>= λ strs'.
          if p + len == length s
          then ok (true, strs')
          else split_loop f memory flags s dem strs' (p + len + 1)
    ]

-- `kvs_strs_split`: `false` is the result -1, any other is `argc`.
unfoldable pub strs_split : ℕ → Bool → ℕ → Strs → List ℕ → List ℕ → Run (Bool × Strs)
unfolding split_loop
strs_split f memory flags strs s dem = split_loop f memory flags s dem strs 0
