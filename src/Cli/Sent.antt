-- ===== src/Cli/Sent.antt =====
-- The bytes that the client's program sends.
use mathlib.Core.List.{append_assoc, append-nil}
use mathlib.Core.Path.{subst}
use ckv.Run.{ok, Returns}
use ckv.Str.{Buf, buf_null, buf_dsize, fill, append, setrange, grow, ensure, written}
use ckv.Str.Text.{null_text, padded, Held, fill-Held}
use ckv.Str.Write.{padded-length}
use ckv.Str.Grow.{ensure_kept, ensure-Held}
use ckv.Str.Print.{append_sprintf}
use ckv.Str.Printed.{append_sprintf-fits}
use ckv.Str.Range.{read_from-written}
use ckv.Net.Wire.{line, encode, encode_args}
use ckv.Cli.{marshal, marshal_args}
use ckv.Base.{
  max, ℕ, ◌+◌, ◌<◌, ◌≡◌, List, [], ◌∷◌, ◌++◌, length, take-length, length-append, Option, Bool,
  true, false, ltb, refl, sym, ap, ◌∙◌, arith,
}

fill-alloc :
    (b : Buf) (offset : ℕ) (bytes : List ℕ) (b' : Buf)
    → fill b offset bytes ≡ ok b'
    → b'.alloc ≡ b.alloc
unfolding fill
fill-alloc b offset bytes b' e = ground arith

-- The buffer after a write that fits into its memory.
abbrev Added : Buf → List ℕ → Buf → Type 0
Added b s b' = Held b' s × (b'.alloc ≡ b.alloc)

append-fits :
    (memory : Bool) {b : Buf} {s : List ℕ} (bytes : List ℕ)
    → Held b s
    → length s + length bytes < b.alloc
    → Returns (λ (result, b'). Added b (s ++ bytes) b') (append true memory b bytes)
unfolding append setrange grow
append-fits memory {b} {s} bytes h fits =
    go (fill-Held b s b.len bytes h.len h (omega (arith, fits, h.len)))
  where
    room : ltb b.alloc (b.len + length bytes + 1) ≡ false
    room = ground (arith, fits, h.len)

    kept : ensure true b (max buf_dsize (b.len + length bytes + 1)) ≡ b
    kept =
        ensure_kept true b (max buf_dsize (b.len + length bytes + 1)) (written s ++ h.slack) h.cells

    go :
        Returns (λ b'. Held b' (padded b.len s ++ bytes)) (fill b b.len bytes)
        → Returns (λ (result, b'). Added b (s ++ bytes) b') (append true memory b bytes)
    go (b', run, held_) = (
      (true, b'),
      rw (append, setrange, kept, grow, room, run),
      (
        subst (λ t. Held b' (t ++ bytes)) (padded-length b.len s h.len) held_,
        fill-alloc b b.len bytes b' run,
      ),
    )

sprintf-fits :
    (memory : Bool) {b : Buf} {s : List ℕ} (t : List ℕ)
    → Held b s
    → length s + length t < b.alloc
    → Returns (λ (n, b'). Added b (s ++ t) b') (append_sprintf true memory b t)
sprintf-fits memory {b} {s} t h fits =
    let kept = ensure_kept true b buf_dsize (written s ++ h.slack) h.cells in
    rw kept at (append_sprintf-fits memory b t (subst (λ x. Held x s) (sym kept) h) (rw kept fits))

line-append :
    (decimal : ℕ → List ℕ) (mark n : ℕ) (rest : List ℕ)
    → (mark ∷ (decimal n ++ 13 ∷ 10 ∷ [])) ++ rest ≡ line decimal mark n rest
line-append decimal mark n rest = ap (◌∷◌ mark) (append_assoc (decimal n) (13 ∷ 10 ∷ []) rest)

module _ (decimal : ℕ → List ℕ) (memory : Bool) where
  head_of : ℕ → ℕ → List ℕ
  head_of mark n = mark ∷ (decimal n ++ 13 ∷ 10 ∷ [])

  -- The text after an argument, and what follows it.
  argument_text :
      (s a e : List ℕ)
      → s ++ head_of 36 (length a) ++ a ++ 13 ∷ 10 ∷ [] ++ e
        ≡ s ++ line decimal 36 (length a) (a ++ 13 ∷ 10 ∷ e)
  unfolding head_of
  argument_text s a e =
      append_assoc (s ++ head_of 36 (length a) ++ a) (13 ∷ 10 ∷ []) e
      ∙ append_assoc (s ++ head_of 36 (length a)) a (13 ∷ 10 ∷ e)
      ∙ append_assoc s (head_of 36 (length a)) (a ++ 13 ∷ 10 ∷ e)
      ∙ ap (λ x. s ++ x) (line-append decimal 36 (length a) (a ++ 13 ∷ 10 ∷ e))

  Sends : Buf → List ℕ → List (List ℕ) → Type 0
  Sends b s args =
      Returns (λ b'. Added b (s ++ encode_args decimal args) b')
        (marshal_args decimal memory b args)

  -- One argument, in a buffer with room for it and for what follows.
  marshal_one :
      (a : List ℕ) (args : List (List ℕ)) (b : Buf) (s : List ℕ)
      → Held b s
      → length s + length (encode_args decimal (a ∷ args)) < b.alloc
      → ((b' : Buf) (s' : List ℕ)
          → Held b' s'
          → length s' + length (encode_args decimal args) < b'.alloc
          → Sends b' s' args)
      → Sends b s (a ∷ args)
  unfolding Sends marshal_args encode_args head_of
  marshal_one a args b s h fits rest =
      first (sprintf-fits memory (head_of 36 (length a)) h (omega (arith, fits, sizes, parts)))
    where
      e : List ℕ
      e = encode_args decimal args

      one : List ℕ
      one = s ++ head_of 36 (length a)

      two : List ℕ
      two = one ++ a

      three : List ℕ
      three = two ++ 13 ∷ 10 ∷ []

      sizes : length (three ++ e) ≡ length s + length (encode_args decimal (a ∷ args))
      sizes = ap length (argument_text s a e) ∙ length-append s (encode_args decimal (a ∷ args))

      parts :
          (length (three ++ e) ≡ length three + length e)
          × (length three ≡ length two + 2)
          × (length two ≡ length one + length a)
          × (length one ≡ length s + length (head_of 36 (length a)))
      parts = (
        length-append three e,
        length-append two (13 ∷ 10 ∷ []),
        length-append one a,
        length-append s (head_of 36 (length a)),
      )

      third :
          (b₁ b₂ : Buf) (n : Option ℕ) (result : Bool)
          → append_sprintf true memory b (head_of 36 (length a)) ≡ ok (n, b₁)
          → append true memory b₁ a ≡ ok (result, b₂)
          → b₁.alloc ≡ b.alloc
          → b₂.alloc ≡ b₁.alloc
          → Returns (λ (n, b₃). Added b₂ three b₃) (append_sprintf true memory b₂ (13 ∷ 10 ∷ []))
          → Sends b s (a ∷ args)
      third b₁ b₂ n result run₁ run₂ a₁ a₂ ((m, b₃), run₃, (h₃, a₃)) =
          let (b₄, run₄, (h₄, a₄)) =
            rest b₃ three h₃ (omega (arith, fits, sizes, parts, a₁, a₂, a₃)) in
          (
            b₄,
            rw (marshal_args, run₁, run₂, run₃) run₄,
            (subst (Held b₄) (argument_text s a e) h₄, a₄ ∙ a₃ ∙ a₂ ∙ a₁),
          )

      second :
          (b₁ : Buf) (n : Option ℕ)
          → append_sprintf true memory b (head_of 36 (length a)) ≡ ok (n, b₁)
          → b₁.alloc ≡ b.alloc
          → Returns (λ (result, b₂). Added b₁ two b₂) (append true memory b₁ a)
          → Sends b s (a ∷ args)
      second b₁ n run₁ a₁ ((result, b₂), run₂, (h₂, a₂)) =
          third b₁ b₂ n result run₁ run₂ a₁ a₂
            (sprintf-fits memory (13 ∷ 10 ∷ []) h₂ (omega (arith, fits, sizes, parts, a₁, a₂)))

      first :
          Returns (λ (n, b₁). Added b one b₁) (append_sprintf true memory b (head_of 36 (length a)))
          → Sends b s (a ∷ args)
      first ((n, b₁), run₁, (h₁, a₁)) =
          second b₁ n run₁ a₁ (append-fits memory a h₁ (omega (arith, fits, sizes, parts, a₁)))

  marshal_args-Sends :
      (args : List (List ℕ)) (b : Buf) (s : List ℕ)
      → Held b s
      → length s + length (encode_args decimal args) < b.alloc
      → Sends b s args
  unfolding Sends encode_args marshal_args
  marshal_args-Sends [] b s h fits = (b, refl, (subst (Held b) (sym (append-nil s)) h, refl))
  marshal_args-Sends (a ∷ args) b s h fits =
      marshal_one a args b s h fits (λ b' s' h' fits'. marshal_args-Sends args b' s' h' fits')

  -- Where the request of `args` has less than 64 bytes, `marshal` returns without a fault, and
  -- `write` is given exactly the bytes of the request, whether there is memory or not.
  pub marshal-encode :
      (args : List (List ℕ))
      → length (encode decimal args) < 64
      → marshal decimal memory args ≡ ok (written (encode decimal args))
  unfolding marshal encode Sends ensure head_of
  marshal-encode args short = first (
      append_sprintf-fits memory (buf_null true) header_ start
        (omega (arith, short, length-append header_ e, whole)))
    where
      header_ : List ℕ
      header_ = head_of 42 (length args)

      e : List ℕ
      e = encode_args decimal args

      whole : length (header_ ++ e) ≡ length (encode decimal args)
      whole = ap length (line-append decimal 42 (length args) e)

      start : Held (ensure true (buf_null true) buf_dsize) []
      start = ensure-Held {b = buf_null true} buf_dsize (omega arith) (null_text refl refl refl)

      second :
          (b₁ : Buf) (n : Option ℕ)
          → append_sprintf true memory (buf_null true) header_ ≡ ok (n, b₁)
          → Sends b₁ header_ args
          → marshal decimal memory args ≡ ok (written (encode decimal args))
      second b₁ n run₁ (b₂, run₂, (h₂, a₂)) =
          rw (marshal, run₁, run₂, h₂.cells, h₂.len)
            (read_from-written (header_ ++ e) h₂.slack 0 (length (header_ ++ e)) (omega arith)
              ∙ rw (take-length (header_ ++ e))
                  (ap (λ s. ok (written s)) (line-append decimal 42 (length args) e)))

      first :
          Returns
            (λ (n, b₁). Held b₁ header_ × (b₁.alloc ≡ 64))
            (append_sprintf true memory (buf_null true) header_)
          → marshal decimal memory args ≡ ok (written (encode decimal args))
      first ((n, b₁), run₁, (h₁, a₁)) = second b₁ n run₁ (
          marshal_args-Sends args b₁ header_ h₁
            (omega (arith, short, a₁, whole, length-append header_ e)))
