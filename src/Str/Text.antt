-- ===== src/Str/Text.antt =====
-- The text that a buffer of src/kvs_str.c holds, and what writes do to it.
use ckv.Run.{Returns}
use mathlib.Core.List.{append-nil, append_assoc}
use ckv.Str.{ok, fill, copy_to, Buf, written}
use ckv.Base.{
  inr, length-drop, inl, Bool-cases, length-take, length-replicate, ◌≤◌, ◌-◌, replicate,
  take-append_of_length, true, leb, length-append, drop-append_of_length, arith, ◌∙◌, zero, refl,
  false, sym, ◌<◌, suc, ltb, [], ◌+◌, ap, drop, none, some, ◌∷◌, take, Option, ◌++◌, length, ◌≡◌,
  List, ℕ,
}

module _ {ℓ} {A : Type ℓ} where
  pub take-drop : (n : ℕ) (xs : List A) → xs ≡ take n xs ++ drop n xs
  take-drop zero xs = refl
  take-drop (suc n) [] = refl
  take-drop (suc n) (x ∷ xs) = ap (◌∷◌ x) (take-drop n xs)

  pub take_beyond : (n : ℕ) (xs : List A) → length xs ≤ n → take n xs ≡ xs
  take_beyond zero [] h = refl
  take_beyond (suc n) [] h = refl
  take_beyond zero (x ∷ xs) h = absurd (omega arith)
  take_beyond (suc n) (x ∷ xs) h = ap (◌∷◌ x) (take_beyond n xs (omega arith))

  -- The first `k` elements, and one more.
  middle :
      (k : ℕ) (xs : List A)
      → k < length xs
      → (m : List A) × (d : A) × (c : List A) × (xs ≡ m ++ d ∷ c) × (length m ≡ k)
  middle k [] h = absurd (omega arith)
  middle zero (x ∷ xs) h = ([], x, xs, refl, refl)
  middle (suc k) (x ∷ xs) h =
      let (m, d, c, e, l) = middle k xs (omega arith) in (x ∷ m, d, c, ap (◌∷◌ x) e, ap suc l)

pub length-written : (s : List ℕ) → length (written s) ≡ length s
unfolding written
length-written [] = refl
length-written (c ∷ cs) = ap suc (length-written cs)

pub written-append : (s t : List ℕ) → written (s ++ t) ≡ written s ++ written t
unfolding written
written-append [] t = refl
written-append (c ∷ cs) t = ap (◌∷◌ (some c)) (written-append cs t)

-- The bytes of `s`, then at least one more cell.
pub record Held (b : Buf) (s : List ℕ) : Type 0 where
  pub slack : List (Option ℕ)
  pub cells : b.cells ≡ some (written s ++ slack)
  pub len : b.len ≡ length s
  pub alloc : b.alloc ≡ length s + length slack
  pub room : 0 < length slack

-- A buffer that stands for the text `s`; a null pointer stands for the empty one.
pub data IsText (b : Buf) (s : List ℕ) : Type 0 where
  null_text : b.cells ≡ none → b.len ≡ 0 → s ≡ [] → IsText b s
  text_of : Held b s → IsText b s

-- A write over the cells `m` in the middle.
pub copy_to-middle :
    (a m c : List (Option ℕ)) (offset : ℕ) (bytes : List ℕ)
    → offset ≡ length a
    → length m ≡ length bytes
    → copy_to (some (a ++ m ++ c)) offset bytes ≡ ok (a ++ written bytes ++ c)
unfolding copy_to
copy_to-middle a m c offset bytes e same =
    rw (front, drop-append_of_length (a ++ m) c (offset + length bytes) size, fits)
  where
    front : take offset (a ++ m ++ c) ≡ a
    front = ap (take offset) (append_assoc a m c) ∙ take-append_of_length a (m ++ c) offset e

    size : offset + length bytes ≡ length (a ++ m)
    size = omega (arith, e, same, length-append a m)

    fits : leb (offset + length bytes) (length (a ++ m ++ c)) ≡ true
    fits = ground (arith, size, length-append (a ++ m) c)

pub copy_to-nul :
    (a c : List (Option ℕ)) (d : Option ℕ) (offset : ℕ)
    → offset ≡ length a
    → copy_to (some (a ++ d ∷ c)) offset (0 ∷ []) ≡ ok (a ++ some 0 ∷ c)
unfolding written
copy_to-nul a c d offset e =
    ap (λ x. copy_to (some x) offset (0 ∷ [])) (sym (append_assoc a (d ∷ []) c))
    ∙ copy_to-middle a (d ∷ []) c offset (0 ∷ []) e refl
    ∙ ap ok (append_assoc a (some 0 ∷ []) c)

-- What the last block of `kvs_buf_setrange` writes, over `m` and one more cell.
fill-inside :
    (b : Buf) (a m c : List (Option ℕ)) (d : Option ℕ) (offset : ℕ) (bytes : List ℕ)
    → b.cells ≡ some (a ++ m ++ d ∷ c)
    → offset ≡ length a
    → length m ≡ length bytes
    → ltb b.len offset ≡ false
    → fill b offset bytes
      ≡ ok (record b {
        cells = some (a ++ written bytes ++ some 0 ∷ c);
        len = offset + length bytes;
      })
unfolding fill
fill-inside b a m c d offset bytes e at_a same inside = rw (
  ap (λ x. copy_to x offset bytes) e,
  copy_to-middle a m (d ∷ c) offset bytes at_a same,
  inside,
  copy_to-nul (a ++ written bytes) c d (offset + length bytes) size,
)
  where
    size : offset + length bytes ≡ length (a ++ written bytes)
    size = omega (arith, at_a, length-append a (written bytes), length-written bytes)

-- With a gap `g` before the bytes, which is filled with zeros.
fill-beyond :
    (b : Buf) (a g m c : List (Option ℕ)) (d : Option ℕ) (offset : ℕ) (bytes : List ℕ)
    → b.cells ≡ some (a ++ g ++ m ++ d ∷ c)
    → b.len ≡ length a
    → offset ≡ length a + length g
    → length m ≡ length bytes
    → ltb b.len offset ≡ true
    → fill b offset bytes
      ≡ ok (record b {
        cells = some (a ++ written (replicate (length g) 0) ++ written bytes ++ some 0 ∷ c);
        len = offset + length bytes;
      })
unfolding fill
fill-beyond b a g m c d offset bytes e at_len at_g same outside = rw (
  ap (λ x. copy_to x offset bytes) e,
  copy_to-middle (a ++ g) m (d ∷ c) offset bytes at_ag same,
  outside,
  zeros,
  copy_to-nul (a ++ written (replicate (length g) 0) ++ written bytes) c d (offset + length bytes)
      size,
)
  where
    at_ag : offset ≡ length (a ++ g)
    at_ag = omega (arith, at_g, length-append a g)

    gap : offset - b.len ≡ length g
    gap = omega (arith, at_g, at_len)

    zeros :
        copy_to (some (a ++ g ++ written bytes ++ d ∷ c)) b.len (replicate (offset - b.len) 0)
        ≡ ok (a ++ written (replicate (length g) 0) ++ written bytes ++ d ∷ c)
    zeros =
        ap (λ n. copy_to (some (a ++ g ++ written bytes ++ d ∷ c)) b.len (replicate n 0)) gap
        ∙ ap (λ x. copy_to (some x) b.len (replicate (length g) 0))
            (append_assoc (a ++ g) (written bytes) (d ∷ c))
        ∙ copy_to-middle a g (written bytes ++ d ∷ c) b.len (replicate (length g) 0) at_len
            (sym (length-replicate (length g) 0))
        ∙ ap ok (sym (append_assoc (a ++ written (replicate (length g) 0)) (written bytes) (d ∷ c)))

    size : offset + length bytes ≡ length (a ++ written (replicate (length g) 0) ++ written bytes)
    size = omega (
      arith,
      at_g,
      length-append (a ++ written (replicate (length g) 0)) (written bytes),
      length-append a (written (replicate (length g) 0)),
      length-written bytes,
      length-written (replicate (length g) 0),
      length-replicate {A = ℕ} (length g) 0,
    )

pub take-written :
    (n : ℕ) (s : List ℕ) (slack : List (Option ℕ))
    → n ≤ length s
    → take n (written s ++ slack) ≡ written (take n s)
unfolding written
take-written zero s slack h = refl
take-written (suc n) [] slack h = absurd (omega arith)
take-written (suc n) (c ∷ cs) slack h = ap (◌∷◌ (some c)) (take-written n cs slack (omega arith))

-- The first `n` bytes of `s`, with zeros where `s` has no more.
abbrev pub padded : ℕ → List ℕ → List ℕ
padded n s = take n s ++ replicate (n - length s) 0

length-padded : (n : ℕ) (s : List ℕ) → length (padded n s) ≡ n
length-padded n s = omega (
  arith,
  length-append (take n s) (replicate (n - length s) 0),
  length-take n s,
  length-replicate {A = ℕ} (n - length s) 0,
)

pub zero_of : (a b : ℕ) → a ≤ b → a - b ≡ 0
zero_of a b h = omega arith

module _ (b : Buf) (s : List ℕ) (offset : ℕ) (bytes : List ℕ) (at_len : b.len ≡ length s) where
  whole : offset + length bytes ≡ length (padded offset s ++ bytes)
  whole = omega (arith, length-append (padded offset s) bytes, length-padded offset s)

  -- The bytes start beyond the end of the text.
  beyond-Held :
      (g m c : List (Option ℕ)) (d : Option ℕ)
      → b.cells ≡ some (written s ++ g ++ m ++ d ∷ c)
      → b.alloc ≡ suc (length s + length g + length m + length c)
      → length g ≡ offset - length s
      → length m ≡ length bytes
      → b.len < offset
      → Returns (λ b'. Held b' (padded offset s ++ bytes)) (fill b offset bytes)
  beyond-Held g m c d e total_ size l lt = (
    _,
    fill-beyond b (written s) g m c d offset bytes e (at_len ∙ sym (length-written s))
        (omega (arith, size, length-written s)) l (ground arith),
    record {
      slack = some 0 ∷ c;
      cells = ap (λ x. some (x ++ some 0 ∷ c)) (sym text);
      len = whole;
      alloc = omega (arith, total_, whole);
      room = omega arith;
    },
  )
    where
      front : take offset s ≡ s
      front = take_beyond offset s (omega arith)

      text :
          written (padded offset s ++ bytes)
          ≡ written s ++ written (replicate (length g) 0) ++ written bytes
      text =
          written-append (padded offset s) bytes
          ∙ ap (λ x. x ++ written bytes)
              (written-append (take offset s) (replicate (offset - length s) 0) ∙ rw (front, size))

  -- The bytes start within the text, or right after it.
  inside-Held :
      (m c : List (Option ℕ)) (d : Option ℕ)
      → b.cells ≡ some (written (take offset s) ++ m ++ d ∷ c)
      → b.alloc ≡ suc (offset + length m + length c)
      → length m ≡ length bytes
      → offset ≤ b.len
      → Returns (λ b'. Held b' (padded offset s ++ bytes)) (fill b offset bytes)
  unfolding replicate
  inside-Held m c d e total_ l le = (
    _,
    fill-inside b (written (take offset s)) m c d offset bytes e
        (omega (arith, length-written (take offset s), length-take offset s)) l (ground arith),
    record {
      slack = some 0 ∷ c;
      cells = ap (λ x. some (x ++ some 0 ∷ c)) (sym text);
      len = whole;
      alloc = omega (arith, total_, whole);
      room = omega arith;
    },
  )
    where
      none_added : padded offset s ≡ take offset s
      none_added =
          ap (λ n. take offset s ++ replicate n 0) (zero_of offset (length s) (omega arith))
          ∙ append-nil (take offset s)

      text : written (padded offset s ++ bytes) ≡ written (take offset s) ++ written bytes
      text = rw none_added (written-append (take offset s) bytes)

  pub fill-Held :
      Held b s
      → offset + length bytes < b.alloc
      → Returns (λ b'. Held b' (padded offset s ++ bytes)) (fill b offset bytes)
  fill-Held h room = elim (Bool-cases (ltb b.len offset)) [
    | inl beyond ↦ go_beyond (ground arith)
    | inr inside ↦ go_inside (ground arith)
  ]
    where
      g : List (Option ℕ)
      g = take (offset - length s) h.slack

      rest : List (Option ℕ)
      rest = drop (offset - length s) h.slack

      cells : List (Option ℕ)
      cells = written s ++ h.slack

      go_beyond :
          b.len < offset → Returns (λ b'. Held b' (padded offset s ++ bytes)) (fill b offset bytes)
      go_beyond lt = split (middle (length bytes) rest (omega (arith, sizes, h.alloc)))
        where
          sizes :
              (length g ≡ offset - length s) × (length rest ≡ length h.slack - (offset - length s))
          sizes = (
            omega (arith, length-take (offset - length s) h.slack, h.alloc, room),
            length-drop (offset - length s) h.slack,
          )

          split :
              (m : List (Option ℕ)) × (d : Option ℕ) × (c : List (Option ℕ)) × (rest ≡ m ++ d ∷ c)
                × (length m ≡ length bytes)
              → Returns (λ b'. Held b' (padded offset s ++ bytes)) (fill b offset bytes)
          split (m, d, c, e, l) =
              beyond-Held g m c d
                (h.cells
                  ∙ ap (λ x. some (written s ++ x)) (take-drop (offset - length s) h.slack)
                  ∙ ap (λ x. some (written s ++ (g ++ x))) e
                  ∙ ap some (
                      sym (append_assoc (written s) g (m ++ d ∷ c))
                      ∙ sym (append_assoc (written s ++ g) m (d ∷ c))))
                (omega (arith, sizes, h.alloc, ap length e, length-append m (d ∷ c))) sizes.0 l lt

      go_inside :
          offset ≤ b.len → Returns (λ b'. Held b' (padded offset s ++ bytes)) (fill b offset bytes)
      go_inside le =
          split (middle (length bytes) (drop offset cells) (omega (arith, size, h.alloc)))
        where
          size : length (drop offset cells) ≡ length s + length h.slack - offset
          size =
              omega (
                arith,
                length-drop offset cells,
                length-append (written s) h.slack,
                length-written s,
              )

          split :
              (m : List (Option ℕ)) × (d : Option ℕ) × (c : List (Option ℕ)) × (drop offset cells
                  ≡ m ++ d ∷ c)
                × (length m ≡ length bytes)
              → Returns (λ b'. Held b' (padded offset s ++ bytes)) (fill b offset bytes)
          split (m, d, c, e, l) =
              inside-Held m c d
                (h.cells
                  ∙ ap some (take-drop offset cells)
                  ∙ ap (λ x. some (take offset cells ++ x)) e
                  ∙ ap (λ x. some (x ++ (m ++ d ∷ c))) (take-written offset s h.slack (omega arith))
                  ∙ ap some (sym (append_assoc (written (take offset s)) m (d ∷ c))))
                (omega (arith, size, h.alloc, ap length e, length-append m (d ∷ c))) l le
