-- ===== src/Log/Buffer.antt =====
-- src/ipm_log_write.c: ipmprintf, which adds a piece of text to the buffer at `bsize`, and the two
-- calls of ipm_log_write by which src/ipm_mpi_log.c measures its output and then fills a buffer of
-- buff_size + 1 bytes with it. A piece is the text of one call; a write beyond the buffer is `none`.
use mathlib.Core.List.{flatten, append_assoc, append-nil}
use ipm_nci.Base.{
  ℕ, zero, suc, ◌+◌, ◌-◌, ◌≤◌, ◌<◌, ◌≡◌, refl, sym, ap, ◌∙◌, List, [], ◌∷◌, ◌++◌, length, take,
  Option, none, some, replicate, arith, length-append, length-replicate,
}
use ipm_nci.Base.Options.{◌>>=◌}
use ipm_nci.Base.Strings.{Str}

-- Bytes that are stored one after the other, from the place `at` on.
unfoldable pub store : Str → ℕ → Str → Option Str
store [] zero [] = some []
store [] zero (c ∷ cs) = none
store [] (suc at) cs = none
store (m ∷ mem) zero [] = some (m ∷ mem)
store (m ∷ mem) zero (c ∷ cs) = store mem zero cs >>= λ r. some (c ∷ r)
store (m ∷ mem) (suc at) cs = store mem at cs >>= λ r. some (m ∷ r)

-- What vsnprintf stores of a text when it may store `size` bytes: the text, cut, and a NUL.
unfoldable pub bounded : ℕ → Str → Str
bounded zero text = []
bounded (suc size) text = take size text ++ 0 ∷ []

-- The pass with buff_in = 0 and no buffer: bsize only.
unfoldable pub measure : ℕ → List Str → ℕ
measure bsize [] = bsize
measure bsize (p ∷ ps) = measure (bsize + length p) ps

-- The pass that writes, with buff_in bytes allowed in each call.
unfoldable pub fill : ℕ → Str → ℕ → List Str → Option Str
fill buff_in mem bsize [] = some mem
fill buff_in mem bsize (p ∷ ps) =
    store mem bsize (bounded buff_in p) >>= λ r. fill buff_in r (bsize + length p) ps

-- buff_size, and the filled buffer; `junk` is what malloc's memory holds.
unfoldable pub buffer : ℕ → List Str → Option Str
buffer junk ps =
    let buff_size = measure 0 ps in fill buff_size (replicate (buff_size + 1) junk) 0 ps

measure-length : (n : ℕ) (ps : List Str) → measure n ps ≡ n + length (flatten ps)
unfolding measure flatten
measure-length n [] = omega arith
measure-length n (p ∷ ps) =
    omega (arith, measure-length (n + length p) ps, length-append p (flatten ps))

drop : ℕ → Str → Str
drop zero xs = xs
drop (suc n) [] = []
drop (suc n) (x ∷ xs) = drop n xs

length-drop : (n : ℕ) (xs : Str) → length (drop n xs) ≡ length xs - n
unfolding drop
length-drop zero xs = omega arith
length-drop (suc n) [] = omega arith
length-drop (suc n) (x ∷ xs) = omega (arith, length-drop n xs)

store-front :
    (cs mem : Str) → length cs ≤ length mem → store mem 0 cs ≡ some (cs ++ drop (length cs) mem)
unfolding store drop
store-front [] [] h = refl
store-front [] (m ∷ mem) h = refl
store-front (c ∷ cs) [] h = absurd (omega arith)
store-front (c ∷ cs) (m ∷ mem) h =
    ap (λ o. o >>= λ r. some (c ∷ r)) (store-front cs mem (omega arith))

store-after :
    (xs mem cs r : Str)
    → store mem 0 cs ≡ some r
    → store (xs ++ mem) (length xs) cs ≡ some (xs ++ r)
unfolding store
store-after [] mem cs r e = e
store-after (x ∷ xs) mem cs r e = ap (λ o. o >>= λ r. some (x ∷ r)) (store-after xs mem cs r e)

take-whole : (n : ℕ) (p : Str) → length p ≤ n → take n p ≡ p
take-whole zero [] h = refl
take-whole zero (c ∷ p) h = absurd (omega arith)
take-whole (suc n) [] h = refl
take-whole (suc n) (c ∷ p) h = ap (λ r. c ∷ r) (take-whole n p (omega arith))

bounded-fits : (n : ℕ) (p : Str) → length p < n → bounded n p ≡ p ++ 0 ∷ []
unfolding bounded
bounded-fits zero p h = absurd (omega arith)
bounded-fits (suc n) p h = ap (λ r. r ++ 0 ∷ []) (take-whole n p (omega arith))

-- Every piece is shorter than n.
abbrev pub AreShorter : ℕ → List Str → Type 0
AreShorter n [] = 0 ≤ 0
AreShorter n (p ∷ ps) = (length p < n) × AreShorter n ps

-- Adding a piece behind the text xs, with room for it and a NUL.
piece-fits :
    (n : ℕ) (xs mem p : Str)
    → length p < n
    → length p + 1 ≤ length mem
    → store (xs ++ mem) (length xs) (bounded n p) ≡ some ((xs ++ p) ++ 0 ∷ drop (length p + 1) mem)
piece-fits n xs mem p short room =
    ap (store (xs ++ mem) (length xs)) (bounded-fits n p short)
    ∙ store-after xs mem (p ++ 0 ∷ []) ((p ++ 0 ∷ []) ++ drop (length (p ++ 0 ∷ [])) mem)
        (store-front (p ++ 0 ∷ []) mem (omega (arith, length-append p (0 ∷ []))))
    ∙ simp (length-append, append_assoc)

no_rest : (xs : Str) → length xs ≡ 0 → xs ≡ []
no_rest [] e = refl
no_rest (x ∷ xs) e = absurd (omega arith)

fill-fits :
    (n : ℕ) (xs mem p : Str) (ps : List Str)
    → AreShorter n (p ∷ ps)
    → length mem ≡ length (flatten (p ∷ ps)) + 1
    → fill n (xs ++ mem) (length xs) (p ∷ ps) ≡ some ((xs ++ flatten (p ∷ ps)) ++ 0 ∷ [])
unfolding fill flatten
fill-fits n xs mem p [] short size =
    let room : length mem ≡ length p + 1 = omega (arith, size, length-append p []) in
    rw (piece-fits n xs mem p (short.0) (omega arith)) (
      rw (no_rest (drop (length p + 1) mem) (omega (arith, length-drop (length p + 1) mem)))
        (simp append-nil))
fill-fits n xs mem p (q ∷ qs) short size =
    let room : length p + 1 ≤ length mem =
      omega (arith, size, length-append p (flatten (q ∷ qs))) in
    rw (piece-fits n xs mem p (short.0) room) (
      rw (sym (length-append xs p)) (
        fill-fits n (xs ++ p) (0 ∷ drop (length p + 1) mem) q qs (short.1)
          (omega (arith, size, length-append p (flatten (q ∷ qs)), length-drop (length p + 1) mem))
        ∙ simp append_assoc))

-- If each piece is shorter than all of them together, the second pass stays inside the buffer and
-- leaves in it exactly the pieces, one after the other, and a NUL; and buff_size, by which the tasks
-- then place their parts of the file, is the length of that text.
pub buffer-whole :
    (junk : ℕ) (p : Str) (ps : List Str)
    → AreShorter (measure 0 (p ∷ ps)) (p ∷ ps)
    → (buffer junk (p ∷ ps) ≡ some (flatten (p ∷ ps) ++ 0 ∷ []))
      × (measure 0 (p ∷ ps) ≡ length (flatten (p ∷ ps)))
unfolding buffer
buffer-whole junk p ps short =
    let total : measure 0 (p ∷ ps) ≡ length (flatten (p ∷ ps)) =
      measure-length 0 (p ∷ ps) ∙ omega arith in
    (
      fill-fits (measure 0 (p ∷ ps)) [] (replicate (measure 0 (p ∷ ps) + 1) junk) p ps short
          (length-replicate (measure 0 (p ∷ ps) + 1) junk ∙ ap (λ (m : ℕ). m + 1) total),
      total,
    )
