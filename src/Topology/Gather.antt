-- ===== src/Topology/Gather.antt =====
-- What the ranks learn of their host: the first rank on it, and how many ranks it has.
use mathlib.Core.List.{append_assoc, append-nil}
use ipm_nci.Base.{
  Bool, subst, ℕ, suc, ◌+◌, ◌≡◌, refl, sym, ap, ◌∙◌, true, false, if◌then◌else◌, List, [], ◌∷◌,
  ◌++◌, length, take, Bool-cases, inl, inr, arith, length-append,
}
use ipm_nci.Base.Int.{ℤ, pos, negsuc}
use ipm_nci.Base.Strings.{Str, strn_eq, str_eq, take-take, str_eq_refl, eq_of_str_eq}
use ipm_nci.Topology.{max_hostname, Host, new_host, place, root_or, gather, machtopo_gather}

-- The first rank, from k on, whose name agrees with hn in MAXSIZE_HOSTNAME bytes, or d.
unfoldable pub first_or : ℤ → Str → ℕ → List Str → ℤ
first_or d hn k [] = d
first_or d hn k (n ∷ ns) = if strn_eq max_hostname hn n then pos k else first_or d hn (k + 1) ns

first_or-snoc :
    (d : ℤ) (hn : Str) (k : ℕ) (ns : List Str) (n : Str)
    → first_or d hn k (ns ++ n ∷ [])
      ≡ first_or (if strn_eq max_hostname hn n then pos (k + length ns) else d) hn k ns
unfolding first_or
first_or-snoc d hn k [] n =
    ap (λ (i : ℕ). if strn_eq max_hostname hn n then pos i else d)
      (let e : k ≡ k + 0 = omega arith in e)
first_or-snoc d hn k (m ∷ ns) n =
    ap (λ (r : ℤ). if strn_eq max_hostname hn m then pos k else r)
      (first_or-snoc d hn (k + 1) ns n
        ∙ ap (λ (i : ℕ). first_or (if strn_eq max_hostname hn n then pos i else d) hn (k + 1) ns)
            (let e : k + 1 + length ns ≡ k + suc (length ns) = omega arith in e))

-- A name that differs from one of two that agree differs from the other.
strn_eq_away :
    (k : ℕ) (a b c : Str) → strn_eq k b c ≡ true → strn_eq k a c ≡ false → strn_eq k a b ≡ false
strn_eq_away k a b c e g =
    ap (λ (t : Str). str_eq (take k a) t) (eq_of_str_eq (take k b) (take k c) e) ∙ g

root_or-place :
    (d : ℤ) (hn n : Str) (i : ℕ) (hs : List Host)
    → root_or d hn (place n i hs) ≡ root_or (if strn_eq max_hostname hn n then pos i else d) hn hs
unfolding root_or place
root_or-place d hn n i [] = rw (take-take max_hostname n) refl
root_or-place d hn n i (h ∷ hs) = elim (Bool-cases (strn_eq max_hostname n h.name)) [
  | inl same ↦ rw same (elim (Bool-cases (strn_eq max_hostname hn h.name)) [
    | inl found ↦ rw found refl
    | inr missed ↦ rw missed (
        ap (λ (b : Bool). root_or (if b then pos i else d) hn hs)
          (sym (strn_eq_away max_hostname hn n h.name same missed)))
  ])
  | inr other ↦ rw other (elim (Bool-cases (strn_eq max_hostname hn h.name)) [
    | inl found ↦ rw found refl
    | inr missed ↦ rw missed (root_or-place d hn n i hs)
  ])
]

-- The rows stand for the names of the ranks so far.
abbrev Stands : List Str → List Host → Type 0
Stands done hs = (d : ℤ) (hn : Str) → root_or d hn hs ≡ first_or d hn 0 done

Stands-place :
    (done : List Str) (hs : List Host) (n : Str)
    → Stands done hs
    → Stands (done ++ n ∷ []) (place n (length done) hs)
Stands-place done hs n stands d hn =
    root_or-place d hn n (length done) hs
    ∙ stands (if strn_eq max_hostname hn n then pos (length done) else d) hn
    ∙ ap (λ (i : ℕ). first_or (if strn_eq max_hostname hn n then pos i else d) hn 0 done) from_zero
    ∙ sym (first_or-snoc d hn 0 done n)
  where
    from_zero : length done ≡ 0 + length done
    from_zero = omega arith

-- A name is found at its own place at the latest.
first_or-own :
    (d : ℤ) (hn : Str) (k : ℕ) (xs ys : List Str)
    → first_or d hn k (xs ++ hn ∷ ys) ≡ first_or (pos (k + length xs)) hn k xs
unfolding first_or
first_or-own d hn k [] ys = rw (str_eq_refl (take max_hostname hn)) (ap pos (omega arith))
first_or-own d hn k (x ∷ xs) ys =
    ap (λ (r : ℤ). if strn_eq max_hostname hn x then pos k else r)
      (first_or-own d hn (k + 1) xs ys
        ∙ ap (λ (i : ℕ). first_or (pos i) hn (k + 1) xs)
            (let e : k + 1 + length xs ≡ k + suc (length xs) = omega arith in e))

cons-eq : {a b : ℤ} {xs ys : List ℤ} → a ≡ b → xs ≡ ys → a ∷ xs ≡ b ∷ ys
cons-eq e es = cc

-- The replies to the ranks after those in `done`.
abbrev pub firsts : List Str → List Str → List ℤ
firsts all [] = []
firsts all (n ∷ ns) = first_or (negsuc 0) n 0 all ∷ firsts all ns

abbrev Replies : List Str → List Str → List Host × List ℤ → Type 0
Replies done ns out = (out.1 ≡ firsts (done ++ ns) ns) × Stands (done ++ ns) (out.0)

gather-firsts :
    (done ns : List Str) (hs : List Host)
    → Stands done hs
    → Replies done ns (gather (length done) ns hs)
unfolding gather
gather-firsts done [] hs stands = (refl, rw (append-nil done) stands)
gather-firsts done (n ∷ ns) hs stands = extend (
    subst (λ (k : ℕ). Replies (done ++ n ∷ []) ns (gather k ns (place n (length done) hs)))
      (sym next)
      (gather-firsts (done ++ n ∷ []) ns (place n (length done) hs)
        (Stands-place done hs n stands)))
  where
    next : length done + 1 ≡ length (done ++ n ∷ [])
    next = omega (arith, length-append done (n ∷ []))

    from_zero : length done ≡ 0 + length done
    from_zero = omega arith

    own : root_or (pos (length done)) n hs ≡ first_or (negsuc 0) n 0 (done ++ n ∷ ns)
    own =
        stands (pos (length done)) n
        ∙ ap (λ (i : ℕ). first_or (pos i) n 0 done) from_zero
        ∙ sym (first_or-own (negsuc 0) n 0 done ns)

    extend :
        Replies (done ++ n ∷ []) ns (gather (length done + 1) ns (place n (length done) hs))
        → Replies done (n ∷ ns) (gather (length done) (n ∷ ns) hs)
    extend rest =
        let rest' =
          subst
            (λ (all : List Str).
              ((gather (length done + 1) ns (place n (length done) hs)).1 ≡ firsts all ns)
              × Stands all (gather (length done + 1) ns (place n (length done) hs)).0)
            (append_assoc done (n ∷ []) ns) rest in
        (cons-eq own rest'.0, rest'.1)

-- Every rank, rank 0 with its static 0 included, gets as intra_root the first rank whose host name
-- agrees with its own in MAXSIZE_HOSTNAME bytes; `firsts` lists it for all of them.
pub machtopo_gather-firsts :
    (hn : Str) (hns : List Str) → (machtopo_gather hn hns).1 ≡ firsts (hn ∷ hns) (hn ∷ hns)
unfolding machtopo_gather first_or root_or
machtopo_gather-firsts hn hns =
    cons-eq (rw (str_eq_refl (take max_hostname hn)) refl)
      (gather-firsts (hn ∷ []) hns (new_host hn 0 ∷ []) first).0
  where
    first : Stands (hn ∷ []) (new_host hn 0 ∷ [])
    first d n = rw (take-take max_hostname hn) refl
