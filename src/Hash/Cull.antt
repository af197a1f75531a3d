-- ===== src/Hash/Cull.antt =====
-- src/ipm_util.c: ipm_hash_cull, called when the table has MAXSIZE_HASHLIMIT keys. It halves the
-- precision of the call with the most keys and rebuilds the table. The build without
-- IPM_DISABLE_HASHCOMPRESS; the copy of the table is taken to be allocated.
use ipm_nci.Base.{
  ℕ, zero, suc, ◌+◌, true, false, if◌then◌else◌, ◌==◌, ltb, List, [], ◌∷◌, map, get_or, set,
}
use ipm_nci.Base.Int.{pos}
use ipm_nci.Hash.{
  Sizes, Entry, Task, Run, done, exited, no_fuel, ◌>>=◌, add64, slot, hash_hkey, hash_clear,
}
use ipm_nci.Key.{mpi_key, key_region, key_call, key_rank, key_byte, buf_precision, precision_down}

-- Columns 1 to MAXSIZE_CALLS of a row are set to 0.
zero_tail : List ℕ → List ℕ
zero_tail [] = []
zero_tail (x ∷ xs) = x ∷ map (λ _. 0) xs

-- m[0][i] += n
add_first : List (List ℕ) → ℕ → ℕ → List (List ℕ)
add_first [] i n = []
add_first (row ∷ rows) i n = set row i (get_or row i 0 + n) ∷ rows

-- The loop that counts the slots of each call; a free slot counts for call 0.
tally : List Entry → List (List ℕ) → List (List ℕ)
tally [] m = m
tally (e ∷ es) m = tally es (add_first m (key_call e.key) 1)

tally_time : List Entry → List (List ℕ) → List (List ℕ)
tally_time [] m = m
tally_time (e ∷ es) m = tally_time es (add_first m (key_call e.key) e.t_tot)

-- The loop for the densest call: `n` calls from `i` on, with what is found so far.
densest : ℕ → ℕ → List ℕ → ℕ → ℕ → ℕ
densest zero i row call count = call
densest (suc n) i row call count =
    let denser = ltb count (get_or row i 0) in
    densest n (i + 1) row (if denser then i else call) (if denser then get_or row i 0 else count)

first_row : List (List ℕ) → List ℕ
first_row [] = []
first_row (row ∷ rows) = row

unfoldable pub most_dense_call : Sizes → Task → ℕ
unfolding zero_tail add_first tally densest first_row
most_dense_call z t =
    densest z.max_calls 1 (first_row (tally t.hash (map zero_tail t.call_mcount))) 0 0

-- What the saved entry adds to the entry of its new key.
unfoldable pub merge : Entry → Entry → Entry
merge s e = record e {
  count = add64 e.count s.count;
  t_tot = e.t_tot + s.t_tot;
  t_max = if ltb e.t_max s.t_max then s.t_max else e.t_max;
  t_min = if ltb s.t_min e.t_min then s.t_min else e.t_min;
}

-- The key of a saved entry under the new masks.
unfoldable pub rekey : List ℕ → ℕ → ℕ
rekey masks k =
    mpi_key (buf_precision (get_or masks (key_call k) 0)) (pos (key_region k)) (pos (key_call k))
      (key_rank k) (pos (key_byte k))

unfoldable pub reinsert_one : Sizes → (Task → Run Task) → ℕ → Task → Entry → Run Task
unfolding rekey merge
reinsert_one z cull fuel t s = hash_hkey z cull fuel t (rekey t.call_mask s.key) >>= λ r.
    done (record (r.0) { hash = set (r.0).hash r.1 (merge s (slot r.0 r.1)) })

-- The loop over the saved table.
unfoldable pub reinsert : Sizes → (Task → Run Task) → ℕ → List Entry → Task → Run Task
reinsert z cull fuel [] t = done t
reinsert z cull fuel (s ∷ ss) t = elim (s.key == 0) [
  | true ↦ reinsert z cull fuel ss t
  | false ↦ reinsert_one z cull fuel t s >>= reinsert z cull fuel ss
]

-- The task when the table is cleared and the mask of the densest call is lowered.
unfoldable pub lowered : Sizes → Task → Task
unfolding most_dense_call tally_time
lowered z t =
    let call = most_dense_call z t in
    record t {
      hash = hash_clear z;
      hash_nkey = 0;
      call_mask = set t.call_mask call (precision_down (get_or t.call_mask call 0));
      call_mcount = tally t.hash (map zero_tail t.call_mcount);
      call_mtime = tally_time t.hash (map zero_tail t.call_mtime);
    }

-- ipm_hash_cull("MAXSIZE_HASHLIMIT"). `rounds` bounds how deep the calls nest that IPM_HASH_HKEY
-- makes from the loop over the saved table, `fuel` the probes of one such call.
unfoldable pub hash_cull : Sizes → ℕ → ℕ → Task → Run Task
hash_cull z zero fuel t = no_fuel
hash_cull z (suc rounds) fuel t =
    let low = lowered z t in
    elim (buf_precision (get_or low.call_mask (most_dense_call z t) 0) == 0) [
      | true ↦ exited
      | false ↦ reinsert z (hash_cull z rounds fuel) fuel t.hash low
    ]
