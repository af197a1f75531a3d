-- ===== src/Hash.antt =====
-- include/ipm.h: the table of events that each task keeps, with open addressing by double hashing
-- (ipm_hash_ent, IPM_HASH_HKEY, IPM_LOG_MPIEVENT, IPM_HASH_CLEAR, IPM_HASH_GET_COMMTIME).
-- Times are whole numbers of nanoseconds in place of doubles; counts wrap at 2 ^ 64.
pub mod Cull
pub mod Probe
pub mod Slots
pub mod Insert
pub mod Log
pub mod Sums
pub mod Totals
pub mod Rebuild
use ipm_nci.Base.{
  ℕ, zero, suc, ◌+◌, ◌-◌, ◌*◌, ◌%◌, ◌^◌, true, false, not, ◌&&◌, if◌then◌else◌, ◌==◌, ltb, leb,
  List, [], ◌∷◌, get_or, set, replicate, ◌≡◌, refl,
}
use ipm_nci.Base.Int.{ℤ, pos}
use ipm_nci.Key.{mpi_key, key_region, buf_precision}

-- What the build fixes: MAXSIZE_HASH, MAXSIZE_HASHLIMIT and MAXSIZE_CALLS (include/ipm_sizes.h).
pub record Sizes : Type 0 where
  pub max_hash : ℕ
  pub hash_limit : ℕ
  pub max_calls : ℕ

-- The default build, and IPM_ENABLE_HASHXTINY, for a library of 49 calls.
abbrev pub default_sizes : Sizes
default_sizes = record { max_hash = 32573; hash_limit = 28000; max_calls = 49 }

abbrev pub xtiny_sizes : Sizes
xtiny_sizes = record { max_hash = 317; hash_limit = 280; max_calls = 49 }

abbrev pub max_region : ℕ
max_region = 255

-- ipm_hash_ent; a key of 0 marks a free slot.
pub record Entry : Type 0 where
  pub key : ℕ
  pub count : ℕ
  pub t_tot : ℕ
  pub t_min : ℕ
  pub t_max : ℕ

-- IPM_MPI_KEY_CLEAR
abbrev pub cleared : Entry
cleared = record { key = 0; count = 0; t_tot = 0; t_min = 0; t_max = 0 }

-- The new entry that IPM_HASH_HKEY writes; t_min starts at 1e15 seconds.
abbrev pub fresh_entry : ℕ → Entry
fresh_entry k = record { key = k; count = 0; t_tot = 0; t_min = 10 ^ 24; t_max = 0 }

-- The fields of ipm_taskdata that the table's operations use, and the static `collisions`.
-- The rows of call_mcount and call_mtime are regions, their columns calls.
pub record Task : Type 0 where
  pub hash : List Entry
  pub hash_nkey : ℕ
  pub hash_nlog : ℕ
  pub collisions : ℕ
  pub call_mask : List ℕ
  pub call_mcount : List (List ℕ)
  pub call_mtime : List (List ℕ)

-- A run that ends, one that calls exit(1), and one for which the fuel did not suffice.
pub data Run {ℓ} (A : Type ℓ) : Type ℓ where
  done : A → Run A
  exited : Run A
  no_fuel : Run A

infixl 5 ◌>>=◌
abbrev pub ◌>>=◌ {ℓ κ} : {A : Type ℓ} {B : Type κ} → Run A → (A → Run B) → Run B
done a >>= f = f a
exited >>= f = exited
no_fuel >>= f = no_fuel

pub done-injective {ℓ} : {A : Type ℓ} {a b : A} → done a ≡ done b → a ≡ b
done-injective e = cc

-- Inversion of a run that ends.
pub >>=-eq-done {ℓ κ} :
    {A : Type ℓ} {B : Type κ} (m : Run A) (f : A → Run B) {b : B}
    → m >>= f ≡ done b
    → (a : A) × (m ≡ done a) × (f a ≡ done b)
>>=-eq-done (done a) f e = (a, refl, e)
>>=-eq-done exited f e = cc
>>=-eq-done no_fuel f e = cc

abbrev pub add64 : ℕ → ℕ → ℕ
add64 a b = (a + b) % 2 ^ 64

-- The slot of the c-th probe for a key, in arithmetic on unsigned long long.
unfoldable pub probe : Sizes → ℕ → ℕ → ℕ
probe z fkey c = add64 (fkey % z.max_hash) (c * (1 + fkey % (z.max_hash - 2)) % 2 ^ 64) % z.max_hash

-- The first probe: `fkey%MAXSIZE_HASH`
unfoldable pub first_slot : Sizes → ℕ → ℕ
first_slot z fkey = fkey % z.max_hash

-- The slot as the code reads it.
abbrev pub slot : Task → ℕ → Entry
slot t i = get_or t.hash i cleared

-- The branch for a free slot.
unfoldable pub claim : Task → ℕ → ℕ → Task
claim t fkey hkey = record t {
  hash = set t.hash hkey (fresh_entry fkey);
  hash_nkey = add64 t.hash_nkey 1;
}

-- The branch for a collision: ipm_hash_cull, passed as `cull`, when the limit is reached.
unfoldable pub collide : Sizes → (Task → Run Task) → Task → Run Task
collide z cull t = (if leb z.hash_limit t.hash_nkey then cull t else done t) >>= λ u.
    done (record u { collisions = add64 u.collisions 1 })

-- The while loop of IPM_HASH_HKEY.
unfoldable pub hkey_loop : Sizes → (Task → Run Task) → ℕ → Task → ℕ → ℕ → Run (Task × ℕ)
hkey_loop z cull zero t fkey hkey = no_fuel
hkey_loop z cull (suc fuel) t fkey hkey = elim ((slot t hkey).key == fkey) [
  | true ↦ done (t, hkey)
  | false ↦ elim ((slot t hkey).key == 0) [
    | true ↦ hkey_loop z cull fuel (claim t fkey hkey) fkey hkey
    | false ↦ collide z cull t >>= λ u. hkey_loop z cull fuel u fkey (probe z fkey u.collisions)
  ]
]

-- IPM_HASH_HKEY
unfoldable pub hash_hkey : Sizes → (Task → Run Task) → ℕ → Task → ℕ → Run (Task × ℕ)
hash_hkey z cull fuel t fkey =
    hkey_loop z cull fuel (record t { collisions = 0 }) fkey (first_slot z fkey)

-- What IPM_LOG_MPIEVENT does to the entry.
unfoldable pub record_time : ℕ → Entry → Entry
record_time wall e = record e {
  count = add64 e.count 1;
  t_tot = e.t_tot + wall;
  t_max = if ltb e.t_max wall then wall else e.t_max;
  t_min = if ltb wall e.t_min then wall else e.t_min;
}

-- The arguments of IPM_LOG_MPIEVENT but the time.
pub record Event : Type 0 where
  pub region : ℤ
  pub call : ℕ
  pub rank : ℤ
  pub bytes : ℤ

-- The key of an event; call_mask has an entry for the calls up to MAXSIZE_CALLS, and the wrappers have
-- no others.
unfoldable pub event_key : Task → Event → ℕ
event_key t e =
    mpi_key (buf_precision (get_or t.call_mask e.call 0)) e.region (pos e.call) e.rank e.bytes

-- IPM_LOG_MPIEVENT
unfoldable pub log_mpievent : Sizes → (Task → Run Task) → ℕ → Task → Event → ℕ → Run Task
unfolding record_time event_key
log_mpievent z cull fuel t e wall =
    hash_hkey z cull fuel (record t { hash_nlog = add64 t.hash_nlog 1 }) (event_key t e) >>= λ r.
    done (record (r.0) { hash = set (r.0).hash r.1 (record_time wall (slot r.0 r.1)) })

-- IPM_HASH_CLEAR
unfoldable pub hash_clear : Sizes → List Entry
hash_clear z = replicate (z.max_hash + 1) cleared

-- IPM_HASH_GET_COMMTIME
unfoldable pub commtime : List Entry → ℕ
commtime [] = 0
commtime (e ∷ es) = (if not (e.key == 0) then e.t_tot else 0) + commtime es

-- IPM_HASH_GET_COMMTIME_REGION
unfoldable pub commtime_region : ℕ → List Entry → ℕ
commtime_region r [] = 0
commtime_region r (e ∷ es) =
    (if not (e.key == 0) && (key_region e.key == r) then e.t_tot else 0) + commtime_region r es
