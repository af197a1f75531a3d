-- ===== src/Topology.antt =====
-- src/ipm_mpi_machtopo.c: ipm_get_machtopo, by which the ranks learn which of them share a host, and
-- get their neighbours in a ring of the hosts and in a ring within their host. The messages are
-- taken to arrive; the order in which the ranks of a host report to its root is a parameter.
pub mod Gather
pub mod Rings
use ipm_nci.Base.{ℕ, zero, suc, ◌+◌, ◌-◌, if◌then◌else◌, ◌==◌, List, [], ◌∷◌, length, get_or}
use ipm_nci.Base.Int.{ℤ, pos, negsuc}
use ipm_nci.Base.Strings.{Str, strn_eq, strncpy}

abbrev pub max_hostname : ℕ
max_hostname = 25

-- One row of hlist, local_roots and local_sizes.
pub record Host : Type 0 where
  pub name : Str
  pub root : ℤ
  pub size : ℕ

-- A name that no row has gets a new one; its size is counted when the loop finds it there.
abbrev pub new_host : Str → ℕ → Host
new_host hn i = record { name = strncpy max_hostname hn; root = pos i; size = 1 }

-- What rank 0 does with the name of rank i: the loop over j, and `local_sizes[j] ++`.
unfoldable pub place : Str → ℕ → List Host → List Host
place hn i [] = new_host hn i ∷ []
place hn i (h ∷ hs) =
    if strn_eq max_hostname hn h.name
    then record h { size = h.size + 1 } ∷ hs
    else h ∷ place hn i hs

-- `local_roots[j]` for the row j of a name, or d.
unfoldable pub root_or : ℤ → Str → List Host → ℤ
root_or d hn [] = d
root_or d hn (h ∷ hs) = if strn_eq max_hostname hn h.name then h.root else root_or d hn hs

-- The loop of rank 0 over the ranks from i on: the rows, and what is sent to each rank.
unfoldable pub gather : ℕ → List Str → List Host → List Host × List ℤ
gather i [] hs = (hs, [])
gather i (hn ∷ hns) hs =
    let rest = gather (i + 1) hns (place hn i hs) in (rest.0, root_or (pos i) hn hs ∷ rest.1)

-- The rows and the intra_root of every rank; rank 0 starts with its own name, and its intra_root is
-- the 0 that static data starts with.
unfoldable pub machtopo_gather : Str → List Str → List Host × List ℤ
machtopo_gather hn hns = let rest = gather 1 hns (new_host hn 0 ∷ []) in (rest.0, pos 0 ∷ rest.1)

-- Neighbours in a ring: what is sent to the members from 1 on, and what member 0 takes. `stray` is
-- what the array reads as beyond the ring.
unfoldable pub ring_left : ℤ → List ℤ → ℕ → ℤ
ring_left stray ring zero = get_or ring (length ring - 1) stray
ring_left stray ring (suc j) = get_or ring j stray

unfoldable pub ring_right : ℤ → List ℤ → ℕ → ℤ
ring_right stray ring zero = get_or ring 1 stray
ring_right stray ring (suc j) =
    if suc j == length ring - 1 then get_or ring 0 stray else get_or ring (suc (suc j)) stray

abbrev pub roots : List Host → List ℤ
roots [] = []
roots (h ∷ hs) = h.root ∷ roots hs

-- inter_left and inter_right of the host j; local_roots holds -1 beyond the hosts.
unfoldable pub inter_left : List Host → ℕ → ℤ
inter_left hs j = ring_left (negsuc 0) (roots hs) j

unfoldable pub inter_right : List Host → ℕ → ℤ
inter_right hs j = ring_right (negsuc 0) (roots hs) j

-- What ipm_get_machtopo leaves in the task.
pub record Topology : Type 0 where
  pub nhosts : ℕ
  pub intra_size : ℕ
  pub intra_root : ℤ
  pub intra_left : ℤ
  pub intra_right : ℤ
  pub inter_left : ℤ
  pub inter_right : ℤ

-- The branch for one task.
unfoldable pub machtopo_single : ℤ → Topology
machtopo_single rank = record {
  nhosts = 1;
  intra_size = 1;
  intra_root = rank;
  intra_left = rank;
  intra_right = rank;
  inter_left = rank;
  inter_right = rank;
}

-- The task of member k of the host j, whose ranks have reported in the order `ranks`, the root
-- first; `stray` is what the memory behind local_ranks reads as.
unfoldable pub machtopo_member : ℤ → List Host → ℕ → List ℤ → ℕ → Topology
machtopo_member stray hs j ranks k = record {
  nhosts = length hs;
  intra_size = length ranks;
  intra_root = get_or ranks 0 stray;
  intra_left = ring_left stray ranks k;
  intra_right = ring_right stray ranks k;
  inter_left = ring_left (negsuc 0) (roots hs) j;
  inter_right = ring_right (negsuc 0) (roots hs) j;
}
