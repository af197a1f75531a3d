-- ===== src/Tests/Topologies.antt =====
-- Three ranks on two hosts.
use ipm_nci.Base.{◌≡◌, refl, List, [], ◌∷◌}
use ipm_nci.Base.Int.{pos, negsuc}
use ipm_nci.Base.Strings.{Str}
use ipm_nci.Topology.Gather.{firsts, machtopo_gather-firsts}
use ipm_nci.Topology.{Host, place, root_or, gather, machtopo_gather, inter_right, ring_right}

abbrev host_a : Str
host_a = 97 ∷ []

abbrev host_b : Str
host_b = 98 ∷ []

abbrev hosts : List Host
hosts =
    record { name = host_a; root = pos 0; size = 2 }
    ∷ record { name = host_b; root = pos 1; size = 1 }
    ∷ []

gathers : machtopo_gather host_a (host_b ∷ host_a ∷ []) ≡ (hosts, pos 0 ∷ pos 1 ∷ pos 0 ∷ [])
unfolding machtopo_gather gather place root_or
gathers = refl

machtopo_gather-firsts_example :
    (machtopo_gather host_a (host_b ∷ host_a ∷ [])).1
    ≡ firsts (host_a ∷ host_b ∷ host_a ∷ []) (host_a ∷ host_b ∷ host_a ∷ [])
machtopo_gather-firsts_example = machtopo_gather-firsts host_a (host_b ∷ host_a ∷ [])

-- With one host the right neighbour is -1, not the host's own root.
lone_host : inter_right (record { name = host_a; root = pos 0; size = 2 } ∷ []) 0 ≡ negsuc 0
unfolding inter_right ring_right
lone_host = refl
