-- ===== src/Tests/TunnelPool.antt =====
-- The theorems on the pool of tunnels at sample states.
use dsmip.Common.{ℕ, ◌≡◌, ◌≢◌, refl, pos, negsuc, arith, true, false, [], ◌∷◌, none, some}
use dsmip.Net.{In6Addr, v6_eq}
use dsmip.Mobile.Pool.{Tunnel, Driver, Pool, find_from, find_tunnel, Added, create, tunnel_add}
use dsmip.Mobile.Pool.Again.{tunnel_add-again, tunnel_add-some}

abbrev agent : In6Addr
agent = record { w0 = 0x20010db8; w1 = 0; w2 = 0; w3 = 1 }

abbrev first_coa : In6Addr
first_coa = record { w0 = 0x20010db8; w1 = 1; w2 = 0; w3 = 2 }

abbrev second_coa : In6Addr
second_coa = record { w0 = 0x20010db8; w1 = 2; w2 = 0; w3 = 2 }

abbrev busy : In6Addr → ℕ → Tunnel
busy coa time = record {
  is_used = true;
  src = coa;
  dst = agent;
  link = 4;
  ifindex = pos 9;
  last_access = time;
}

abbrev free : Tunnel
free = record {
  is_used = false;
  src = agent;
  dst = agent;
  link = 0;
  ifindex = pos 0;
  last_access = 0;
}

-- The kernel refuses the new tunnel.
abbrev refuses : Driver
refuses calls = negsuc 0

abbrev accepts : Driver
accepts calls = pos 12

abbrev part : Pool
part = record { tunnels = busy first_coa 50 ∷ free ∷ []; calls = [] }

abbrev refused : Added
refused = record {
  ifindex = negsuc 0;
  pool = record {
    tunnels = busy first_coa 50 ∷ record (busy second_coa 60) { ifindex = negsuc 0 } ∷ [];
    calls = create second_coa agent 4 ∷ [];
  };
}

refused_lem : tunnel_add refuses second_coa agent 4 60 part ≡ some refused
unfolding tunnel_add find_tunnel find_from v6_eq
refused_lem = refl

-- The failure is handed out again, though the kernel would accept the tunnel now.
tunnel_add-again_example :
    (b : Added) × (tunnel_add accepts second_coa agent 4 70 refused.pool ≡ some b)
    × (b.ifindex ≡ negsuc 0)
    × (b.pool.calls ≡ create second_coa agent 4 ∷ [])
tunnel_add-again_example =
    tunnel_add-again second_coa agent 4 refuses accepts 60 70 part refused refused_lem

tunnel_add-some_example :
    tunnel_add accepts second_coa agent 4 70
      (record { tunnels = busy first_coa 50 ∷ []; calls = [] })
    ≢ none
tunnel_add-some_example =
    tunnel_add-some second_coa agent 4 accepts 70 (busy first_coa 50) [] [] (omega arith)
