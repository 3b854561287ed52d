-- ===== src/Ha/Trace/Routed.antt =====
-- What is asked of the routes in the main table, and the updates to the home and to an IPv6 address.
pub mod V4
use dsmip.Common.{
  Option, ℕ, zero, ◌≡◌, ◌≢◌, refl, arith, ap, ◌∙◌, ℤ, pos, ==ℤ_refl, ==ℤ_iff, ==_refl, is_pos,
  is_neg, true, none, some, ◌∷◌, get_or,
}
use dsmip.Net.{In6Addr, v6_eq_refl, ipv6_map_addr, ipv6_unmap_addr}
use dsmip.Ha.State.{
  Host, Config, Kernel, Log, Request, mobile, tunnel44_add, tunnel64_add, tunnel66_add,
}
use dsmip.Ha.Trace.Routing.{
  Ends, ends44, ends64, ends66, ends_of, is44, is64, is66, tunnel_of, IsDriver, via4, via6,
}
use dsmip.Ha.Valid.{IsValid}
use dsmip.Ha.Valid.Arrays.{find_coa-pos}
use dsmip.Ha.Binding.V4.{bu_v4, switch_v4, find_coa}
use dsmip.Ha.Binding.V6.{bu_v6}
use dsmip.Ha.Binding.Home.{go_home}
use dsmip.Ha.Binding.Handler.{Bu, rebind_cases, accept_bu}

-- Away from home, the main table's routes to both home addresses go through the tunnels in use, which
-- exist; at home there are none.
pub record IsRouted (kernel : Kernel) (h : Host) : Type 0 where
  pub on_v4 :
      is_pos h.mn.active ≡ true
      → (via4 kernel mobile h.mn.hoav4 h.log ≡ some h.mn.tnl44_ifindex)
        × (via6 kernel mobile h.mn.hoav6 h.log ≡ some h.mn.tnl64_ifindex)
        × (is44 (tunnel_of kernel h.mn.tnl44_ifindex h.log) ≡ true)
        × (is64 (tunnel_of kernel h.mn.tnl64_ifindex h.log) ≡ true)
  pub on_v6 :
      is_neg h.mn.active ≡ true
      → (via4 kernel mobile h.mn.hoav4 h.log ≡ some h.mn.tnl66_ifindex)
        × (via6 kernel mobile h.mn.hoav6 h.log ≡ some h.mn.tnl66_ifindex)
        × (is66 (tunnel_of kernel h.mn.tnl66_ifindex h.log) ≡ true)
  pub at_home :
      h.mn.active ≡ pos 0
      → (via4 kernel mobile h.mn.hoav4 h.log ≡ none) × (via6 kernel mobile h.mn.hoav6 h.log ≡ none)

-- The log up to the requests for the tunnels to a care-of address.
abbrev pub with64 : Config → ℕ → ℕ → Log → Log
with64 cfg ifindex coav4 log =
    tunnel64_add (ipv6_map_addr cfg.hav4) (ipv6_map_addr coav4) ifindex ∷ log

abbrev pub with44 : Config → ℕ → ℕ → Log → Log
with44 cfg ifindex coav4 log =
    tunnel44_add (ipv6_map_addr cfg.hav4) (ipv6_map_addr coav4) ifindex
    ∷ with64 cfg ifindex coav4 log

abbrev pub with66 : Config → ℕ → In6Addr → Log → Log
with66 cfg ifindex coa log = tunnel66_add cfg.hav6 coa ifindex ∷ log

-- The care-of address asks for tunnels other than those in use, and the requests succeed.
pub record IsMove (kernel : Kernel) (cfg : Config) (ifindex : ℕ) (coa : In6Addr) (h : Host)
    : Type 0 where
  pub made4 :
      (a : ℕ)
      → ipv6_unmap_addr coa ≡ some a
      → (is_pos (kernel (with64 cfg ifindex a h.log)) ≡ true)
        × (is_pos (kernel (with44 cfg ifindex a h.log)) ≡ true)
  pub made6 : ipv6_unmap_addr coa ≡ none → is_pos (kernel (with66 cfg ifindex coa h.log)) ≡ true
  pub new4 :
      (a : ℕ)
      → ipv6_unmap_addr coa ≡ some a
      → is_pos h.mn.active ≡ true
      → (tunnel_of kernel h.mn.tnl44_ifindex h.log
          ≢ some (ends44 (ipv6_map_addr cfg.hav4) (ipv6_map_addr a)))
        × (tunnel_of kernel h.mn.tnl64_ifindex h.log
            ≢ some (ends64 (ipv6_map_addr cfg.hav4) (ipv6_map_addr a)))
  pub new6 :
      is_neg h.mn.active ≡ true
      → tunnel_of kernel h.mn.tnl66_ifindex h.log ≢ some (ends66 cfg.hav6 coa)

-- A request for other end points gets another index.
pub other_index :
    (kernel : Kernel) (q : Request) (e e' : Ends) (i : ℤ) (log : Log)
    → IsDriver kernel
    → ends_of q ≡ some e
    → is_pos (kernel (q ∷ log)) ≡ true
    → tunnel_of kernel i log ≡ some e'
    → e' ≢ e
    → kernel (q ∷ log) ≢ i
other_index kernel q e e' i log w s p t ne k = ne (w.same q e e' log s p (rw k t))

pub ends-is44 :
    (o : Option Ends) → is44 o ≡ true → (l : In6Addr) × (r : In6Addr) × (o ≡ some (ends44 l r))
ends-is44 none e = absurd (ground arith)
ends-is44 (some (ends44 l r)) e = (l, r, refl)
ends-is44 (some (ends64 l r)) e = absurd (ground arith)
ends-is44 (some (ends66 l r)) e = absurd (ground arith)

pub ends-is64 :
    (o : Option Ends) → is64 o ≡ true → (l : In6Addr) × (r : In6Addr) × (o ≡ some (ends64 l r))
ends-is64 none e = absurd (ground arith)
ends-is64 (some (ends44 l r)) e = absurd (ground arith)
ends-is64 (some (ends64 l r)) e = (l, r, refl)
ends-is64 (some (ends66 l r)) e = absurd (ground arith)

pub ends-is66 :
    (o : Option Ends) → is66 o ≡ true → (l : In6Addr) × (r : In6Addr) × (o ≡ some (ends66 l r))
ends-is66 none e = absurd (ground arith)
ends-is66 (some (ends44 l r)) e = absurd (ground arith)
ends-is66 (some (ends64 l r)) e = absurd (ground arith)
ends-is66 (some (ends66 l r)) e = (l, r, refl)

pub go_home-IsRouted :
    (kernel : Kernel) (cfg : Config) (h : Host)
    → IsRouted kernel h
    → IsRouted kernel (go_home cfg h)
unfolding go_home
go_home-IsRouted kernel cfg h v = ground (
  arith,
  ==_refl h.mn.hoav4,
  v6_eq_refl h.mn.hoav6,
  ==ℤ_refl h.mn.tnl44_ifindex,
  ==ℤ_refl h.mn.tnl64_ifindex,
  ==ℤ_refl h.mn.tnl66_ifindex,
)

module _ (kernel : Kernel) (cfg : Config) (ifindex : ℕ) (coa : In6Addr) (h : Host)
    (w : IsDriver kernel) (v : IsRouted kernel h) (new : IsMove kernel cfg ifindex coa h) where
  new_tunnel66 :
      is_pos (kernel (with66 cfg ifindex coa h.log)) ≡ true
      → (is_neg h.mn.active ≡ true → kernel (with66 cfg ifindex coa h.log) ≢ h.mn.tnl66_ifindex)
        × (is_pos h.mn.active ≡ true
            → (kernel (with66 cfg ifindex coa h.log) ≢ h.mn.tnl44_ifindex)
              × (kernel (with66 cfg ifindex coa h.log) ≢ h.mn.tnl64_ifindex))
  new_tunnel66 made = (
    λ p.
        let (l, r, t) = ends-is66 _ ((v.on_v6 p).2) in
        other_index kernel _ (ends66 cfg.hav6 coa) (ends66 l r) _ h.log w refl made t
          (λ q. new.new6 p (t ∙ ap some q)),
    λ p.
        let (l, r, t) = ends-is44 _ ((v.on_v4 p).2) in
        let (l', r', t') = ends-is64 _ ((v.on_v4 p).3) in
        (
          other_index kernel _ (ends66 cfg.hav6 coa) (ends44 l r) _ h.log w refl made t (λ q. cc),
          other_index kernel _ (ends66 cfg.hav6 coa) (ends64 l' r') _ h.log w refl made t'
              (λ q. cc),
        ),
  )

  pub bu_v6-IsRouted :
      (seqno : ℕ) (hoa : In6Addr)
      → ipv6_unmap_addr coa ≡ none
      → IsRouted kernel (bu_v6 kernel cfg ifindex seqno hoa coa h)
  unfolding bu_v6
  bu_v6-IsRouted seqno hoa unmapped = ground (
    arith,
    new_tunnel66 (new.made6 unmapped),
    v,
    new.made6 unmapped,
    ==_refl h.mn.hoav4,
    v6_eq_refl h.mn.hoav6,
    ==ℤ_refl (kernel (with66 cfg ifindex coa h.log)),
    ==ℤ_refl h.mn.tnl44_ifindex,
    ==ℤ_refl h.mn.tnl64_ifindex,
    ==ℤ_refl h.mn.tnl66_ifindex,
    ==ℤ_iff h.mn.tnl44_ifindex (kernel (with66 cfg ifindex coa h.log)),
    ==ℤ_iff h.mn.tnl64_ifindex (kernel (with66 cfg ifindex coa h.log)),
    ==ℤ_iff h.mn.tnl66_ifindex (kernel (with66 cfg ifindex coa h.log)),
  )
