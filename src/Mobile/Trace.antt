-- ===== src/Mobile/Trace.antt =====
-- What a log of the mobile node's calls says about encapsulations, policies, rules and routes.
use dsmip.Common.{
  ℕ, zero, suc, ◌+◌, ◌%◌, ◌^◌, ℤ, ◌==ℤ◌, ◌≡◌, refl, ◌∙◌, Bool, true, false, ◌&&◌, Option, none,
  some, ◌∷◌, ◌==◌, up, when, ap, arith, if◌then◌else◌,
}
use dsmip.Net.{In6Addr, v6_eq}
use dsmip.Mobile.State.{
  RouteTable, default_table, node_table, mobile_table, temp_table, Source, any_source, home_source,
  Call, route4_add, route4_del, route_add, route_del, rule4_any_add, rule4_any_del, rule_any_add,
  rule_any_del, rule4_add, rule4_del, rule_add, rule_del, policy_add, policy_del, state_add,
  state_del, start_udp_encap, stop_udp_encap, sendbu, nat_probe_send, Calls, Env, Node, note,
}
use dsmip.Mobile.Handoff.Steps.{send_bu, send_bus, send_probed_bus, bu_count, tell, tell_probed}

abbrev pub Effect : Type 0
Effect = Call → Option Bool

abbrev pub same_table : RouteTable → RouteTable → Bool
same_table default_table default_table = true
same_table node_table node_table = true
same_table mobile_table mobile_table = true
same_table temp_table temp_table = true
same_table _ _ = false

abbrev pub same_source : Source → Source → Bool
same_source any_source any_source = true
same_source home_source home_source = true
same_source _ _ = false

abbrev pub encap : ℕ → Effect
encap a (start_udp_encap b) = when (b == a) true
encap a (stop_udp_encap b) = when (b == a) false
encap a _ = none

-- The outbound policy for binding updates, and the state with the care-of address.
abbrev pub policy : Effect
policy policy_add = some true
policy policy_del = some false
policy _ = none

abbrev pub coa_state : Effect
coa_state (state_add a) = some true
coa_state state_del = some false
coa_state _ = none

abbrev pub rule4 : RouteTable → ℕ → Effect
rule4 t a (rule4_add u p b) = when (same_table u t && b == a) true
rule4 t a (rule4_del u p b) = when (same_table u t && b == a) false
rule4 t a _ = none

abbrev pub rule6 : RouteTable → In6Addr → Effect
rule6 t a (rule_add u p b) = when (same_table u t && v6_eq b a) true
rule6 t a (rule_del u p b) = when (same_table u t && v6_eq b a) false
rule6 t a _ = none

-- The rules for all traffic.
abbrev pub rule4_any : RouteTable → Effect
rule4_any t (rule4_any_add u p) = when (same_table u t) true
rule4_any t (rule4_any_del u p) = when (same_table u t) false
rule4_any t _ = none

abbrev pub rule_any : RouteTable → Effect
rule_any t (rule_any_add u p) = when (same_table u t) true
rule_any t (rule_any_del u p) = when (same_table u t) false
rule_any t _ = none

abbrev pub route4 : ℤ → RouteTable → Source → Effect
route4 i t s (route4_add j u v) = when (same_table u t && (same_source v s && (j ==ℤ i))) true
route4 i t s (route4_del j u v) = when (same_table u t && (same_source v s && (j ==ℤ i))) false
route4 i t s _ = none

abbrev pub route6 : ℤ → RouteTable → Source → Effect
route6 i t s (route_add j u v) = when (same_table u t && (same_source v s && (j ==ℤ i))) true
route6 i t s (route_del j u v) = when (same_table u t && (same_source v s && (j ==ℤ i))) false
route6 i t s _ = none

-- What `send_bus` does, in closed form.
abbrev pub bu_log : In6Addr → ℕ → ℕ → Calls → Calls
bu_log coa zero seq log = log
bu_log coa (suc k) seq log = bu_log coa k (seq + 1) (sendbu coa (seq % 2 ^ 16) ∷ log)

abbrev pub bu_time : Env → In6Addr → ℕ → ℕ → Calls → ℕ → ℕ
bu_time env coa zero seq log t = t
bu_time env coa (suc k) seq log t =
    let sent : Calls = sendbu coa (seq % 2 ^ 16) ∷ log in
    bu_time env coa k (seq + 1) sent (if env.is_sent sent then env.uptime else t)

send_bus_lem :
    (env : Env) (coa : In6Addr) (k : ℕ) (n : Node)
    → send_bus env coa k n ≡ record n {
      bu_seq = n.bu_seq + k;
      last_bu_t = bu_time env coa k n.bu_seq n.log n.last_bu_t;
      log = bu_log coa k n.bu_seq n.log;
    }
unfolding send_bus
send_bus_lem env coa zero n = ground arith
send_bus_lem env coa (suc k) n = ground (arith, send_bus_lem env coa k (send_bu env coa n))

abbrev pub probed_log : In6Addr → ℕ → ℕ → ℕ → ℕ → Calls → Calls
probed_log coa i a zero seq log = log
probed_log coa i a (suc k) seq log =
    probed_log coa i a k (seq + 1) (sendbu coa (seq % 2 ^ 16) ∷ nat_probe_send i a ∷ log)

abbrev pub probed_time : Env → In6Addr → ℕ → ℕ → ℕ → ℕ → Calls → ℕ → ℕ
probed_time env coa i a zero seq log t = t
probed_time env coa i a (suc k) seq log t =
    let sent : Calls = sendbu coa (seq % 2 ^ 16) ∷ nat_probe_send i a ∷ log in
    probed_time env coa i a k (seq + 1) sent (if env.is_sent sent then env.uptime else t)

send_probed_bus_lem :
    (env : Env) (coa : In6Addr) (i a k : ℕ) (n : Node)
    → send_probed_bus env coa i a k n ≡ record n {
      bu_seq = n.bu_seq + k;
      last_bu_t = probed_time env coa i a k n.bu_seq n.log n.last_bu_t;
      log = probed_log coa i a k n.bu_seq n.log;
    }
unfolding send_probed_bus
send_probed_bus_lem env coa i a zero n = ground arith
send_probed_bus_lem env coa i a (suc k) n =
    ground
      (arith, send_probed_bus_lem env coa i a k (send_bu env coa (note (nat_probe_send i a) n)))

-- Binding updates and probes change nothing else.
pub up-bu_log :
    (e : Effect) (coa : In6Addr) (k seq : ℕ) (log : Calls)
    → ((s : ℕ) → e (sendbu coa s) ≡ none)
    → up e (bu_log coa k seq log) ≡ up e log
up-bu_log e coa zero seq log quiet = refl
up-bu_log e coa (suc k) seq log quiet =
    up-bu_log e coa k (seq + 1) (sendbu coa (seq % 2 ^ 16) ∷ log) quiet
    ∙ rw (up, quiet (seq % 2 ^ 16)) refl

pub up-probed_log :
    (e : Effect) (coa : In6Addr) (i a k seq : ℕ) (log : Calls)
    → ((s : ℕ) → e (sendbu coa s) ≡ none)
    → e (nat_probe_send i a) ≡ none
    → up e (probed_log coa i a k seq log) ≡ up e log
up-probed_log e coa i a zero seq log quiet still = refl
up-probed_log e coa i a (suc k) seq log quiet still =
    up-probed_log e coa i a k (seq + 1) (sendbu coa (seq % 2 ^ 16) ∷ nat_probe_send i a ∷ log) quiet
      still
    ∙ rw (up, quiet (seq % 2 ^ 16), still) refl

module _ (env : Env) (coa : In6Addr) (n : Node) where
  abbrev pub told : Node
  told = record n {
    bu_seq = n.bu_seq + bu_count n;
    last_bu_t = bu_time env coa (bu_count n) n.bu_seq n.log n.last_bu_t;
    log = bu_log coa (bu_count n) n.bu_seq n.log;
    consecutive_bu = 0;
  }

  pub tell_lem : tell env coa n ≡ told
  unfolding tell
  tell_lem =
      ap (λ (m : Node). record m { consecutive_bu = 0 }) (send_bus_lem env coa (bu_count n) n)

module _ (env : Env) (coa : In6Addr) (i a : ℕ) (n : Node) where
  abbrev pub told_probed : Node
  told_probed = record n {
    bu_seq = n.bu_seq + bu_count n;
    last_bu_t = probed_time env coa i a (bu_count n) n.bu_seq n.log n.last_bu_t;
    log = probed_log coa i a (bu_count n) n.bu_seq n.log;
    consecutive_bu = 0;
  }

  pub tell_probed_lem : tell_probed env coa i a n ≡ told_probed
  unfolding tell_probed
  tell_probed_lem =
      ap (λ (m : Node). record m { consecutive_bu = 0 })
        (send_probed_bus_lem env coa i a (bu_count n) n)
