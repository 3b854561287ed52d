-- ===== src/Tests/HaProbe.antt =====
-- The theorems on NAT probes and addresses at sample inputs.
use Prim.Native.Nat.{bit_xor}
use dsmip.Common.{◌≡◌, ◌↔◌, arith, refl, pos_part, true, false, some, none, inl, leb, replicate}
use dsmip.Ha.State.{Mn}
use dsmip.Ha.Special.{count_bits, ip_special}
use dsmip.Ha.Special.Hamming.{hamming, ip_special-eq-hamming}
use dsmip.Ha.Cleanup.{stop_encap_of}
use dsmip.Ha.Binding.Steps.{is_encapsulated}
use dsmip.Ha.Probe.{probe_mn, handle_probe}
use dsmip.Ha.Probe.Encap.{probe_mn-stop_encap_of}
use dsmip.Ha.Probe.Errors.{IsUnknown, handle_probe-none}
use dsmip.Tests.HaData.{cfg, agent, behind_nat, behind_nat-IsValid, probe_here, coav6}

ip_special-eq-hamming_example :
    (count_bits 33 (bit_xor 0x0a15_054a 0x0a15_0536) 0 ≡ some (hamming 32 0x0a15_054a 0x0a15_0536))
    × (ip_special 0x0a15_0536 0x0a15_054a ≡ leb (hamming 32 0x0a15_054a 0x0a15_0536) 3)
ip_special-eq-hamming_example =
    ip_special-eq-hamming 0x0a15_0536 0x0a15_054a (omega arith) (omega arith)

-- Five bits differ.
not_special : ip_special 0x0a15_0536 0x0a15_054a ≡ false
unfolding ip_special count_bits
not_special = refl

probe_mn-stop_encap_of_example :
    let m' = probe_mn 70 probe_here behind_nat.mn in
    (is_encapsulated m' ≡ true)
    × (stop_encap_of cfg m' (pos_part m'.active) ≡ stop_encap_of cfg behind_nat.mn 1)
unfolding is_encapsulated
probe_mn-stop_encap_of_example =
    probe_mn-stop_encap_of cfg 70 probe_here behind_nat.mn behind_nat-IsValid refl
      (inl (λ e. omega arith))

-- In slot 1 with no NAT seen so far.
abbrev plain : Mn
plain = record (behind_nat.mn) { in_nat = replicate 31 0 }

handle_probe-none_example :
    (handle_probe 70 (record probe_here { hoa = coav6 }) agent ≡ none)
    ↔ ((667 ≡ bit_xor (bit_xor 3 2) 666) × IsUnknown coav6 agent.mns)
handle_probe-none_example = handle_probe-none 70 (record probe_here { hoa = coav6 }) agent
