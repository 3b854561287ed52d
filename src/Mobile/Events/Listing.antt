-- ===== src/Mobile/Events/Listing.antt =====
-- The length of the text that `ctrl_fd_check` of mn/mn.c answers CTRL_CMD_LSCOA with, built in `char ack[300]`.
use dsmip.Common.{ℕ, zero, suc, ◌+◌, ◌/◌, ◌%◌, ◌^◌, Bool, List, [], ◌∷◌, ltb, ◌==◌, if◌then◌else◌}
use dsmip.Net.{In6Addr}
use dsmip.Mobile.State.{Iface, Env, Node}

-- The digits of a number to a base, of which `more + 1` are enough.
unfoldable pub digits : ℕ → ℕ → ℕ → ℕ
digits base zero n = 1
digits base (suc more) n =
    let rest = digits base more (n / base) in if ltb n base then 1 else suc rest

-- `%d` of an index, which is an `int`
unfoldable pub index_length : ℕ → ℕ
unfolding digits
index_length n = digits 10 9 n

-- `%x` of half a word
unfoldable pub halves_length : ℕ → ℕ
unfolding digits
halves_length w = digits 16 3 (w / 2 ^ 16) + digits 16 3 (w % 2 ^ 16)

-- `%x:%x:%x:%x:%x:%x:%x:%x`
unfoldable pub v6_length : In6Addr → ℕ
unfolding halves_length
v6_length a =
    7 + (halves_length a.w0 + (halves_length a.w1 + (halves_length a.w2 + halves_length a.w3)))

-- `%d.%d.%d.%d`
unfoldable pub v4_length : ℕ → ℕ
unfolding digits
v4_length a =
    3
    + (digits 10 2 (a / 2 ^ 24)
        + (digits 10 2 (a / 2 ^ 16 % 2 ^ 8)
            + (digits 10 2 (a / 2 ^ 8 % 2 ^ 8) + digits 10 2 (a % 2 ^ 8))))

-- What is appended for an entry of `ifaces`: `iface %d(%s):`, and a line for each valid address.
unfoldable pub iface_length : Env → Iface → ℕ
unfolding index_length v6_length v4_length
iface_length env f =
    if f.ifindex == 0
    then 0
    else 10
      + index_length f.ifindex
      + env.name_length f.ifindex
      + (if f.invalidv6 == 0 then 14 + v6_length f.coav6 else 0)
      + (if f.invalidv4 == 0 then 14 + v4_length f.coav4 else 0)

unfoldable pub ifaces_length : Env → List Iface → ℕ
unfolding iface_length
ifaces_length env [] = 0
ifaces_length env (f ∷ fs) = iface_length env f + ifaces_length env fs

-- `preferred_ifindex = %d, current coav6 = …, current coav4=…`, then the interfaces.
unfoldable pub listing_length : Env → Node → ℕ
unfolding ifaces_length index_length v6_length v4_length
listing_length env n =
    55
    + index_length n.preferred_ifindex
    + v6_length n.current_coav6
    + v4_length n.current_coav4
    + ifaces_length env n.ifaces

-- With its end the text is within the array.
unfoldable pub listing_fits : Env → Node → Bool
unfolding listing_length
listing_fits env n = ltb (listing_length env n) 300
