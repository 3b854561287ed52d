-- ===== src/Mobility/Options.antt =====
-- The numbers of mobility options in common.h, and the lengths that ha.c demands.
use dsmip.Common.{ℕ, Bool, true, ◌==◌, if◌then◌else◌}

abbrev pub pad1 : ℕ
pad1 = 0x00

abbrev pub padn : ℕ
padn = 0x01

abbrev pub brefresh : ℕ
brefresh = 0x02

abbrev pub altcoa : ℕ
altcoa = 0x03

abbrev pub nonceid : ℕ
nonceid = 0x04

abbrev pub bauth : ℕ
bauth = 0x05

abbrev pub mob_net_prfx : ℕ
mob_net_prfx = 0x06

abbrev pub ipv4hoa : ℕ
ipv4hoa = 0x15

abbrev pub ipv4coa : ℕ
ipv4coa = 0x16

abbrev pub ipv4ack : ℕ
ipv4ack = 0x17

abbrev pub nat : ℕ
nat = 0x18

-- `IP6_MHOPT_MAX`
abbrev pub mhopt_max : ℕ
mhopt_max = nat

-- True where the function returns 0. The numbers are the sizes of the packed structs.
unfoldable pub mh_opt_len_ok : ℕ → ℕ → Bool
mh_opt_len_ok type len =
    if type == brefresh
    then len == 4
    else if type == altcoa
    then len == 18
    else if type == nonceid
    then len == 6
    else if type == bauth
    then len == 14
    else if type == mob_net_prfx
    then len == 20
    else if type == ipv4hoa
    then len == 8
    else if type == ipv4coa
    then len == 8
    else if type == ipv4ack
    then len == 8
    else if type == nat
    then len == 8
    else true
