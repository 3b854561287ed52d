-- ===== src/Daemon/Detect.antt =====
-- A round of `bmisscntDetect` of cngictrl/cngictrl.c, the thread that watches for missed beacons and goes over to
-- the other network. A round runs without the main thread between; readings of the counter are below 2^31.
pub mod Moves
use dsmip.Common.{
  ℕ, zero, suc, ◌+◌, ℤ, pos, negsuc, ◌==ℤ◌, Bool, true, false, not, ◌&&◌, List, [], ◌∷◌, Option,
  none, some, ◌==◌, leb, if◌then◌else◌,
}
use dsmip.Daemon.Text.{
  Text, codes, newline, ◌>>=◌, strstr, has, strchr, getnumfromstr, break_at, is_newline, after,
  read_lines,
}
use dsmip.Daemon.State.{list_network, status, select_network, Env, Daemon, note, getcmd_result}
use dsmip.Daemon.Ipfix.{ipfix_mnoff}
use dsmip.Daemon.Settings.{is_pinned}

-- The thread's own variables; `waits` says that ten seconds are waited instead of `bmissintvl`.
pub record Detector : Type 0 where
  pub flag : ℕ
  pub bmisscntnew : ℕ
  pub waits : Bool

-- A line of `list_network`: its number, and whether it is marked as the current one.
pub record Network : Type 0 where
  pub id : ℤ
  pub is_current : Bool

unfoldable pub read_network : Text → Option Network
read_network t = getnumfromstr t >>= λ n.
    some (record { id = n; is_current = has (break_at is_newline t).0 (codes "[CURRENT]") })

-- The lines after the first one.
unfoldable pub networks : Text → Option (List Network)
unfolding read_network
networks t = strchr t newline >>= λ p. read_lines read_network true (after 1 (some p))

-- The first line that is marked, else the number in the answer to `status`.
unfoldable pub marked : List Network → Option ℤ
marked [] = none
marked (n ∷ ns) = if n.is_current then some n.id else marked ns

unfoldable pub status_network : Env → Daemon → Option (ℤ × Daemon)
status_network env d = getcmd_result env status d >>= λ r.
    strstr r.0 (codes "\nid=") >>= λ p. getnumfromstr (after 4 (some p)) >>= λ id. some (id, r.1)

unfoldable pub current_network : Env → Option ℤ → Daemon → Option (ℤ × Daemon)
current_network env (some id) d = some (id, d)
current_network env none d = status_network env d

-- `nextworkid`, over `int ids[IDNUMS]`: more lines are written past it, and an entry that no line has set is
-- not to be read.
unfoldable pub nextworkid : ℤ → List Network → Option ℤ
nextworkid current (a ∷ b ∷ []) = some (if a.id ==ℤ current then b.id else a.id)
nextworkid current (a ∷ []) = if a.id ==ℤ current then none else some a.id
nextworkid current _ = none

unfoldable pub go_to : Env → ℤ → Daemon → Option Daemon
unfolding is_pinned note
go_to env id d =
    let e : Daemon = record d { newid = id } in
    if is_pinned e
    then some e
    else let f : Daemon = note (select_network true id) e in
      if f.mnswitch then some f else ipfix_mnoff env f

-- The array `ids` is filled before it is known which network is current.
unfoldable pub leave_network : Env → Daemon → Option Daemon
unfolding nextworkid
leave_network env d = getcmd_result env list_network d >>= λ r. networks r.0 >>= λ ns.
    current_network env (marked ns) r.1 >>= λ c. nextworkid c.0 ns >>= λ id. go_to env id c.1

-- A reading of the driver's counter, or none if `ioctl` fails; `flag` is 2 after such a failure, 0 where the next
-- reading is the first one, else 1.
unfoldable pub detect_round : Env → Option ℕ → Detector → Daemon → Option (Detector × Daemon)
detect_round env none t d = some (record t { flag = 2; waits = false }, d)
detect_round env (some v) t d =
    if not (t.flag == 1)
    then some (record { flag = 1; bmisscntnew = v; waits = false }, d)
    else if leb (t.bmisscntnew + d.bmisscnt) v
    then (leave_network env d >>= λ e. some (record { flag = 0; bmisscntnew = v; waits = true }, e))
    else some (record t { bmisscntnew = v; waits = false }, d)
