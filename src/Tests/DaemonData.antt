-- ===== src/Tests/DaemonData.antt =====
-- What the commands of the control daemon cngictrl print in the samples.
use dsmip.Common.{true, []}
use dsmip.Daemon.Text.{Text, codes}
use dsmip.Daemon.State.{ipv4, Query, lsmod, ps_mn, ip_rule, list_network, Env}

-- What the commands print: a mobile node runs, with the number 812, and there are two networks.
abbrev pub says : Query → Text
says lsmod = codes "ar6000 1\n"
says ps_mn = codes "PID NAME\n812 mn\n"
says (ip_rule ipv4) = codes "0:\tfrom all lookup local\n200:\tfrom all lookup 252\n32766:\tmain\n"
says list_network = codes "network id / ssid\n0\thub\tany\t[CURRENT]\n1\that\tany\t\n"
says _ = []

abbrev pub shell : Env
shell = record { output = λ calls q. says q; is_written = λ calls. true }
