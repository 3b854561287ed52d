-- ===== src/Daemon/Words.antt =====
-- The words at which the loop of `main` of cngictrl/cngictrl.c tells its commands apart, in their order.
pub mod Longest
use dsmip.Common.{ℕ, Bool, true, false, List, [], ◌∷◌, Option, none, some, if◌then◌else◌}
use dsmip.Daemon.Text.{Text, codes, begins}

pub data Word : Type 0 where
  wifi rmnet mn ping rule staticip apssid ipfixway setbmisscnt setbmissintvl to list scan
        wpa_cli_shell wpa_cli show setbmissbeacons wmiconfig logcat catproc lscoa handoff ap
        automatic quit link help flowhf cleanxfrm :
      Word

unfoldable pub words : List (Text × Word)
words =
    (codes "wifi", wifi)
    ∷ (codes "rmnet", rmnet)
    ∷ (codes "mn", mn)
    ∷ (codes "ping", ping)
    ∷ (codes "rule", rule)
    ∷ (codes "staticip", staticip)
    ∷ (codes "apssid", apssid)
    ∷ (codes "ipfixway", ipfixway)
    ∷ (codes "setbmisscnt", setbmisscnt)
    ∷ (codes "setbmissintvl", setbmissintvl)
    ∷ (codes "to", to)
    ∷ (codes "list", list)
    ∷ (codes "scan", scan)
    ∷ (codes "wpa_cli_shell", wpa_cli_shell)
    ∷ (codes "wpa_cli", wpa_cli)
    ∷ (codes "show", show)
    ∷ (codes "setbmissbeacons", setbmissbeacons)
    ∷ (codes "wmiconfig", wmiconfig)
    ∷ (codes "logcat", logcat)
    ∷ (codes "catproc", catproc)
    ∷ (codes "lscoa", lscoa)
    ∷ (codes "handoff", handoff)
    ∷ (codes "ap", ap)
    ∷ (codes "auto", automatic)
    ∷ (codes "quit", quit)
    ∷ (codes "link", link)
    ∷ (codes "help", help)
    ∷ (codes "flowhf", flowhf)
    ∷ (codes "cleanxfrm", cleanxfrm)
    ∷ []

-- The tests are made one after the other; the result has the length of the word.
unfoldable pub find_word : Text → List (Text × Word) → Option (Text × Word)
unfolding begins
find_word line [] = none
find_word line (w ∷ ws) = if begins line w.0 then some w else find_word line ws
