-- ===== src/Tests/Discovery.antt =====
-- A host that answers twice, one that only the ARP table has, and a known server.
use rustmote.Prelude.{◌≡◌, refl, [], ◌∷◌, List, none, some, true, false}
use rustmote.Text.{Text, str}
use rustmote.Net.{IpAddr, v4, ip_eq, ip_lt}
use rustmote.Discovery.{MdnsFinding, upsert, upsert_all, merge_results}
use rustmote.Discovery.Ordered.{IsOrdered, host_at}
use rustmote.Discovery.Said.{said_of}
use rustmote.Discovery.Merged.{told, merge_results-told}

abbrev known : List IpAddr
known = v4 3 ∷ []

abbrev names : List MdnsFinding
names =
    record { ip = v4 9; hostname = none } ∷ record { ip = v4 9; hostname = some (str "voron") } ∷ []

abbrev table : List (IpAddr × Text)
table = (v4 9, str "aa:bb:cc:dd:ee:ff") ∷ (v4 3, str "00:11:22:33:44:55") ∷ []

merged :
    merge_results known names (v4 3 ∷ []) table
    ≡ record {
      ip = v4 3;
      hostname = none;
      mac = some (str "00:11:22:33:44:55");
      is_known_server = true;
    }
      ∷ record {
        ip = v4 9;
        hostname = some (str "voron");
        mac = some (str "aa:bb:cc:dd:ee:ff");
        is_known_server = false;
      }
      ∷ []
unfolding merge_results upsert_all upsert ip_eq ip_lt
merged = refl

merge_results-told_example :
    IsOrdered (merge_results known names (v4 3 ∷ []) table)
    × ((ip : IpAddr)
        → host_at ip (merge_results known names (v4 3 ∷ []) table)
          ≡ told known ip (said_of ip names (v4 3 ∷ []) table))
merge_results-told_example = merge_results-told known names (v4 3 ∷ []) table
