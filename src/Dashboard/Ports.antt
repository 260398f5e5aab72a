-- ===== src/Dashboard/Ports.antt =====
-- The listening ports that the dashboard shows (gosrc/api/server.go: getServerListeningPorts,
-- getProcessListeningPorts). What gopsutil returns is an argument, `none` with an error.
use cicd.Prelude.{
  ℕ, ◌≡◌, Bool, false, not, ◌&&◌, ◌||◌, Option, none, some, List, [], ◌∷◌, arith, Text, codes, same,
  count, ◌==◌, if◌then◌else◌,
}

pub record Connection : Type 0 where
  pub status : Text
  pub pid : ℕ
  pub port : ℕ  -- of the local address

abbrev pub listens : Connection → Bool
listens c = same c.status (codes "LISTEN")

unfoldable pub seen : ℕ → List ℕ → Bool
seen p [] = false
seen p (q ∷ qs) = p == q || seen p qs

-- The loop, for the ports that were seen.
unfoldable pub new_ports : List ℕ → List Connection → List ℕ
unfolding seen
new_ports ports [] = []
new_ports ports (c ∷ cs) =
    let fresh : Bool = listens c && not (seen c.port ports) in
    let rest = new_ports (if fresh then c.port ∷ ports else ports) cs in
    if fresh then c.port ∷ rest else rest

-- `getServerListeningPorts`
unfoldable pub get_server_listening_ports : Option (List Connection) → List ℕ
unfolding new_ports
get_server_listening_ports none = []
get_server_listening_ports (some conns) = new_ports [] conns

abbrev ports_of : (Connection → Bool) → List Connection → List ℕ
ports_of p [] = []
ports_of p (c ∷ cs) = if p c then c.port ∷ ports_of p cs else ports_of p cs

abbrev of_all : ℕ → Option (List Connection) → List ℕ
of_all pid none = []
of_all pid (some conns) = ports_of (λ c. listens c && c.pid == pid) conns

abbrev ports_of_process : ℕ → Option (List Connection) → Option (List Connection) → List ℕ
ports_of_process pid none all = of_all pid all
ports_of_process pid (some conns) all = ports_of listens conns

-- `getProcessListeningPorts`, for whether the process is there, its connections and those of all.
unfoldable pub get_process_listening_ports :
    ℕ → Bool → Option (List Connection) → Option (List Connection) → List ℕ
get_process_listening_ports pid there own all = if there then ports_of_process pid own all else []

-- Whether a connection listens on the port.
unfoldable pub listened : ℕ → List Connection → Bool
listened p [] = false
listened p (c ∷ cs) = (listens c && c.port == p) || listened p cs

new_ports-count :
    (p : ℕ) (ports : List ℕ) (cs : List Connection)
    → count (λ q. q == p) (new_ports ports cs)
      ≡ (if seen p ports then 0 else if listened p cs then 1 else 0)
unfolding count new_ports seen listened
new_ports-count p ports [] = ground arith
new_ports-count p ports (c ∷ cs) =
    ground (arith, new_ports-count p (c.port ∷ ports) cs, new_ports-count p ports cs)

-- Each port that somebody listens on stands in the list exactly once, and no other port.
pub listening_ports-count :
    (p : ℕ) (conns : List Connection)
    → count (λ q. q == p) (get_server_listening_ports (some conns))
      ≡ (if listened p conns then 1 else 0)
unfolding get_server_listening_ports seen
listening_ports-count p conns = new_ports-count p [] conns
