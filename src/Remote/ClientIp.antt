-- ===== src/Remote/ClientIp.antt =====
-- utils/k8sutil/k8sutil.go: the client address of a node by its host address, and back.
use polar_db_stack_common.Common.{
  ◌≡◌, ◌≢◌, inl, inr, Bool, not, ◌&&◌, List, [], ◌∷◌, ◌++◌, map, Option, none, some, if◌then◌else◌,
  arith, Bool-cases, All,
}
use polar_db_stack_common.Common.Text.{Text, codes, text_eq, text_eq_iff}
use polar_db_stack_common.Common.Outcome.{Outcome, ok, err}

pub record NodeClientIp : Type 0 where
  pub client_ip : Text
  pub host_ip : Text

-- Of a node, the addresses by their type, and the conditions by type, status and message.
pub record Node : Type 0 where
  pub addresses : List (Text × Text)
  pub conditions : List (Text × Text × Text)

abbrev empty_text : Text → Bool
empty_text s = text_eq s []

-- The last internal address of the node, over what was found before.
unfoldable pub internal_ip : Text → List (Text × Text) → Text
internal_ip found [] = found
internal_ip found ((kind, address) ∷ rest) =
    internal_ip (if text_eq kind (codes "InternalIP") then address else found) rest

-- The last condition that gives a client address.
unfoldable pub condition_ip : Text → List (Text × Text × Text) → Text
condition_ip found [] = found
condition_ip found ((kind, status, message) ∷ rest) =
    condition_ip
      (if text_eq kind (codes "NodeClientIP")
          && (text_eq status (codes "True") && not (text_eq message (codes "0.0.0.0")))
        then message
        else found)
      rest

abbrev pub node_client_ip : Node → NodeClientIp
node_client_ip node = record {
  client_ip = condition_ip [] node.conditions;
  host_ip = internal_ip [] node.addresses;
}

abbrev listed : Outcome Text (List Node) → Outcome Text (List NodeClientIp)
listed (err e) = err e
listed (ok nodes) = ok (map node_client_ip nodes)

abbrev cached_or :
    Option (List NodeClientIp) → Outcome Text (List NodeClientIp) → Outcome Text (List NodeClientIp)
cached_or none from_nodes = from_nodes
cached_or (some []) from_nodes = from_nodes
cached_or (some (ip ∷ ips)) from_nodes = ok (ip ∷ ips)

-- `GetNodeClientIPList` by what the cache holds and what the API server answers.
unfoldable pub get_node_client_ip_list :
    Option (List NodeClientIp) → Outcome Text (List Node) → Outcome Text (List NodeClientIp)
get_node_client_ip_list cached nodes = cached_or cached (listed nodes)

-- The loop of `GetClientIP`.
unfoldable pub find_client_ip : Text → List NodeClientIp → Outcome Text Text
find_client_ip host [] = err (codes "[" ++ (host ++ codes "] client ip not found."))
find_client_ip host (ip ∷ ips) =
    if text_eq ip.host_ip host && not (empty_text ip.client_ip)
    then ok ip.client_ip
    else find_client_ip host ips

-- The loop of `GetHostIP`.
unfoldable pub find_host_ip : Text → List NodeClientIp → Outcome Text Text
find_host_ip client [] = err (codes "[" ++ (client ++ codes "] host ip not found."))
find_host_ip client (ip ∷ ips) =
    if text_eq ip.client_ip client && not (empty_text ip.host_ip)
    then ok ip.host_ip
    else find_host_ip client ips

-- GetHostIP takes the address that GetClientIP gives for a host back to the host, where no node with
-- another host address has the same client address, and the host's address is not empty.
pub find_host_ip-find_client_ip :
    (host client : Text) (ips : List NodeClientIp)
    → host ≢ []
    → All (λ ip. ip.client_ip ≡ client → ip.host_ip ≡ host) ips
    → find_client_ip host ips ≡ ok client
    → find_host_ip client ips ≡ ok host
unfolding find_client_ip find_host_ip
find_host_ip-find_client_ip host client [] named unique e = cc
find_host_ip-find_client_ip host client (ip ∷ ips) named unique e =
    let client_eq = text_eq_iff ip.client_ip client in
    let host_eq = text_eq_iff ip.host_ip host in
    let no_host = text_eq_iff ip.host_ip [] in
    let rest = find_host_ip-find_client_ip host client ips named unique.1 in
    elim (Bool-cases (text_eq ip.client_ip client)) [
      | inl h ↦
          let same : ip.host_ip ≡ host = unique.0 (client_eq.0 h) in
          ground (arith, h, same, no_host)
      | inr h ↦ elim (Bool-cases (text_eq ip.host_ip host && not (empty_text ip.client_ip))) [
        | inl k ↦ absurd (ground (arith, client_eq, h, k))
        | inr k ↦ ground (arith, rest, h, k)
      ]
    ]
