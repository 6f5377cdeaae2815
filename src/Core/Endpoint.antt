-- ===== src/Core/Endpoint.antt =====
-- bytehub_core/src/endpoint.rs: addresses. The bytes of an address or of a name, and the port.
use bytehub.Prelude.{ℕ, List, ◌++◌, ◌∷◌}
use bytehub.Lb.IpHash.{decimal}

pub data RemoteAddr : Type 0 where
  socket_addr domain_name : List ℕ → ℕ → RemoteAddr

-- `show` is how the standard library shows an address.
unfoldable pub display : (List ℕ → ℕ → List ℕ) → RemoteAddr → List ℕ
display show (socket_addr ip port) = show ip port
display show (domain_name host port) = host ++ b':' ∷ decimal port
