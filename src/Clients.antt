-- ===== src/Clients.antt =====
-- pkg/grpc/clients.go: one gRPC client for each service, however many goroutines ask.
pub mod Sharing
use ework_runner.Prelude.{ℕ, suc, String, ◌==ˢ◌, Option, none, some, List, [], ◌∷◌}
use ework_runner.Prelude.Table.{get, put}
use ework_runner.Action.{Result, ok, panic}

-- The map of the clients; its calls are atomic.
abbrev pub ClientMap : Type 0 → Type 0
ClientMap T = List (String × T)

-- What a goroutine inside Get does next: it looks the client up, or hands in one that it made
-- because it had found none.
pub data Access (T : Type 0) : Type 0 where
  loads : String → Access T
  stores : String → T → Access T

module _ {T : Type 0} where
  abbrev pub load : String → ClientMap T → Option T
  load service_name m = get ◌==ˢ◌ service_name m

  -- The client that is in the map afterwards.
  abbrev pub stored : String → T → Option T → ClientMap T → T × ClientMap T
  stored service_name new_client (some client) m = (client, m)
  stored service_name new_client none m = (new_client, put ◌==ˢ◌ service_name new_client m)

  unfoldable pub load_or_store : String → T → ClientMap T → T × ClientMap T
  load_or_store service_name new_client m = stored service_name new_client (load service_name m) m

  -- Get on its own: `connect` is grpc.NewClient with the creator, and a failure of it a panic.
  abbrev pub connected : String → Option T → ClientMap T → Result T × ClientMap T
  connected service_name none m = (panic, m)
  connected service_name (some new_client) m =
      let (client, m') = load_or_store service_name new_client m in (ok client, m')

  abbrev pub or_connect :
      (String → Option T) → String → Option T → ClientMap T → Result T × ClientMap T
  or_connect connect service_name (some client) m = (ok client, m)
  or_connect connect service_name none m = connected service_name (connect service_name) m

  unfoldable pub get_client : (String → Option T) → String → ClientMap T → Result T × ClientMap T
  get_client connect service_name m = or_connect connect service_name (load service_name m) m

  -- The client that Get returns by the access, if it returns by it.
  unfoldable pub answer : Access T → ClientMap T → Option T
  answer (loads service_name) m = load service_name m
  answer (stores service_name c) m = some (load_or_store service_name c m).0

  unfoldable pub access : Access T → ClientMap T → ClientMap T
  access (loads service_name) m = m
  access (stores service_name c) m = (load_or_store service_name c m).1

  unfoldable pub access_all : List (Access T) → ClientMap T → ClientMap T
  access_all [] m = m
  access_all (a ∷ as_) m = access_all as_ (access a m)

  abbrev pub service_of : Access T → String
  service_of (loads service_name) = service_name
  service_of (stores service_name c) = service_name
