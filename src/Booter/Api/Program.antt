-- ===== src/Booter/Api/Program.antt =====
-- The calls that cmd/cable/api_http.go and cmd/cable/api_grpc.go make, over the booter of cmd/cable/booter.go,
-- its broker and the broker's raft node. `Inspects` and `StopListener` are parameters.
use cable.Prelude.{Bool, List, Option, ◌⊎◌, inl, inr}
use cable.Errors.{Error, Result, ok, err}
use cable.GoMap.{Bytes}
use cable.Network.Conn.{Waits}
use cable.Server.Table.{Handlers}
use cable.Cluster.Node
use cable.Cluster.Node.{Node, RaftLibrary}
use cable.Broker.Peers.{Grpc}
use cable.Broker.Routes
use cable.Broker.Routes.{Program}
use cable.Broker.Users
use cable.Booter.Auth
use cable.Booter.Auth.{AuthConfig, Services}
use cable.Booter.Messages
use cable.Booter.Messages.{Booter}
use cable.Booter.Api.{Users, Backend}

pub record Running (S X W R C : Type 0) : Type 0 where
  pub booter : Booter S X
  pub world : W
  pub node : Node R C

unfoldable pub users : Error ⊎ Users → Result Users
users (inl e) = err e
users (inr u) = ok u

module _ {S X W R C St : Type 0} (g : Grpc S) (h : Bytes → Handlers S) (waits : Waits Bytes)
    (p : Program X) (lib : RaftLibrary R C) (s : Services W) (c : AuthConfig) (client : Bool)
    (inspect : Running S X W R C → Result (List St) × Running S X W R C)
    (stop : Bytes → Running S X W R C → Option Error × Running S X W R C) where
  unfoldable pub with_broker :
      {A : Type 0}
      → (Routes.Broker S X → A × Routes.Broker S X)
      → Running S X W R C
      → A × Running S X W R C
  with_broker f r =
      let (a, b) = f r.booter.broker in (a, record r { booter = record (r.booter) { broker = b } })

  unfoldable pub with_booter :
      {A : Type 0} → (Booter S X → A × Booter S X) → Running S X W R C → A × Running S X W R C
  with_booter f r = let (a, b) = f r.booter in (a, record r { booter = b })

  unfoldable pub with_redis :
      {A : Type 0}
      → (W → Booter S X → A × W × Booter S X)
      → Running S X W R C
      → A × Running S X W R C
  with_redis f r = let (a, w, b) = f r.world r.booter in (a, record r { booter = b; world = w })

  unfoldable pub program_backend : Backend (Running S X W R C) St
  program_backend = record {
    is_ready = λ r. r.node.ready;
    inspects = inspect;
    is_online = λ uid. with_broker (Routes.is_online g uid);
    kick_user = λ uid r. record r {
      booter = record (r.booter) { broker = Users.kick_user g h waits uid r.booter.broker };
    };
    kick_broker = λ id r. let (e, n) = Node.kick_broker lib id r.node in (e, record r { node = n });
    send_to_all = λ m. with_booter (Messages.send_to_all g waits m);
    send_to_user = λ uid m. with_booter (Messages.send_to_user g waits uid m);
    send_to_channel = λ channel m. with_booter (Messages.send_to_channel g waits channel m);
    join_channel = λ uid channels. with_redis (Messages.join_channel s p c client uid channels);
    leave_channel = λ uid channels. with_redis (Messages.leave_channel s p c client uid channels);
    list_channels = λ uid r.
        let (a, w) = Auth.list_channels s c client uid r.world in (a, record r { world = w });
    list_users = λ id r. (users (Routes.list_users id r.booter.broker), r);
    start_listener = λ net. with_broker (Users.start_listener g net);
    stop_listener = stop;
  }
