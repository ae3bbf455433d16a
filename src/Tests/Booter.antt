-- ===== src/Tests/Booter.antt =====
-- The configuration of the program at concrete inputs.
use cable.Prelude.{◌≡◌, ◌↔◌, true, false, [], ◌∷◌, none, some}
use cable.Prelude.Words.{pos}
use cable.Booter.Auth.{AuthConfig, Services}
use cable.Booter.Auth
use cable.Booter.Messages.{Route}
use cable.Booter.Messages
use cable.Booter.Config
use cable.Booter.Config.{Config, validate}
use cable.Booter.Config.Requirements.{IsValid}
use cable.Booter.Config.Valid.{validate-IsValid}
use cable.Booter.Config.Load.{Host}

-- A configuration with one listener, whose peer port is 7000.
abbrev pub sample : Config
sample = record {
  auth = record {
    method = Auth.Method.pass;
    secret = [];
    auth_url = [];
    auth_prefix = [];
    join_prefix = [];
  };
  node_id = 5;
  grpc_port = 1883;
  http_port = 8080;
  peer_port = 7000;
  cluster_size = pos 1;
  trace = record { enabled = false; otlp_endpoint = [] };
  logger = record {
    level = Config.Level.level_info;
    format = Config.Format.json;
    otlp_endpoint = [];
  };
  metrics = record { enabled = false; tenant_id = []; interval = pos 0; otlp_endpoint = [] };
  kafka = record { enabled = false; brokers = [] };
  redis = record { enabled = false; addresses = [] };
  discovery = record { discovery_type = Config.DiscoveryType.multicast; endpoints = [] };
  message_route = some (
      (
        1,
        record {
          enabled = true;
          resend_type = Messages.ResendType.resend_to_all;
          kafka_topic = [];
        },
      )
      ∷ []);
  listeners =
      record {
        port = 9999;
        network = Config.Network.tcp;
        queue_size = pos 1024;
        auto_start = true;
        tls = none;
      }
      ∷ [];
}

validate-IsValid_example : (validate sample ≡ none) ↔ IsValid sample
validate-IsValid_example = validate-IsValid sample

abbrev host : Host
host = record {
  read_file = λ path. some path;
  unmarshal_yaml = λ bytes. some sample;
  hostname = none;
  parse_uint = λ bytes. none;
  rand_uint64 = 1;
  local_ip = some (10 ∷ []);
}
