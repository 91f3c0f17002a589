-- ===== src/Tests/ServiceCases.antt =====
-- The HTTP API, the model server and the server registry at concrete inputs.
use neura_balancer.Common.{
  ℕ, zero, suc, ℤ, none, Option, ◌-◌, ◌/◌, ◌≡◌, ◌≢◌, refl, true, false, ◌==◌, if◌then◌else◌, some,
  List, [], ◌∷◌, pos, negsuc, pos_part, replicate,
}
use neura_balancer.Common.Text.{Text, codes, text_eq}
use neura_balancer.Common.Text.Numbers.{atoi}
use neura_balancer.Balancer.{LoadBalancer}
use neura_balancer.Balancer.Seed.{seed_server}
use neura_balancer.Database.{Urls, Table, insert_server, upsert_server}
use neura_balancer.Database.Registry.{registry, seed_server-no_port}
use neura_balancer.Ml.Exchange as Fetch
use neura_balancer.ModelServer.{
  Arithmetic, Scaler, Inference, PredictServer, output, ModelServer, Body, request, panicked,
  handle_predict, Startup, started, validate, load_scaler, new_model_server,
}
use neura_balancer.ModelServer.Serving.{handle_predict-calm}
use neura_balancer.ModelServer.Contract.{Wire, received}
use neura_balancer.Tests.Fixtures.{fleet, three, idle}

abbrev balancer : LoadBalancer (Unit {0})
balancer = record { heap = fleet; servers = three; strategy = tt }

-- Natural numbers as floats, and a model that answers 7.
abbrev pub arithmetic : Arithmetic ℕ
arithmetic = record {
  is_zero = λ a. a == 0;
  zero_value = 0;
  sub = λ a b. a - b;
  div = λ a b. a / b;
  of_int = pos_part;
}

abbrev pub six : Scaler ℕ
six = record { mean = replicate 6 0; scale = replicate 6 1 }

abbrev pub seven : List ℕ → Inference ℕ
seven norm = output (7 ∷ [])

abbrev ready : ModelServer ℕ
ready = record { sc = six; session = seven; loaded = true }

abbrev files : Startup ℕ
files = record { files_exist = true; raw_scaler = some (some six); session = some seven }

files_start : new_model_server files ≡ started ready
unfolding new_model_server load_scaler validate
files_start = refl

-- A request as the list of its numbers, with a sign before each integer.
abbrev sign : ℤ → ℕ
sign (pos n) = 0
sign (negsuc n) = 1

abbrev magnitude : ℤ → ℕ
magnitude (pos n) = n
magnitude (negsuc n) = n

abbrev integer : ℕ → ℕ → ℤ
integer zero n = pos n
integer (suc s) n = negsuc n

abbrev numbers_of : List (Fetch.ServerFeatures ℕ) → Text
numbers_of [] = []
numbers_of (f ∷ fs) =
    sign f.server_id
    ∷ magnitude f.server_id
    ∷ f.cpu_usage
    ∷ f.memory_usage
    ∷ f.active_conns
    ∷ f.error_rate
    ∷ f.response_p95
    ∷ sign f.weight
    ∷ magnitude f.weight
    ∷ sign f.capacity
    ∷ magnitude f.capacity
    ∷ numbers_of fs

abbrev add_server :
    PredictServer ℕ → Option (List (PredictServer ℕ)) → Option (List (PredictServer ℕ))
add_server srv none = none
add_server srv (some srvs) = some (srv ∷ srvs)

abbrev servers_of : Text → Option (List (PredictServer ℕ))
servers_of [] = some []
servers_of (a ∷ b ∷ c ∷ d ∷ e ∷ f ∷ g ∷ h ∷ i ∷ j ∷ k ∷ cs) =
    add_server
      (record {
        server_id = integer a b;
        cpu_usage = c;
        memory_usage = d;
        active_conns = pos e;
        error_rate = f;
        response_p95 = g;
        weight = integer h i;
        capacity = integer j k;
      })
      (servers_of cs)
servers_of cs = none

abbrev pub wire : Wire ℕ ℕ
wire = record {
  encode = λ req. some (numbers_of req.servers);
  decode = servers_of;
  transfer = some;
}

abbrev got : Fetch.ServerFeatures ℕ → PredictServer ℕ
got = received arithmetic (λ a. a) wire

abbrev pub body : Body ℕ
body = request (got (Fetch.features_of fleet idle 0) ∷ [])

handle_predict-calm_example : handle_predict arithmetic (some ready) body ≢ panicked
handle_predict-calm_example = handle_predict-calm arithmetic files body files_start

abbrev AnyNumber : ℕ → Type 0
AnyNumber f = Unit

-- One host with a port and without, and integers read as `Atoi` reads them.
abbrev urls : Urls
urls = record {
  parse_url = λ url.
      if text_eq url (codes "http://a:81")
      then some (codes "a", codes "81")
      else some (codes "a", []);
  read_integer = atoi;
}

abbrev empty : Table
empty = record { rows = []; next_id = 1 }

seed_server-no_port_example :
    (upsert_server urls empty (codes "http://a")
      ≡ (insert_server empty (codes "http://a") (codes "a") (pos 80), false))
    × ((seed_server
          (registry urls)
          (upsert_server urls empty (codes "http://a")).0
          0
          (codes "http://a")).id
        ≡ negsuc 0)
    × ((seed_server
          (registry urls)
          (upsert_server urls empty (codes "http://a")).0
          0
          (codes "http://a")).weight
        ≡ pos 1)
    × ((seed_server
          (registry urls)
          (upsert_server urls empty (codes "http://a")).0
          0
          (codes "http://a")).capacity
        ≡ pos 10)
unfolding text_eq atoi
seed_server-no_port_example =
    seed_server-no_port urls empty 0 (codes "http://a") (codes "a") refl refl
