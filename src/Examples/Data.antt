-- ===== src/Examples/Data.antt =====
-- The inputs of the examples: a reservation of one volume, an environment that knows it, and a
-- payment for it.
use tfexplorer.Base.{ℕ, ◌+◌, ◌*◌, ◌≡◌, ◌≢◌, Bool, true, false, none, some, List, [], ◌∷◌}
use tfexplorer.Base.Text.{Text, codes}
use tfexplorer.Models.Workloads.{
  NextAction, ssd, SigningRequest, SigningSignature, Volume, ReservationData, Reservation,
}
use tfexplorer.Escrow.Types.{ReservationPaymentInformation}
use tfexplorer.Escrow.Resources.{Floats}
use tfexplorer.Stellar.Asset.{tft_testnet}
use tfexplorer.Models.Directory.{Location, Farm}
use tfexplorer.Models.Phonebook.{User}
use tfexplorer.World.{Env, World, Write}

abbrev pub node : Text
node = codes "n1"

-- User 7 has to sign.
abbrev pub request : SigningRequest
request = record { signers = 7 ∷ []; quorum_min = 1 }

abbrev pub signature : SigningSignature
signature = record { tid = 7; signature = codes "ab"; epoch = 0 }

abbrev pub disk : Volume
disk = record {
  workload_id = 1;
  node_id = node;
  size = 10;
  kind = ssd;
  stats_aggregator = [];
  farmer_tid = 1;
}

abbrev pub data_of : ℕ → ReservationData
data_of expiration = record {
  description = [];
  currencies = codes "TFT" ∷ [];
  signing_request_provision = request;
  signing_request_delete = request;
  containers = [];
  volumes = disk ∷ [];
  zdbs = [];
  networks = [];
  kubernetes = [];
  proxies = [];
  reserve_proxy = [];
  subdomains = [];
  domain_delegates = [];
  gateway4_to6s = [];
  expiration_provisioning = 1000;
  expiration_reservation = expiration;
}

-- A reservation with an action and signatures for its provisioning.
abbrev pub reservation : NextAction → List SigningSignature → Reservation
reservation action signatures = record {
  id = 12;
  json = codes "{}";
  data_reservation = data_of 2000;
  customer_tid = 7;
  customer_signature = codes "ab";
  next_action = action;
  signatures_provision = signatures;
  signatures_farmer = [];
  signatures_delete = [];
  epoch = 0;
  metadata = [];
  results = [];
}

abbrev pub no_writes : World
no_writes = record { writes = []; reads = 0 }

abbrev pub payment : Bool → ReservationPaymentInformation
payment released = record {
  reservation_id = 12;
  address = codes "C";
  expiration = 1000;
  asset = tft_testnet;
  infos = record { farmer_id = 1; total_amount = 1000 } ∷ [];
  paid = false;
  released = released;
  canceled = false;
}

abbrev pub user : User
user = record {
  id = 7;
  name = codes "bob";
  email = codes "bob@x";
  pubkey = codes "00";
  host = [];
  description = [];
  signature = [];
}

abbrev pub nowhere : Location
nowhere = record { city = []; country = []; continent = []; latitude = 0; longitude = 0 }

abbrev pub farm : Farm
farm = record {
  id = 1;
  threebot_id = 7;
  iyo_organization = [];
  name = codes "f";
  wallet_addresses = record { asset = codes "TFT"; address = codes "A" } ∷ [];
  location = nowhere;
  email = [];
  resource_prices = [];
  prefix_zero = record { ip = []; mask = [] };
}

-- A test network at time 5, where every write succeeds and every signature is valid.
abbrev pub env_of : Reservation → Bool → Env
env_of r released = record {
  network = codes "testnet";
  foundation_address = codes "F";
  now = λ w. 5;
  write_ok = λ w c. true;
  find_reservation = λ w id. some r;
  list_reservations = λ w from node. some (some r ∷ []);
  list_page = λ w keys pager. some (some r ∷ []);
  count_reservations = λ w keys. some 1;
  queued = λ w node. some [];
  next_id = λ w. some 12;
  last_id = λ w. some 12;
  find_user = λ w id. some user;
  count_free_nodes = λ w ids. some 0;
  count_free_gateways = λ w ids. some 0;
  farms_for_nodes = λ w ids. some [];
  address_valid = λ w network asset address. true;
  verify = λ key message sig. true;
  registered = λ w. none;
  find_payment_info = λ w id. some (payment released);
  active_payment_infos = λ w now. some (payment released ∷ []);
  expired_payment_infos = λ w now. some [];
  balance = λ w address id asset. some 1000;
  find_node_farm = λ w id. some 1;
  find_farm = λ w id. some farm;
  find_address =
      λ w id. some (some (record { customer_tid = 7; address = codes "C"; secret = codes "S" }));
  find_address_by_address =
      λ w address. some (record { customer_tid = 7; address = address; secret = codes "S" });
  new_account = λ w. none;
}

-- Numbers in place of floating point.
abbrev pub whole_floats : Floats
whole_floats = record {
  Float = ℕ;
  decimal = λ m k. m;
  of_int = λ n. n;
  plus = λ a b. a + b;
  times = λ a b. a * b;
  divide = λ a b. a;
  smaller = λ a b. a;
  round = λ a. a;
  ceil = λ a. a;
  hours = λ d. 1;
  BigFloat = ℕ;
  big = λ a. a;
  big_plus = λ a b. a + b;
  big_times = λ a b. a * b;
  parse_amount = λ a. some a;
}

pub cons≢nil : (ws : List Write) {c : Write} {cs : List Write} → ws ≡ c ∷ cs → ws ≢ []
cons≢nil ws h e = cc
