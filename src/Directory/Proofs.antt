-- ===== src/Directory/Proofs.antt =====
-- hashProof and StoreProof of pkg/directory/nodes_store.go.
pub mod Hash
use tfexplorer.Base.{
  ℕ, zero, suc, ◌+◌, ◌-◌, ◌/◌, ◌%◌, Bool, true, false, ◌&&◌, ◌||◌, Option, List, [], ◌∷◌, ◌++◌, map,
  ltb, ◌==◌, length, if◌then◌else◌,
}
use tfexplorer.Base.Text.{Text, codes}
use tfexplorer.Models.Directory.{Proof}
use tfexplorer.Program.{ask_total, ◌>>=◌, ◌>>◌}
use tfexplorer.Directory.Outside.{Env, Exec}
use tfexplorer.Directory.Node.{DirectoryError, node_push_proof}

-- The type kv of hashProof, whose fields are not exported.
pub record Kv : Type 0 where
  pub k : Text
  pub v : Text

-- The order of Go's strings, by bytes.
unfoldable pub text_lt : Text → Text → Bool
text_lt [] [] = false
text_lt [] (b ∷ t) = true
text_lt (a ∷ s) [] = false
text_lt (a ∷ s) (b ∷ t) = let rest = text_lt s t in ltb a b || a == b && rest

unfoldable pub insert_kv : Kv → List Kv → List Kv
insert_kv x [] = x ∷ []
insert_kv x (y ∷ ys) = let rest = insert_kv x ys in if text_lt y.k x.k then y ∷ rest else x ∷ y ∷ ys

-- sort.Slice by the keys.
unfoldable pub sort_kvs : List Kv → List Kv
unfolding insert_kv
sort_kvs [] = []
sort_kvs (x ∷ xs) = insert_kv x (sort_kvs xs)

-- make([]kv, n)
unfoldable pub make_kvs : ℕ → List Kv
make_kvs zero = []
make_kvs (suc n) = record { k = []; v = [] } ∷ make_kvs n

-- json.Marshal of a kv: a struct without exported fields is "{}".
abbrev pub marshal_kv : Kv → Text
marshal_kv x = codes "{}"

unfoldable pub marshal_rest : List Kv → Text
marshal_rest [] = codes "]"
marshal_rest (x ∷ xs) = b',' ∷ (marshal_kv x ++ marshal_rest xs)

-- json.Marshal of a list of kvs.
unfoldable pub marshal_kvs : List Kv → Text
unfolding marshal_rest
marshal_kvs [] = codes "[]"
marshal_kvs (x ∷ xs) = b'[' ∷ (marshal_kv x ++ marshal_rest xs)

abbrev hex_char : ℕ → ℕ
hex_char n = if ltb n 10 then b'0' + n else b'a' + (n - 10)

-- fmt.Sprintf("%x", b)
unfoldable pub format_hex : Text → Text
format_hex [] = []
format_hex (b ∷ s) = hex_char (b / 16) ∷ hex_char (b % 16) ∷ format_hex s

-- md5.New().Sum(nil) in hexadecimal digits: the hash of nothing.
abbrev md5_empty : Text
md5_empty = codes "d41d8cd98f00b204e9800998ecf8427e"

abbrev kv_of : Text × Text → Kv
kv_of e = record { k = e.0; v = e.1 }

-- The list that hashProof sorts: zero values, and then the entries.
unfoldable pub kvs_of : List (Text × Text) → List Kv
unfolding make_kvs
kvs_of p = make_kvs (length p) ++ map kv_of p

-- hashProof of a map with the given entries. h.Sum(b) appends the hash of what was written to `h`,
-- which is nothing, to `b`.
unfoldable pub hash_proof : List (Text × Text) → Text
unfolding sort_kvs marshal_kvs kvs_of
hash_proof p = format_hex (marshal_kvs (sort_kvs (kvs_of p))) ++ md5_empty

-- The parts of a dmi.DMI and of a capacity.Disks that are stored, as JSON texts.
pub record Hardware : Type 0 where
  pub sections : Text
  pub tooling : Text
  pub aggregator : Text
  pub environment : Text
  pub devices : Text
  pub tool : Text
  pub hypervisor : List Text

unfoldable pub hardware_entries : Hardware → List (Text × Text)
hardware_entries h = (codes "sections", h.sections) ∷ (codes "tooling", h.tooling) ∷ []

unfoldable pub disk_entries : Hardware → List (Text × Text)
disk_entries h =
    (codes "aggregator", h.aggregator)
    ∷ (codes "environment", h.environment)
    ∷ (codes "devices", h.devices)
    ∷ (codes "tool", h.tool)
    ∷ []

-- The proof that StoreProof makes at a time.
unfoldable pub proof_of : ℕ → Hardware → Proof
unfolding hardware_entries disk_entries hash_proof
proof_of now h = record {
  created = now;
  hardware_hash = hash_proof (hardware_entries h);
  disk_hash = hash_proof (disk_entries h);
  hardware = hardware_entries h;
  disks = disk_entries h;
  hypervisor = h.hypervisor;
}

-- NodeAPI.StoreProof. The parts come from JSON, so that their marshalling has no error.
unfoldable pub store_proof : Text → Hardware → Exec DirectoryError (Unit {0})
unfolding proof_of
store_proof node_id h = do
  now ← ask_total (λ env w. env.now w)
  node_push_proof node_id (proof_of now h)
