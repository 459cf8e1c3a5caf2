-- ===== src/Lib.antt =====
-- tfexplorer: the explorer of a grid of nodes, on which customers reserve workloads.
--
-- A reservation goes through stages (create, sign, pay, deploy, delete, deleted). The HTTP handlers
-- of pkg/workloads/reservation.go store it, take the signatures of the customers and the results of
-- the nodes, and hand its workloads to the nodes. Each time they load it, the pipeline of
-- pkg/workloads/types/pipeline.go works out its stage from its signatures, its results and the
-- time. The escrow of pkg/escrow registers a new reservation with its cost for each farmer, waits
-- until the customer has paid, moves the reservation to the deploy stage, and pays out or refunds.
-- A customer puts a reservation together with the builders of provision/builders, of which the
-- network builder links nodes and access points by WireGuard.
--
-- The files:
--   * Base: shared names and lemmas, and the parts of Go that the code uses: int64 (Base.Int64),
--     strings (Base.Text), decimal numbers (Base.Decimal), time (Base.Time), hex (Base.Hex), and
--     addresses and subnets of package net (Base.Net).
--   * Models: the documents of models/generated (Models.Workloads, Models.Directory,
--     Models.Phonebook), and PageFromRequest and QueryInt of models/utils.go (Models.Paging).
--   * Program: programs that ask an outside, write to it and may fail; what a program can write is
--     described by Program.Quiet and Program.Confined.
--   * Mw: the responses of mw/action.go.
--   * Phonebook: pkg/phonebook: types/user.go (Phonebook.User), user.go and UserKeyGetter of
--     mw/auth.go (Phonebook.Handlers), and what they ask and write (Phonebook.Outside).
--   * Directory: pkg/directory: types/node.go, types/gateway.go and types/farm.go (Directory.Node,
--     Directory.Gateway, Directory.Farm, Directory.Filters), PublicIface.Validate
--     (Directory.PublicConfig), hashProof and StoreProof (Directory.Proofs), the stores and handlers
--     of nodes, gateways and farms (Directory.Nodes, Directory.Gateways, Directory.Farms), and what
--     they ask and write (Directory.Outside).
--   * Reservation: the methods of types.Reservation in pkg/workloads/types/reservation.go: Workloads
--     (Reservation.Workloads), Validate (Reservation.Validate), NodeIDs and GatewayIDs
--     (Reservation.Nodes), the conditions of ReservationFilter (Reservation.Filter), Expired, IsAny, ResultOf, AllDeleted and IsSuccessfullyDeployed.
--   * Pipeline: pkg/workloads/types/pipeline.go, with Next as `next`.
--   * Stellar.Asset: pkg/stellar/asset.go, and AssetFromCode of pkg/stellar/stellar.go.
--   * Stellar.Validation: pkg/stellar/validation.go.
--   * Stellar.Wallet: pkg/stellar/stellar.go: GetBalance (Stellar.Wallet.Balance), the operations of
--     its transactions (Stellar.Wallet.Operations), and Refund, PayoutFarmers and CreateAccount with
--     what they share (Stellar.Wallet.Transactions).
--   * Escrow: pkg/escrow/types (Escrow.Types), payout_distribution.go and splitPayout
--     (Escrow.Distribution), resource.go (Escrow.Resources), escrow.go (Escrow.Free), and of stellar.go the registration
--     (Escrow.Register) and the payment, payout and refund (Escrow.Service).
--   * World: what the handlers and the escrow ask of the database, the wallet, the clock and the
--     phonebook (Env), the writes that they issue (Write), and programs over both (Exec). `load` is
--     the handlers' `a.pipeline(filter.Get(...))`.
--   * Api: pkg/workloads/reservation.go: signProvision and signDelete (Api.Signatures),
--     workloadGet, workloadPutResult and workloadPutDeleted (Api.Results), get and workloads
--     (Api.Listing), create (Api.Create).
--   * Provision: provision/builders. networkBuilder.go: its state and setters (Provision.Network),
--     the functions on addresses at its end (Provision.Address), the maps and the links of
--     generatePeers (Provision.Tables, Provision.Peers), what a panic in it
--     leaves behind (Provision.Left), AddNode, RemoveNode and the look up of
--     public endpoints (Provision.Nodes), AddAccess with the WireGuard configuration
--     (Provision.Config), LoadNetworkBuilder and Save (Provision.Load); Provision.Dict is a Go map
--     with text keys. encryptSecret and the reservation builder of reservationBuilder.go
--     (Provision.Secret, Provision.Reservation), and the builders of containerBuilder.go,
--     zdbBuilder.go, volumeBuilder.go and k8sBuilder.go (Provision.Container, Provision.Zdb,
--     Provision.Volume, Provision.K8s).
--   * Schema: schema/types.go: Date in JSON (Schema.Date) and the text of an IPRange (Schema.Range);
--     schema/parse.go: the regular expressions as matchers (Schema.Parse.Lexis), typeDef
--     (Schema.Parse.Types), New (Schema.Parse) and Object.Default (Schema.Parse.Defaults).
--   * Examples: the results at concrete inputs.
--
-- How code is modelled: a function is a function by clauses with the conditions of the code in
-- their order. A handler is an `Exec`: it asks, writes, and stops with an error; what was written
-- before an error stays written, as in the code, which has no transactions. An answer depends on
-- the environment and on the world, that is on what was written and on how much was asked, so
-- nothing is assumed about what the database returns. A write succeeds or fails as the environment
-- says. An int64 is its 64-bit pattern with the wrap-around written out. A Go map is a list in the
-- order of insertion. The loop of Next runs on a fuel of 3 rounds: create to sign, sign to pay, and
-- one that changes nothing. Decimal numbers are printed on a fuel of 20 digits, the length of the
-- largest 64-bit number. GetBalance reads pages of transactions for as long as they are full, on a
-- fuel of pages; one more than the full pages of the history is enough. The loop of generatePeers
-- over the allowed subnets, which appends to the list that it runs over, has a fuel of rounds; a
-- bound under which it is enough is among the results. pickPort draws random ports on a fuel of
-- draws; one more than the draws before a free port is enough (Provision.Nodes.Ports). The tokens
-- of a type are read on a fuel of the length of its text; a token that is a symbol is not empty
-- (Schema.Parse.Types.Printed). All other loops are structural. Log lines are left out. Where Go
-- goes through a map in an order of its own, the model takes the order of insertion; the maps of
-- generatePeers that it goes through have at most one key.
--
-- Parameters: the checks and encodings of keys and signatures, encoding/json and reflect.DeepEqual,
-- floating point and math/big, the queries of MongoDB, the Stellar network, and the answer of the
-- escrow's channel; for the builders the keys of wgtypes, random numbers, encryption for a node,
-- the types of zos and the explorer's answers. A request is given as what its decoding returns,
-- with the name of the key that signed it.
--
-- Not modelled: how MongoDB selects by a filter, and the set up of collections and routes, the
-- filter's Or and the decoding of the queue, the loop Run of the escrow over its channels, the
-- encryption of seeds, the generator of models/generated (schema/generate.go) and Kind.String,
-- which takes any of a kind's symbols, the middleware but for its responses and the key of a user,
-- NetworkGraph, which draws a network, Load and Save of the other builders, which only call
-- encoding/json, the parsing of ranges, e-mail and hardware addresses, and the HTTP client,
-- commands, migrations and web pages, which are I/O or do not run in the explorer. The numbers of
-- pages in the headers of the listings are computed in floating point and left out. A handler that
-- panics stops there with a status of its own; what net/http then does is left out.
pub mod Base
pub mod Models
pub mod Reservation
pub mod Pipeline
pub mod Stellar
pub mod Escrow
pub mod Program
pub mod Mw
pub mod Phonebook
pub mod Directory
pub mod World
pub mod Api
pub mod Provision
pub mod Schema
mod Examples
