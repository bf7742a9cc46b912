-- ===== src/Lib.antt =====
-- Verification of the microservices of this repository: OrderService takes orders for spaceship parts
-- over HTTP, asks InventoryService for the parts' prices and stock and PaymentService for the charge,
-- both over gRPC, and keeps the orders in a storage.
--
-- The files and the code that they model:
--   Common         numbers, texts, maps and int64 (as bit patterns, wrapping at 2 ^ 64); no code
--   Go             error values, (value, error) results, and the third-party packages as parameters
--   Proto          shared/pkg/proto: the protobuf messages and enumerations
--   Openapi        shared/pkg/openapi/order/v1: the types, the validators and the response encoders
--   Openapi.Json   the same package: Encode and Decode of the types (oas_json_gen.go)
--   Openapi.Router, Openapi.Parameters, Openapi.Bodies, Openapi.Server
--                  the same package: ServeHTTP and FindPath, the path parameter, the bodies of the
--                  requests, and the handlers that put them together
--   Openapi.Answers
--                  the same package: what the client decodes of a response
--   Openapi.Client the same package: the calls of the client, over a transport that is a parameter
--   Inventory      inventory/internal: model, records, repository, service and gRPC handlers
--   Payment        payment/internal: model, service with its repository, and gRPC handler; sequences of
--                  requests are in Payment.History
--   Order.Errors, Order.Model, Order.Records, Order.Converter
--                  order/internal/errors, model, repository/record and repository/converter
--   Order.Repository
--                  order/internal/service/order/deps.go: the storage as operations and laws, as
--                  a machine on one order (Machine) and as a table of such orders (Table)
--   Order.Readback the conversion to a record and back, against the items of the order
--   Order.Memory   order/internal/repository/order/memory.go: the storage in memory, its proof of
--                  the laws in Order.Memory.Laws
--   Order.Postgres order/internal/repository/order/repository.go: the storage in PostgreSQL; what the
--                  tables do is in Order.Postgres.Tables, the laws are in Order.Postgres.Laws
--   Order.Service  order/internal/service/order: Create, Pay, Cancel and Get (`create`, `pay`,
--                  `cancel`, `get`), with their specifications in Spec and Create.Verdict
--   Order.Threads  the same package, with requests that run at the same time
--   Order.Api      order/internal/api/order/v1 and order/internal/converter
--   Order.Clients  order/internal/client/grpc
--   Order.Http     order/internal/app/app.go: the API behind the HTTP server; Order.Service.OnPostgres
--                  has the service over the storage in PostgreSQL
--   Order.Crossing what crosses the interfaces of OrderService
--   System         a client of OrderService over the handlers of the service that it calls
--   Tests          the theorems at concrete inputs
--
-- A method that changes state is a function from the state to a result and the new state; a pointer
-- that may be nil is an option; a UUID is the number that its bytes spell. `Pay` is split at the call
-- of the payment client, where other requests may run: `begin_payment`, the call, and `complete` or
-- `roll_back`. Every loop of the code is structural recursion over the list that it walks, so nothing
-- here runs on fuel.
--
-- Parameters: the UUID package (it reads back what it writes), the clock and the random generator (by
-- their results), the transaction manager, the databases (by their replies), the
-- gRPC transport and the text of its errors, the packages net/url, mime and jx, and ogen's path decoder.
--
-- Not modelled: the options of the generated HTTP client and server, middleware, tracing and metrics, the
-- generated gRPC stubs, the wire formats below a JSON value, logging, the start and stop of the
-- processes, the tests and the mocks. The migrations stand behind the laws of
-- Order.Postgres.Tables, which leave out the widths of the text columns and take the rows of an order as
-- listed in one order. Codes and protobuf numbers below zero, which no code here writes, are left out.
pub mod Common
pub mod Go
pub mod Proto
pub mod Inventory
pub mod Payment
pub mod Openapi
pub mod Order
pub mod System
pub mod Tests
