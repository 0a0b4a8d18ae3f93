-- ===== src/Lib.antt =====
-- inventree-mcp: an MCP server in front of the InvenTree inventory system.
--
-- The parts that carry the program's own logic. A write goes through a confirmation: a dry run
-- answers with a plan and a token, and a plan with the same digest is executed for the token. For batches
-- the token is kept by internal/batch/store.go (Store.Issue, Store.Consume), and the batch is executed
-- by internal/batch/execute.go (Execute, runOne). The tools for one stock item keep their tokens in
-- stockPlanStore of internal/tools/stock_adjustment_tools.go, a second such store, and the tools that move
-- a purchase order from one status to another in purchaseOrderLifecyclePlanStore, a third. Access to the
-- server is granted by internal/oauth: a user's InvenTree credential is sealed into token envelopes (envelope.go), which service.go issues
-- for authorization codes and refreshes; client assertions are used once, and requests are limited.
-- A tool runs behind the guard of internal/tools/auth_guard.go, which compares scopes.
--
-- Files.
--   Prelude, Prelude/*   shared names, Boolean tests, lists, Go's signed integers, results
--   GoMap, GoMap/Laws    a Go map as an association list
--   Batch/Store          internal/batch/store.go: Options, entry, Store, NewStore, Issue, Consume
--   Batch/Store/*        its invariant, the ledger it refines, refused issues, its histories
--   Batch/Execute        internal/batch/execute.go: Outcome, Result, Adapter, Execute, runOne
--   Batch/Execute/*      results and calls, limits, completion; Execute/Disjoint and Sequential,
--                        items that share no upstream state
--   Oauth/CodeStore      internal/oauth/code_store.go
--   Oauth/Replay         internal/oauth/private_key_jwt.go: AssertionReplayStore
--   Oauth/RateLimiter    internal/oauth/authorization_server.go: RequestRateLimiter
--   Oauth/Text, Oauth/Text/Laws   the text functions of internal/oauth/envelope.go
--   Oauth/Keyring        NewKeyring of internal/oauth/envelope.go; Keyring/Loading, what it returns
--   Oauth/Envelope       Seal, Open, associatedDataBytes; Envelope/Opening, tokens that open again
--   Oauth/Claims         internal/oauth/types.go, with Credential.Validate of internal/inventree/auth.go
--                        and verifyPKCES256 of internal/oauth/pkce.go
--   Oauth/Service        internal/oauth/service.go; Service/Lifetime, Exchange and Kinds, its theorems
--   Oauth/Bootstrap      internal/oauth/bootstrap.go; Bootstrap/Header, Issuing, Sealing and Attempts, its
--                        theorems
--   Oauth/Samples, Oauth/Samples/Claims   concrete functions for the parameters, for tests
--   Tools/Guard          GuardTool and authorizeTool of internal/tools/auth_guard.go; Guard/Permission
--   Text, Text/Trim      functions of Go's strings and unicode packages, and laws of trimming
--   Stock/Plans          stockPlanStore of internal/tools/stock_adjustment_tools.go; Plans/Twin, the batch
--                        store that it corresponds to; Plans/History, its histories
--   Stock/Item           the records of that file, and StockItem of internal/inventree/models.go
--   Stock/Decimal        normalizedStockDecimal
--   Stock/Execute        prepareStockAdjustment, executeStockPlan; Execute/Authority and Request, when a
--                        mutation is asked for and what a success shows
--   Stock/Adjust         adjustStockQuantity, setStockStatus, stocktakeAdjustment; Adjust/Replies, their
--                        inputs and refusals; Adjust/Bounds, Refusal, Safety and Outcome, its theorems
--   Stock/Depletion      internal/tools/stock_depletion_tools.go; Depletion/Replies, what it
--                        answers; Depletion/Hazards, Removal, Refusal and Absence, its theorems
--   Server/SourceIp      internal/server/source_ip.go; SourceIp/Rightmost and Spoofing, its theorems
--   Inventree/Pagination internal/inventree/pagination.go; Pagination/Pages, when ListAll returns
--   Upload/Url           internal/upload/url.go; Url/Dialling, which addresses an upload connects to
--   Stock/Samples        a small InvenTree server for the tests
--   Purchase/Orders      purchase orders and their lines (internal/inventree/models.go), the client, sanitizing
--   Purchase/ExtraLines  scanPurchaseOrderExtraLines of internal/tools/purchase_order_extra_line_tools.go;
--                        ExtraLines/Scan, how it ends
--   Purchase/Plans       purchaseOrderLifecyclePlanStore; Plans/Twin, the stock plan store that it equals
--   Purchase/Lifecycle   the data and the tables of internal/tools/purchase_order_lifecycle_tools.go
--   Purchase/Planning    what its handlers read and decide
--   Purchase/Handlers    its execution and handlers; Handlers/Prepared, Safety, Cancellation and Outcome
--   Purchase/Reading     what the reads of the tools leave alone
--   Purchase/Completion  internal/tools/purchase_order_completion_tools.go; Completion/Ready, Safety and
--                        Outcome, its theorems
--   Purchase/Statuses    calls of the four tools in any order; Statuses/Moves and Final
--   Purchase/Samples     a small InvenTree server for the tests
--   Batch/Tests, Oauth/Tests, Oauth/TokenTests, Oauth/BootstrapTests, Tools/Tests, Stock/Tests,
--   Server/Tests, Inventree/Tests, Upload/Tests, Purchase/Tests   the theorems at concrete inputs
--
-- State and operations. A struct is a record and a method is a function that returns the new record;
-- a method under a mutex is one step. What a method reads from outside (the clock, the context, the
-- answer of the id generator) is an argument. An instant is a number of nanoseconds, 0 is Go's zero
-- time, and `int` and `time.Duration` are unbounded integers. A nil pointer is `none`. Go's map
-- iteration order is not observable in the modelled loops.
--
-- Concurrency. Execute is a configuration of goroutines and a list of moves: a goroutine goes on by
-- one call of the adapter at a time, and between two of them any other move can be made, also by
-- the outside world. The group of golang.org/x/sync is a parameter with the two laws of SetLimit.
--
-- Parameters. The cipher of crypto/aes and crypto/cipher, encoding/base64 and encoding/json are the
-- records Crypto and Json of Oauth/Envelope, with the laws that their documentation states; that GCM
-- refuses other associated data is taken as a law without its negligible error. SHA-256 of a PKCE
-- verifier is a function. Go's float64 with math and strconv is the record Floats of Stock/Decimal, and
-- the projection of external URLs is a function, both without laws. The InvenTree client of the stock
-- tools is a record of functions on a world that may change in any way at each call; the hash of a plan
-- and the random tokens are arguments. net/netip is the record Netip of Server/SourceIp, and the requests,
-- JSON and URLs of ListAll are the record PageClient of Inventree/Pagination, both without laws; so are the
-- network, the resolver and the servers of Upload/Url, and the credential broker of
-- Oauth/Bootstrap, which answer in a world that changes. The purchase-order tools work on
-- such a client too (OrderClient); the digests of their plans are parameters, and sort.Slice is the record
-- Sorting with the law that it permutes. That InvenTree answers with what it has and does what it is asked
-- for or nothing is the hypothesis Faithful of Purchase/Statuses alone. The length of a text in bytes,
-- strings.EqualFold, net.SplitHostPort, SHA-256 and the RFC 3339 format of an instant are the record Library
-- of Oauth/Bootstrap, without laws.
-- A panic of the scan of extra lines is an end of its own of that scan; the handlers pass it on as an error.
-- Elsewhere texts are sequences of code points, and separators are ASCII.
--
-- Bounds. Loops are recursion on lists, and a batch ends within six steps for each item. Three loops run on
-- fuel: the one over the segments of a header value, with more than the length of the value, which each
-- turn shortens; and the pages of ListAll, which the code does not bound either, and whose theorem says
-- how much is enough; and the scan of extra lines, with 1,001, since each turn that goes on has a greater
-- offset below 1,000.
--
-- Not modelled: digests (a parameter of the plan type), the text of most errors, the retry fields and MCP
-- results of the stock tools, the order in which
-- concurrent OnProgress calls return, HTTP, JSON and everything the manifest lists as such.
pub mod Batch
pub mod GoMap
pub mod Inventree
pub mod Oauth
pub mod Prelude
pub mod Purchase
pub mod Server
pub mod Stock
pub mod Text
pub mod Tools
pub mod Upload
