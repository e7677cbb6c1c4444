-- ===== src/Lib.antt =====
-- Velocity Engine backend: the control plane that stores rules, publishes them to Flink over Kafka,
-- and serves the live results and anomalies that Flink sends back.
--
-- Models is internal/models/rule.go. Rules is internal/handlers/rules.go: CreateRule is `create_rule`,
-- and so on by name; its state is the map of rules, the statements given to MySQL and the messages
-- given to Kafka, and a request runs whole before the next one. Concurrent has the same handlers as
-- requests that overlap: records behind pointers, a step for each locked access, message and transaction,
-- and a schedule that says whose step is next; Sound, Steps and Orders have the invariant, View, Rest and
-- Alone the refinement of `serve`, Races two orders that go wrong. Endpoints has the others. RuleStore is
-- internal/services/rule_store.go: a save is a chain of statements over the log of those before, and
-- MySQL answers each from that log; a load rebuilds rules from what its five queries returned. Kafka is
-- PublishRule of internal/services/kafka.go. LiveStore is internal/services/livestore.go. Consumers is
-- internal/services/consumer.go and anomaly_consumer.go: what one message does to the stores, and the
-- delta that goes to the subscribers, with Loop for the connections; the subscribers are those of
-- Sockets, which is internal/services/wsmanager.go. Rbac is internal/services/rbac.go and
-- internal/middleware/auth.go: Provision makes an account at a first request, and Me is
-- internal/handlers/iam.go. MysqlPool is internal/services/mysql.go. Json and Runtime hold Go's dynamic
-- values and what the program takes of the standard library.
--
-- Historical is internal/services/duckdb.go: Filter is ParseFilterNode, Having is
-- ParseHavingExpression, Query builds the text and the parameters of an analysis and of a breakdown, and
-- Slot has the requests that share duckDBSem and the pinned connection, as a step relation on the phases
-- of the requests; Connection sets that connection up, and Run is a whole analysis or breakdown.
-- ClickHouse is internal/services/clickhouse.go: each read takes the pool, which is opened again after a
-- failure, and a driver that answers the n-th message. Admin is internal/services/admin.go with the
-- error mapping of internal/handlers/admin.go. Analysis is internal/handlers/analysis.go over ClickHouse,
-- LiveStore and Consumers, with its historical endpoints over Historical in Past and Held. Naming is
-- internal/store/naming.go. Streams is internal/handlers/websocket.go: one loop over what a stream reads
-- and what others do to the manager of Sockets in between. Prelude has the helpers, Samples and Tests the
-- inputs on which the models run.
--
-- MySQL, the Kafka producer, encoding/json, the strings and time packages and fmt are parameters, and a
-- statement about them says what it asks of them. A Go map is an association list; a statement over
-- every list covers every order of a range over it. The one loop that is not structural, that of
-- trimExcess, runs on as much fuel as there is excess: each round removes a row at least, so it ends
-- with no excess left. ParseFilterNode recurs on the tree, and Filter/Meaning relates each tree to its SQL; the model's fuel is the number of objects in
-- the node, which bounds the depth. A text is a native string, a character its code point. Times are
-- natural numbers of nanoseconds. Integers are unbounded; the program counts rows, versions and messages
-- with them, which stay far below the width of a machine word. toInt64 keeps its wrap-around.
--
-- Not modelled: the close frames of CloseAll and its wait for the writers, a write that fails in a
-- writer of the WebSocket manager, Start and Stop of the consumers, the ticker of the live store, and the
-- queries of the admin panel that only list rows, since they move values between library calls; the
-- failure of getMySQLDB before a save; the white space that IdentityMiddleware trims and the client's
-- address; MySQL's error 1062 from a statement of the provisioning other than the insert of the user;
-- the statements of one MySQL transaction as several steps of a schedule; metrics, configuration and
-- start-up, which are input, output and wiring.
pub mod Prelude
pub mod Json
pub mod Runtime
pub mod LiveStore
pub mod Models
pub mod RuleStore
pub mod Kafka
pub mod Rules
pub mod MysqlPool
pub mod Rbac
pub mod Sockets
pub mod Consumers
pub mod Historical
pub mod ClickHouse
pub mod Admin
pub mod Analysis
pub mod Naming
pub mod Streams
pub mod Samples
pub mod Tests
