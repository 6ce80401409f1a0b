-- ===== src/Lib.antt =====
-- A verification of the trading core of minirust: src/types.rs, src/orders.rs, src/inventory.rs,
-- src/state.rs, src/signal.rs, src/anchor.rs, src/gamma.rs, src/config.rs, the parsers src/binance.rs,
-- src/market.rs and src/user.rs, the response classes of src/submit.rs, and the decisions of
-- src/runtime.rs.
--
-- The program turns Binance quotes into BUY intents, checks each against the inventory and the entry
-- gates, claims the token, submits the order, and learns what it owns from the user channel of the
-- venue. An exit loop sells what is owned. All of this acts on one core behind a mutex, so that every
-- operation is one step on one state:
--
-- * Types.antt, with Types/Lattice, is src/types.rs: the fixed-point newtypes are integers, and the
--   lattice of sizes with a whole number of cents is that of `gcd`, `buy_size_multiple_taker_units`,
--   `floor_to_multiple`, `ceil_to_multiple` and `maker_cents_for`. Types/Decimal has the decimal texts.
-- * Orders.antt is src/orders.rs: `canonical_buy_target_for_notional` and `canonical_sell_params`.
-- * Inventory.antt, with Inventory/Trades for `apply_user_trade`, is src/inventory.rs.
-- * State.antt, with State/Depth for `BookDepth`, is src/state.rs.
-- * Runtime.antt is src/runtime.rs: the round-trip average and the entry gates, Runtime/Exits the
--   exits and SELL plans, Runtime/Outcomes the outcomes of submits and the sweep of stale claims,
--   Runtime/Intake the messages of both channels.
-- * Market.antt and User.antt are src/market.rs and src/user.rs, Submit.antt the classification of
--   src/submit.rs. A message or a body arrives as the JSON value that serde_json makes of it
--   (Prelude/Json), or as none where it is not JSON.
-- * Signal.antt is src/signal.rs: the intake of samples, with Signal/Normal and Signal/Model for the
--   volatility and the fair value, and Signal/Decide for the intents and what the exits ask.
--   Runtime/Engine joins it to the core, as `RuntimeCore::on_binance_sample` and `plan_exits` do.
-- * Binance.antt is src/binance.rs, for the binary and the JSON form of a frame.
-- * Config.antt is the readers of src/config.rs, Config/Load the validation `Config::from_lookup`,
--   Config/Core what the core makes of it, Config/Launch the configuration of the process and the file
--   of variables.
-- * Gamma.antt, with Gamma/Dates, is src/gamma.rs from the answers of the services on.
-- * Anchor.antt is src/anchor.rs, the strike of a market.
-- * Inventory/Stages has the machine of a submit, and the event that each operation is to it, which
--   Inventory/Stages/Refines compares the inventory with.
-- * Prelude.antt and its children are shared: lists, integers, machine words, text, maps, results.
--
-- Integers. An i32 or i64 is a ℤ over the native numbers, and each operation writes out what the Rust
-- operation does when it leaves the type: plain arithmetic wraps, since the release profile of
-- Cargo.toml leaves overflow checks off, `saturating_*` clamps and `checked_*` gives an option. An
-- `expect`, `unwrap` or slice that fails is the outcome `panic`. A `String` is the list of its code
-- points and a `HashMap` a list of entries with unique keys; its order of iteration is not fixed, which
-- Inventory/Steps has as a step. `gcd` recurses on the accessibility of the second argument's
-- magnitude, so it ends without fuel. `decimal_scale_digits` runs on fuel n for the scale n, which it
-- divides by ten in each turn, so that the fuel is enough.
--
-- Numbers of type f64 are those of an interface, `F64` of Prelude/Float: a record of a type and of the
-- operations of IEEE 754 and of the platform's mathematics, which the definitions take. A theorem that
-- needs more of them has the laws `IsF64` among its hypotheses, which the decimals of
-- Prelude/Float/Decimals satisfy. A sum of f64 starts at 0.
--
-- Not here: signing and authentication, whose hashes and signatures are those of libraries; HTTP, web
-- sockets, their backoff, logging and the asynchronous loops of src/feed.rs and src/main.rs, which are
-- I/O around the steps above; and the latency probe.
pub mod Prelude
pub mod Types
pub mod Orders
pub mod Inventory
pub mod State
pub mod Signal
pub mod Submit
pub mod User
pub mod Market
pub mod Runtime
pub mod Config
pub mod Anchor
pub mod Binance
pub mod Gamma
